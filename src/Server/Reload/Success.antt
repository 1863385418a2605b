-- ===== src/Server/Reload/Success.antt =====
-- What `read_config_and_spawn` leaves, on every path.
use aardvark_dns.Prelude.{ℕ, ◌≡◌, ◌⊎◌, refl, sym, ◌∙◌, subst, true, some}
use aardvark_dns.Prelude.Classes.{nat_eq, pair_eq}
use aardvark_dns.Text.{str_eq}
use aardvark_dns.Result.{ok}
use aardvark_dns.Net.Addr.{v4, v6}
use aardvark_dns.Config.Directory.{Parsed}
use aardvark_dns.Server.Resolv.{get_upstream_resolvers}
use aardvark_dns.Server.Threads.{outcome}
use aardvark_dns.Server.Threads.Outcome.{IsVisit, outcome-nil}
use aardvark_dns.Server.Reload.{
  Setup, World, Server, Ending, returned, exit, panic, push_error, read_config_and_spawn,
}
use aardvark_dns.Server.Reload.Tables.{IsIdle}
use aardvark_dns.Server.Reload.Reading.{
  IsWellFormed, Runs, Stays, push_error-nil, resolvers_or-nil, Reloaded-Runs, returned-injective,
  exit-not-returned, err-not-ok, Spawned, unreadable, kept_running, stopped, spawned, parsed_config,
  unlisted, supplied, resolvers, reading,
}

module _ (setup : Setup) (world : World) (IsVisit-v4 : IsVisit setup.visit_v4)
    (IsVisit-v6 : IsVisit setup.visit_v6) where
  -- What is there after a reload without an error.
  pub record Serving (s s' : Server) : Type 0 where
    pub parsed : Parsed
    pub read : (parsed_config setup world IsVisit-v4 IsVisit-v6) ≡ ok parsed
    pub store : s'.backend ≡ some parsed.backend
    pub upstream : get_upstream_resolvers setup.if_nametoindex world.resolv_conf ≡ ok s'.nameservers
    pub runs_v4 : Runs parsed.listen_4 s'.handles_v4
    pub runs_v6 : Runs parsed.listen_6 s'.handles_v6
    pub stays_v4 : Stays parsed.listen_4 s.handles_v4 s'.handles_v4
    pub stays_v6 : Stays parsed.listen_6 s.handles_v6 s'.handles_v6

  serves :
      (s s' : Server) (parsed : Parsed)
      → (parsed_config setup world IsVisit-v4 IsVisit-v6) ≡ ok parsed
      → (sp : Spawned setup world IsVisit-v4 IsVisit-v6 parsed
          (supplied setup world IsVisit-v4 IsVisit-v6 parsed s)
          (resolvers setup world IsVisit-v4 IsVisit-v6).1)
      → returned
          (record (supplied setup world IsVisit-v4 IsVisit-v6 parsed s) {
            handles_v4 = sp.t4;
            handles_v6 = sp.t6;
          })
          (outcome
            (push_error (push_error (resolvers setup world IsVisit-v4 IsVisit-v6).1 sp.r4) sp.r6))
        ≡ returned s' (ok tt)
      → Serving s s'
  serves s s' parsed read sp h =
      let (same, fine) = returned-injective h in
      let (fine4, ok6) =
        push_error-nil (push_error (resolvers setup world IsVisit-v4 IsVisit-v6).1 sp.r4) sp.r6
          (outcome-nil _ fine) in
      let (no_errors, ok4) =
        push_error-nil (resolvers setup world IsVisit-v4 IsVisit-v6).1 sp.r4 fine4 in
      subst (Serving s) same (record {
        parsed = parsed;
        read = read;
        store = refl;
        upstream =
            resolvers_or-nil (get_upstream_resolvers setup.if_nametoindex world.resolv_conf)
              no_errors;
        runs_v4 = Reloaded-Runs v4 parsed.listen_4 s.handles_v4 sp.t4 sp.reloaded_v4 ok4;
        runs_v6 = Reloaded-Runs v6 parsed.listen_6 s.handles_v6 sp.t6 sp.reloaded_v6 ok6;
        stays_v4 = sp.reloaded_v4.stays;
        stays_v6 = sp.reloaded_v6.stays;
      })

  -- From distinct keys, a reload that returns `Ok` has read the directory and resolv.conf; the
  -- store is the one that was read, the resolvers are those of resolv.conf, and in both families
  -- exactly the listen addresses that were read have a handle, which is the one from before if
  -- there was one.
  pub read_config_and_spawn-Serving :
      (s s' : Server)
      → IsWellFormed s
      → read_config_and_spawn setup world s ≡ returned s' (ok tt)
      → Serving s s'
  read_config_and_spawn-Serving s s' w h = elim (reading setup world IsVisit-v4 IsVisit-v6 s w) [
    | unreadable e _ ends ↦ absurd (err-not-ok (returned-injective (sym ends ∙ h)).1)
    | kept_running _ _ _ ends ↦ absurd (exit-not-returned (sym ends ∙ h))
    | stopped _ _ _ _ _ _ _ ends ↦ absurd (exit-not-returned (sym ends ∙ h))
    | spawned parsed read _ sp ends ↦ serves s s' parsed read sp (sym ends ∙ h)
  ]

  -- The state that a call returns is well-formed, and the call does not panic.
  abbrev pub Kept : Ending → Type 0
  Kept (returned s r) = IsWellFormed s
  Kept (exit code s) = Unit
  Kept panic = ⊥

  -- From distinct keys a reload does not panic, whatever it finds, and if it returns, the keys
  -- are distinct again.
  pub read_config_and_spawn-IsWellFormed :
      (s : Server) → IsWellFormed s → Kept (read_config_and_spawn setup world s)
  read_config_and_spawn-IsWellFormed s w = elim (reading setup world IsVisit-v4 IsVisit-v6 s w) [
    | unreadable e _ ends ↦ subst Kept (sym ends) w
    | kept_running _ _ _ ends ↦ subst Kept (sym ends) tt
    | stopped _ _ _ _ _ _ _ ends ↦ subst Kept (sym ends) tt
    | spawned parsed _ _ sp ends ↦
        subst Kept (sym ends) (record { v4 = sp.reloaded_v4.unique; v6 = sp.reloaded_v6.unique })
  ]

  -- What is known when the process exits.
  abbrev pub Exits : ℕ → Server → Server → Type 0
  Exits code s s' =
      ((parsed : Parsed) × ((parsed_config setup world IsVisit-v4 IsVisit-v6) ≡ ok parsed)
        × (unlisted setup world IsVisit-v4 IsVisit-v6 parsed ≡ true))
      × (((code ≡ 0) × (IsIdle s'.handles_v4 × IsIdle s'.handles_v6))
          ⊎ ((code ≡ 1) × ((s'.handles_v4 ≡ s.handles_v4) × (s'.handles_v6 ≡ s.handles_v6))))
