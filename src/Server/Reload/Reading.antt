-- ===== src/Server/Reload/Reading.antt =====
-- `read_config_and_spawn`, case by case.
use aardvark_dns.Prelude.{
  ℕ, ◌≡◌, ◌↔◌, inl, inr, refl, sym, ◌∙◌, Bool, true, false, ◌&&◌, List, [], some, is_empty,
  Bool-cases, none-ne-some,
}
use aardvark_dns.Prelude.Classes.{Eq, nat_eq, pair_eq}
use aardvark_dns.Text.{Str, str_eq, codes}
use aardvark_dns.HashMap.{HashMap, get, keys}
use aardvark_dns.HashSet.{contains, contains_iff, Distinct}
use aardvark_dns.Result.{ok, err, Result-cases}
use aardvark_dns.Error.{
  into_same, AardvarkError, AardvarkErrorList, AardvarkResult, nil, cons, chain, push, wrap,
}
use aardvark_dns.Net.Addr.{IpAddr, Ipv4Addr, Ipv6Addr, v4, v6, SocketAddr}
use aardvark_dns.Config.Directory.{Parsed, parse_configs}
use aardvark_dns.Server.Resolv.{get_upstream_resolvers}
use aardvark_dns.Server.Threads.{Threads, expected_threads, outcome}
use aardvark_dns.Server.Threads.Expected.{Listens, expected_threads_iff}
use aardvark_dns.Server.Threads.Outcome.{
  IsVisit, not-both, Reloaded, stop_and_start_threads-Reloaded,
}
use aardvark_dns.Server.Reload.{
  Setup, World, Server, returned, exit, resolvers_or, push_error, stop_server, spawn_all,
  use_config, read_config_and_spawn,
}
use aardvark_dns.Server.Reload.Tables.{IsIdle, stop_threads-IsIdle}

-- No key stands twice in a table of tasks.
pub record IsWellFormed (s : Server) : Type 0 where
  pub v4 : Distinct (keys s.handles_v4.handles)
  pub v6 : Distinct (keys s.handles_v6.handles)

-- The handles are those of the listen addresses.
abbrev pub Runs : {Ip : Type 0} → ⦃e : Eq Ip⦄ → HashMap Str (List Ip) → Threads Ip → Type 0
Runs {Ip} listen_ips t =
    (key : Str × Ip) → ((handle : ℕ) × (get t.handles key ≡ some handle)) ↔ Listens listen_ips key

-- A listen address keeps the handle that it had.
abbrev pub Stays :
    {Ip : Type 0} → ⦃e : Eq Ip⦄ → HashMap Str (List Ip) → Threads Ip → Threads Ip → Type 0
Stays {Ip} listen_ips t t' =
    (key : Str × Ip) (handle : ℕ)
    → Listens listen_ips key
    → get t.handles key ≡ some handle
    → get t'.handles key ≡ some handle

pub push_error-nil :
    (errors : AardvarkErrorList) (r : AardvarkResult (Unit {0}))
    → push_error errors r ≡ nil
    → (errors ≡ nil) × (r ≡ ok tt)
unfolding push
push_error-nil errors (ok tt) h = (h, refl)
push_error-nil nil (err e) h = cc
push_error-nil (cons x xs) (err e) h = cc

pub resolvers_or-nil :
    (r : AardvarkResult (List SocketAddr)) → (resolvers_or r).1 ≡ nil → r ≡ ok (resolvers_or r).0
unfolding push
resolvers_or-nil (ok ns) h = refl
resolvers_or-nil (err e) h = cc

module _ {Ip : Type 0} ⦃e : Eq Ip⦄ (into : Ip → IpAddr) (listen_ips : HashMap Str (List Ip))
    (t t' : Threads Ip) {r : AardvarkResult (Unit {0})} where
  pub Reloaded-Runs : Reloaded into listen_ips t t' r → r ≡ ok tt → Runs listen_ips t'
  Reloaded-Runs rel fine key =
      let expected = expected_threads [] listen_ips in
      (
        (λ (handle, here). elim (Bool-cases (contains expected key)) [
          | inl listed ↦
              (expected_threads_iff listen_ips key).0 ((contains_iff expected key).0 listed)
          | inr missing ↦
              let lost = rel.gone key (λ l.
                not-both (contains expected key)
                  ((contains_iff expected key).1 ((expected_threads_iff listen_ips key).1 l))
                  missing) in
              absurd (none-ne-some _ (sym lost ∙ here))
        ]),
        rel.served fine key,
      )

pub returned-injective :
    {s s' : Server} {r r' : AardvarkResult (Unit {0})}
    → returned s r ≡ returned s' r'
    → (s ≡ s') × (r ≡ r')
returned-injective h = (cc, cc)

pub exit-injective :
    {s s' : Server} {code code' : ℕ} → exit code s ≡ exit code' s' → (code ≡ code') × (s ≡ s')
exit-injective h = (cc, cc)

pub exit-not-returned :
    {s s' : Server} {code : ℕ} {r : AardvarkResult (Unit {0})} → exit code s ≡ returned s' r → ⊥
exit-not-returned h = cc

pub err-not-ok : {e : AardvarkError} → ◌≡◌ {A = AardvarkResult (Unit {0})} (err e) (ok tt) → ⊥
err-not-ok h = cc

module _ (setup : Setup) (world : World) (IsVisit-v4 : IsVisit setup.visit_v4)
    (IsVisit-v6 : IsVisit setup.visit_v6) where
  -- The tables behind `spawn_all`.
  pub record Spawned (parsed : Parsed) (s : Server) (errors : AardvarkErrorList) : Type 0 where
    pub t4 : Threads Ipv4Addr
    pub t6 : Threads Ipv6Addr
    pub r4 : AardvarkResult (Unit {0})
    pub r6 : AardvarkResult (Unit {0})
    pub ends :
        spawn_all setup world parsed s errors
        ≡ returned
            (record s { handles_v4 = t4; handles_v6 = t6 })
            (outcome (push_error (push_error errors r4) r6))
    pub reloaded_v4 : Reloaded v4 parsed.listen_4 s.handles_v4 t4 r4
    pub reloaded_v6 : Reloaded v6 parsed.listen_6 s.handles_v6 t6 r6

  spawn_all-Spawned :
      (parsed : Parsed) (s : Server) (errors : AardvarkErrorList)
      → IsWellFormed s
      → Spawned parsed s errors
  unfolding spawn_all
  spawn_all-Spawned parsed s errors w =
      let (t4, r4, done4, rel4) =
        stop_and_start_threads-Reloaded v4 setup.display world.binder_v4 setup.port setup.visit_v4
          IsVisit-v4 parsed.listen_4 s.handles_v4 w.v4 in
      let (t6, r6, done6, rel6) =
        stop_and_start_threads-Reloaded v6 setup.display world.binder_v6 setup.port setup.visit_v6
          IsVisit-v6 parsed.listen_6 s.handles_v6 w.v6 in
      record {
        t4 = t4;
        t6 = t6;
        r4 = r4;
        r6 = r6;
        ends = rw (done4, done6, spawn_all) refl;
        reloaded_v4 = rel4;
        reloaded_v6 = rel6;
      }

  abbrev pub parsed_config : AardvarkResult Parsed
  parsed_config =
      parse_configs setup.unicode setup.order setup.filter_search_domain world.files
        setup.config_path

  -- No network has a listen address.
  abbrev pub unlisted : Parsed → Bool
  unlisted parsed = is_empty parsed.listen_4 && is_empty parsed.listen_6

  abbrev pub stored : Parsed → Server → Server
  stored parsed s = record s { backend = some parsed.backend }

  abbrev pub resolvers : List SocketAddr × AardvarkErrorList
  resolvers = resolvers_or (get_upstream_resolvers setup.if_nametoindex world.resolv_conf)

  abbrev pub supplied : Parsed → Server → Server
  supplied parsed s = record (stored parsed s) { nameservers = resolvers.0 }

  -- How a call ends, from a well-formed state.
  pub data Reading (s : Server) : Type 0 where
    unreadable :
        (e : AardvarkError)
        → parsed_config ≡ err e
        → read_config_and_spawn setup world s
          ≡ returned s (err (chain (codes "unable to parse config") e))
        → Reading s
    kept_running :
        (parsed : Parsed)
        → parsed_config ≡ ok parsed
        → unlisted parsed ≡ true
        → read_config_and_spawn setup world s ≡ exit 1 (stored parsed s)
        → Reading s
    stopped :
        (parsed : Parsed) (t4 : Threads Ipv4Addr) (t6 : Threads Ipv6Addr)
        → parsed_config ≡ ok parsed
        → unlisted parsed ≡ true
        → IsIdle t4
        → IsIdle t6
        → read_config_and_spawn setup world s
          ≡ exit 0 (record (stored parsed s) { handles_v4 = t4; handles_v6 = t6 })
        → Reading s
    spawned :
        (parsed : Parsed)
        → parsed_config ≡ ok parsed
        → unlisted parsed ≡ false
        → (sp : Spawned parsed (supplied parsed s) resolvers.1)
        → read_config_and_spawn setup world s
          ≡ returned
              (record (supplied parsed s) { handles_v4 = sp.t4; handles_v6 = sp.t6 })
              (outcome (push_error (push_error resolvers.1 sp.r4) sp.r6))
        → Reading s

  starts_with :
      (parsed : Parsed) (s : Server)
      → parsed_config ≡ ok parsed
      → read_config_and_spawn setup world s ≡ use_config setup world parsed s
  unfolding read_config_and_spawn wrap
  starts_with parsed s read = rw (read, read_config_and_spawn) refl

  when_unlisted :
      (parsed : Parsed) (s : Server)
      → unlisted parsed ≡ true
      → use_config setup world parsed s ≡ stop_server setup world (stored parsed s)
  unfolding use_config
  when_unlisted parsed s none_listed = rw (none_listed, use_config) refl

  when_listed :
      (parsed : Parsed) (s : Server)
      → unlisted parsed ≡ false
      → use_config setup world parsed s
        ≡ spawn_all setup world parsed (supplied parsed s) resolvers.1
  unfolding use_config
  when_listed parsed s listed = rw (listed, use_config) refl

  pub reading : (s : Server) → IsWellFormed s → Reading s
  unfolding read_config_and_spawn wrap stop_server
  reading s w = elim (Result-cases parsed_config) [
    | inr (e, failed) ↦ unreadable e failed (rw (failed, read_config_and_spawn) refl)
    | inl (parsed, read) ↦ elim (Bool-cases (unlisted parsed)) [
      | inr listed ↦
          let sp =
            spawn_all-Spawned parsed (supplied parsed s) resolvers.1
              (record { v4 = w.v4; v6 = w.v6 }) in
          spawned parsed read listed sp
            (starts_with parsed s read ∙ (when_listed parsed s listed ∙ sp.ends))
      | inl none_listed ↦ elim (Result-cases world.remove_pid_file) [
        | inr (e, failed) ↦ kept_running parsed read none_listed (
            starts_with parsed s read
            ∙ (when_unlisted parsed s none_listed ∙ rw (failed, stop_server) refl))
        | inl (_, removed) ↦
            let (t4, done4, idle4) = stop_threads-IsIdle v4 s.handles_v4 w.v4 in
            let (t6, done6, idle6) = stop_threads-IsIdle v6 s.handles_v6 w.v6 in
            stopped parsed t4 t6 read none_listed idle4 idle6 (
              starts_with parsed s read
              ∙ (when_unlisted parsed s none_listed ∙ rw (removed, done4, done6, stop_server) refl))
      ]
    ]
  ]
