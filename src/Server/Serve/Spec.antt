-- ===== src/Server/Serve/Spec.antt =====
-- What a server promises about its store and its resolvers, and that `serve` keeps the promise.
use mathlib.Core.List.{foldl}
use mathlib.Core.Option
use aardvark_dns.Prelude.{
  ◌≡◌, refl, sym, ap, ◌∙◌, subst, Bool, true, false, List, [], ◌∷◌, Option, none, some, inl, inr,
  Bool-cases,
}
use aardvark_dns.Result.{ok, err, Result-cases}
use aardvark_dns.Error.{AardvarkResult}
use aardvark_dns.Net.Addr.{SocketAddr}
use aardvark_dns.Config.Directory.{Parsed, parse_configs}
use aardvark_dns.Server.Resolv.{get_upstream_resolvers}
use aardvark_dns.Server.Threads.Outcome.{IsVisit}
use aardvark_dns.Server.Reload.{
  Setup, World, Server, returned, read_config_and_spawn, reload_nameservers,
}
use aardvark_dns.Server.Reload.Reading.{
  IsWellFormed, unreadable, kept_running, stopped, spawned, reading, returned-injective,
  exit-not-returned, resolvers,
}
use aardvark_dns.Server.Reload.Steps.{
  no_tasks, no_tasks-IsWellFormed, Reachable, started, next, hangup, resolv_changed,
  Reachable-IsWellFormed, Reachable-no_panic,
}
use aardvark_dns.Server.Serve.{
  Host, Wake, sighup, resolv_conf, waiting, Serve, get_inotify_event_stream, select_panics,
  serve_loop, serve,
}
use aardvark_dns.Server.Serve.Starts.{Starts-serve, serve_success}
use aardvark_dns.Server.Serve.Loop.{
  Ending-cases, loop_blocked, loop_returned, loop_exit, loop_watched, loop_unwatched,
}

-- The directory that was read last, and the resolvers of the host.
pub record Promise : Type 0 where
  pub directory : Option Parsed
  pub upstream : List SocketAddr

-- In front of the first reload.
abbrev pub nothing : Promise
nothing = record { directory = none; upstream = [] }

waiting-injective : {s s' : Server} → waiting s ≡ waiting s' → s ≡ s'
waiting-injective h = cc

module _ (setup : Setup) where
  -- A directory that cannot be read changes nothing; one that can be replaces the last, and the
  -- resolvers are read too, none if that fails.
  abbrev pub reread : Promise → AardvarkResult Parsed → AardvarkResult (List SocketAddr) → Promise
  reread promise (err e) resolv = promise
  reread promise (ok parsed) (ok ns) = record { directory = some parsed; upstream = ns }
  reread promise (ok parsed) (err e) = record { directory = some parsed; upstream = [] }

  abbrev pub updated : Promise → AardvarkResult (List SocketAddr) → Promise
  updated promise (ok ns) = record promise { upstream = ns }
  updated promise (err e) = promise

  abbrev pub read_dir : World → AardvarkResult Parsed
  read_dir world =
      parse_configs setup.unicode setup.order setup.filter_search_domain world.files
        setup.config_path

  abbrev pub read_resolv : World → AardvarkResult (List SocketAddr)
  read_resolv world = get_upstream_resolvers setup.if_nametoindex world.resolv_conf

  -- One event, where `stream` says whether changes of resolv.conf are seen.
  abbrev pub promised : Bool → Promise → Wake → Promise
  promised stream promise (sighup world) = reread promise (read_dir world) (read_resolv world)
  promised true promise (resolv_conf world) = updated promise (read_resolv world)
  promised false promise (resolv_conf world) = promise

  -- The server shows what was promised.
  pub record Shows (s : Server) (promise : Promise) : Type 0 where
    pub store : s.backend ≡ Option.map (λ (p : Parsed). p.backend) promise.directory
    pub upstream : s.nameservers ≡ promise.upstream

  module _ (IsVisit-v4 : IsVisit setup.visit_v4) (IsVisit-v6 : IsVisit setup.visit_v6) where
    reread_lem :
        (world : World) (s' : Server) (promise : Promise) (parsed : Parsed)
        → s'.backend ≡ some parsed.backend
        → s'.nameservers ≡ (resolvers setup world IsVisit-v4 IsVisit-v6).0
        → read_dir world ≡ ok parsed
        → Shows s' (reread promise (read_dir world) (read_resolv world))
    reread_lem world s' promise parsed stored named read = elim (Result-cases (read_resolv world)) [
      | inl (ns, found_ns) ↦
          rw (read, found_ns) (record { store = stored; upstream = rw found_ns at named })
      | inr (e, failed) ↦
          rw (read, failed) (record { store = stored; upstream = rw failed at named })
    ]

    hangup-Shows :
        (world : World) (s s' : Server) (r : AardvarkResult (Unit {0})) (promise : Promise)
        → IsWellFormed s
        → Shows s promise
        → read_config_and_spawn setup world s ≡ returned s' r
        → Shows s' (reread promise (read_dir world) (read_resolv world))
    hangup-Shows world s s' r promise w shows h =
        elim (reading setup world IsVisit-v4 IsVisit-v6 s w) [
          | unreadable e failed ends ↦
              rw failed (subst (λ x. Shows x promise) (returned-injective (sym ends ∙ h)).0 shows)
          | kept_running _ _ _ ends ↦ absurd (exit-not-returned (sym ends ∙ h))
          | stopped _ _ _ _ _ _ _ ends ↦ absurd (exit-not-returned (sym ends ∙ h))
          | spawned parsed read _ sp ends ↦
              let same = (returned-injective (sym ends ∙ h)).0 in
              reread_lem world s' promise parsed (ap (λ (x : Server). x.backend) (sym same))
                (ap (λ (x : Server). x.nameservers) (sym same)) read
        ]

    changed-Shows :
        (world : World) (s : Server) (promise : Promise)
        → Shows s promise
        → Shows (reload_nameservers setup world s) (updated promise (read_resolv world))
    unfolding reload_nameservers
    changed-Shows world s promise shows = elim (Result-cases (read_resolv world)) [
      | inl (ns, found_ns) ↦
          rw (found_ns, reload_nameservers) (record { store = shows.store; upstream = refl })
      | inr (e, failed) ↦ rw (failed, reload_nameservers) shows
    ]

    turns :
        (eager stream : Bool)
        → select_panics setup eager stream ≡ false
        → (wakes : List Wake) (s s' : Server) (promise : Promise) → Reachable setup s
        → Shows s promise
        → serve_loop setup eager stream wakes s ≡ waiting s'
        → Shows s' (foldl (promised stream) promise wakes)
    unfolding serve_loop
    turns eager stream free [] s s' promise here shows h =
        subst (λ x. Shows x promise) (waiting-injective (rw free at h)) shows
    turns eager stream free (sighup world ∷ wakes) s s' promise here shows h =
        elim (Ending-cases (read_config_and_spawn setup world s)) [
          | inl (u, r, e) ↦
              turns eager stream free wakes u s' (promised stream promise (sighup world))
                (next s u here (hangup world u r e))
                (hangup-Shows world s u r promise
                  (Reachable-IsWellFormed setup IsVisit-v4 IsVisit-v6 s here) shows e)
                (sym (loop_returned setup eager stream free world wakes s e) ∙ h)
          | inr (inl (code, u, e)) ↦
              cc (sym (loop_exit setup eager stream free world wakes s e) ∙ h)
          | inr (inr e) ↦ absurd (Reachable-no_panic setup IsVisit-v4 IsVisit-v6 s world here e)
        ]
    turns eager true free (resolv_conf world ∷ wakes) s s' promise here shows h =
        let u = reload_nameservers setup world s in
        turns eager true free wakes u s' (updated promise (read_resolv world))
          (next s u here (resolv_changed world)) (changed-Shows world s promise shows)
          (sym (loop_watched setup eager true free world wakes s refl) ∙ h)
    turns eager false free (resolv_conf world ∷ wakes) s s' promise here shows h =
        turns eager false free wakes s s' promise here shows
          (sym (loop_unwatched setup eager false free world wakes s refl) ∙ h)

    loop-Shows :
        (eager stream : Bool) (wakes : List Wake) (s s' : Server) (promise : Promise)
        → Reachable setup s
        → Shows s promise
        → serve_loop setup eager stream wakes s ≡ waiting s'
        → Shows s' (foldl (promised stream) promise wakes)
    loop-Shows eager stream wakes s s' promise here shows h =
        elim (Bool-cases (select_panics setup eager stream)) [
          | inl blocked ↦ cc (sym (loop_blocked setup eager stream wakes s blocked) ∙ h)
          | inr free ↦ turns eager stream free wakes s s' promise here shows h
        ]

    -- For any orders of the visits, a server that waits shows what was promised: its store is that
    -- of the last directory that could be read, whole, and its resolvers are those of the last
    -- reading of resolv.conf, none if that was part of a reload and failed.
    pub serve-Shows :
        (eager : Bool) (host : Host) (wakes : List Wake) (world : World) (s : Server)
        → (serve setup eager host wakes world).served ≡ waiting s
        → Shows s
            (foldl (promised (get_inotify_event_stream host).0) nothing (sighup world ∷ wakes))
    serve-Shows eager host wakes world s h =
        let (u, st) =
          serve_success setup eager host wakes (λ x. x.served ≡ waiting s) (λ e z. cc)
            (λ code v z. cc) world (λ p z. cc) h in
        loop-Shows eager (get_inotify_event_stream host).0 wakes u s
          (promised (get_inotify_event_stream host).0 nothing (sighup world))
          (started world u st.reload)
          (hangup-Shows world no_tasks u (ok tt) nothing no_tasks-IsWellFormed
            (record { store = refl; upstream = refl }) st.reload)
          (sym (ap (λ (x : Serve). x.served) (Starts-serve setup eager host wakes world u st)) ∙ h)
