-- ===== src/Server/Serve/Loop.antt =====
-- Where the loop of `serve` can be: in reachable states, and in no panic but that of its `select!`.
use aardvark_dns.Prelude.{
  ◌&&◌, ℕ, ◌≡◌, ◌↔◌, ◌⊎◌, refl, sym, ap, ◌∙◌, subst, Bool, true, false, List, [], ◌∷◌, inl, inr,
  Bool-cases,
}
use aardvark_dns.Result.{ok, Result-cases}
use aardvark_dns.Error.{AardvarkResult}
use aardvark_dns.Server.Threads.Outcome.{IsVisit}
use aardvark_dns.Server.Reload.{
  Setup, World, Server, Ending, returned, exit, panic, read_config_and_spawn, reload_nameservers,
}
use aardvark_dns.Server.Reload.Success.{read_config_and_spawn-IsWellFormed, Kept}
use aardvark_dns.Server.Reload.Steps.{
  no_tasks, no_tasks-IsWellFormed, Reachable, started, next, hangup, resolv_changed,
  Reachable-no_panic,
}
use aardvark_dns.Server.Serve.{
  Host, Wake, sighup, resolv_conf, Served, failed, exited, panicked, waiting, Serve,
  get_inotify_event_stream, select_panics, serve_loop, serve,
}
use aardvark_dns.Server.Serve.Starts.{Starts, Starts-serve, serve_success}

pub Ending-cases :
    (ending : Ending)
    → ((s : Server) × (r : AardvarkResult (Unit {0})) × (ending ≡ returned s r))
      ⊎ (((code : ℕ) × (s : Server) × (ending ≡ exit code s)) ⊎ (ending ≡ panic))
Ending-cases (returned s r) = inl (s, r, refl)
Ending-cases (exit code s) = inr (inl (code, s, refl))
Ending-cases panic = inr (inr refl)

module _ (setup : Setup) (eager stream : Bool) where
  -- One turn of the loop, on each branch.
  pub loop_blocked :
      (wakes : List Wake) (s : Server)
      → select_panics setup eager stream ≡ true
      → serve_loop setup eager stream wakes s ≡ panicked
  unfolding serve_loop
  loop_blocked [] s blocked = rw blocked refl
  loop_blocked (sighup world ∷ wakes) s blocked = rw blocked refl
  loop_blocked (resolv_conf world ∷ wakes) s blocked = rw blocked refl

  module _ (free : select_panics setup eager stream ≡ false) (world : World) (wakes : List Wake)
      (s : Server) where
    pub loop_returned :
        {s' : Server} {r : AardvarkResult (Unit {0})}
        → read_config_and_spawn setup world s ≡ returned s' r
        → serve_loop setup eager stream (sighup world ∷ wakes) s
          ≡ serve_loop setup eager stream wakes s'
    unfolding serve_loop
    loop_returned h = rw (free, h, serve_loop) refl

    pub loop_exit :
        {code : ℕ} {s' : Server}
        → read_config_and_spawn setup world s ≡ exit code s'
        → serve_loop setup eager stream (sighup world ∷ wakes) s ≡ exited code s'
    unfolding serve_loop
    loop_exit h = rw (free, h, serve_loop) refl

    pub loop_watched :
        stream ≡ true
        → serve_loop setup eager stream (resolv_conf world ∷ wakes) s
          ≡ serve_loop setup eager stream wakes (reload_nameservers setup world s)
    unfolding serve_loop
    loop_watched watched = rw (free, watched, serve_loop) refl

    pub loop_unwatched :
        stream ≡ false
        → serve_loop setup eager stream (resolv_conf world ∷ wakes) s
          ≡ serve_loop setup eager stream wakes s
    unfolding serve_loop
    loop_unwatched unwatched = rw (free, unwatched, serve_loop) refl

-- Where a server can be that has started: it waits in a reachable state, or a reload in a reachable
-- state has ended the process. It never returns.
module _ (setup : Setup) where
  abbrev pub Goes : Served → Type 0
  Goes (failed e) = ⊥
  Goes (exited code s') =
      (s : Server) × Reachable setup s
      × (world : World) × (read_config_and_spawn setup world s ≡ exit code s')
  Goes panicked = ⊥
  Goes (waiting s) = Reachable setup s

-- The three steps to a stream of changes of resolv.conf succeed.
abbrev pub HasStream : Host → Type 0
HasStream host =
    (host.inotify_init ≡ ok tt) × (host.add_watch ≡ ok tt) × (host.into_event_stream ≡ ok tt)

get_inotify_event_stream_iff :
    (host : Host) → ((get_inotify_event_stream host).0 ≡ true) ↔ HasStream host
unfolding get_inotify_event_stream
get_inotify_event_stream_iff host = elim (Result-cases host.inotify_init) [
  | inr (e, wrong) ↦ rw (wrong, get_inotify_event_stream) (λ h. cc, λ (i, w, s). cc)
  | inl (_, init) ↦ elim (Result-cases host.add_watch) [
    | inr (e, wrong) ↦ rw (init, wrong, get_inotify_event_stream) (λ h. cc, λ (i, w, s). cc)
    | inl (_, watch) ↦ elim (Result-cases host.into_event_stream) [
      | inr (e, wrong) ↦
          rw (init, watch, wrong, get_inotify_event_stream) (λ h. cc, λ (i, w, s). cc)
      | inl (_, stream) ↦
          rw (init, watch, stream, get_inotify_event_stream) (λ h. (refl, refl, refl), λ h. refl)
    ]
  ]
]

select_panics_iff :
    (setup : Setup) (eager stream : Bool)
    → (select_panics setup eager stream ≡ true) ↔ ((eager ≡ true) × (stream ≡ false))
select_panics_iff setup true true = (λ h. cc, λ (e, s). cc)
select_panics_iff setup true false = (λ h. (refl, refl), λ h. refl)
select_panics_iff setup false stream = (λ h. cc, λ (e, s). cc)

module _ (setup : Setup) (IsVisit-v4 : IsVisit setup.visit_v4)
    (IsVisit-v6 : IsVisit setup.visit_v6) where
  loop-Goes :
      (eager stream : Bool)
      → select_panics setup eager stream ≡ false
      → (wakes : List Wake) (s : Server) → Reachable setup s
      → Goes setup (serve_loop setup eager stream wakes s)
  unfolding serve_loop
  loop-Goes eager stream free [] s here = rw free here
  loop-Goes eager stream free (sighup world ∷ wakes) s here =
      elim (Ending-cases (read_config_and_spawn setup world s)) [
        | inl (s', r, h) ↦
            rw (loop_returned setup eager stream free world wakes s h)
              (loop-Goes eager stream free wakes s' (next s s' here (hangup world s' r h)))
        | inr (inl (code, s', h)) ↦
            rw (loop_exit setup eager stream free world wakes s h) (s, here, world, h)
        | inr (inr h) ↦ absurd (Reachable-no_panic setup IsVisit-v4 IsVisit-v6 s world here h)
      ]
  loop-Goes eager stream free (resolv_conf world ∷ wakes) s here = elim (Bool-cases stream) [
    | inl watched ↦
        let s' = reload_nameservers setup world s in
        rw (loop_watched setup eager stream free world wakes s watched)
          (loop-Goes eager stream free wakes s' (next s s' here (resolv_changed world)))
    | inr unwatched ↦
        rw (loop_unwatched setup eager stream free world wakes s unwatched)
          (loop-Goes eager stream free wakes s here)
  ]

  module _ (eager : Bool) (host : Host) (wakes : List Wake) (world : World) where
    free_lem :
        (eager ≡ false) ⊎ HasStream host
        → select_panics setup eager (get_inotify_event_stream host).0 ≡ false
    free_lem (inl lazy) = rw lazy refl
    free_lem (inr streams) = rw ((get_inotify_event_stream_iff host).1 streams) (never eager)
      where
        never : (b : Bool) → (b && false) ≡ false
        never true = refl
        never false = refl

    -- If `select!` does not evaluate disabled arms, or there is a stream of changes of resolv.conf,
    -- a server that has started never returns and does not panic: after whatever it has waited for
    -- it waits again in a reachable state, or a reload in a reachable state has ended the process.
    pub serve-Goes :
        (s : Server)
        → Starts setup host world s
        → (eager ≡ false) ⊎ HasStream host
        → Goes setup (serve setup eager host wakes world).served
    serve-Goes s st safe =
        subst (λ (x : Serve). Goes setup x.served)
          (sym (Starts-serve setup eager host wakes world s st))
          (loop-Goes eager (get_inotify_event_stream host).0 (free_lem safe) wakes s
            (started world s st.reload))

    -- A server panics exactly when it has started, its `select!` evaluates disabled arms, and there
    -- is no stream of changes of resolv.conf.
    pub serve-panics :
        ((serve setup eager host wakes world).served ≡ panicked)
        ↔ (((s : Server) × Starts setup host world s) × (eager ≡ true) × (HasStream host → ⊥))
    serve-panics = (
      λ h.
          let (s, st) =
            serve_success setup eager host wakes (λ x. x.served ≡ panicked) (λ e z. cc)
              (λ code s z. cc) world (λ p _. no_first_panic p) h in
          elim (Bool-cases (select_panics setup eager (get_inotify_event_stream host).0)) [
            | inr free ↦ absurd (went s st free h)
            | inl blocked ↦
                let (evaluated, missing) =
                  (select_panics_iff setup eager (get_inotify_event_stream host).0).0 blocked in
                (
                  (s, st),
                  evaluated,
                  λ streams. cc ((get_inotify_event_stream_iff host).1 streams, missing),
                )
          ],
      λ ((s, st), evaluated, streamless).
          ap (λ (x : Serve). x.served) (Starts-serve setup eager host wakes world s st)
          ∙ loop_blocked setup eager (get_inotify_event_stream host).0 wakes s (
              (select_panics_iff setup eager (get_inotify_event_stream host).0).1
                (evaluated, lacks streamless)),
    )
      where
        went :
            (s : Server)
            → Starts setup host world s
            → select_panics setup eager (get_inotify_event_stream host).0 ≡ false
            → (serve setup eager host wakes world).served ≡ panicked
            → ⊥
        went s st free h =
            subst (Goes setup)
              (sym (ap (λ (x : Serve). x.served) (Starts-serve setup eager host wakes world s st))
                ∙ h)
              (loop-Goes eager (get_inotify_event_stream host).0 free wakes s
                (started world s st.reload))

        lacks : (HasStream host → ⊥) → (get_inotify_event_stream host).0 ≡ false
        lacks streamless = elim (Bool-cases (get_inotify_event_stream host).0) [
          | inl there ↦ absurd (streamless ((get_inotify_event_stream_iff host).0 there))
          | inr missing ↦ missing
        ]

        no_first_panic : read_config_and_spawn setup world no_tasks ≡ panic → ⊥
        no_first_panic h = subst (Kept setup world IsVisit-v4 IsVisit-v6) h (
            read_config_and_spawn-IsWellFormed setup world IsVisit-v4 IsVisit-v6 no_tasks
              no_tasks-IsWellFormed)
