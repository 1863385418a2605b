-- ===== src/Server/Serve/Starts.antt =====
-- When `serve` tells its parent that it is ready.
use aardvark_dns.Prelude.{ℕ, ◌≡◌, ◌↔◌, ◌⊎◌, refl, ap, Bool, List, inl, inr}
use aardvark_dns.Result.{ok, err, Result-cases}
use aardvark_dns.Error.{AardvarkError, io_error}
use aardvark_dns.Server.Reload.{
  Setup, World, Server, Ending, returned, exit, panic, read_config_and_spawn,
}
use aardvark_dns.Server.Reload.Steps.{no_tasks}
use aardvark_dns.Server.Serve.{
  Host, Wake, Served, failed, exited, panicked, Serve, get_inotify_event_stream, serve_loop,
  announce, first_reload, serve,
}

-- Every step of the start succeeds, and the first reload leaves the state `s`.
pub record Starts (setup : Setup) (host : Host) (world : World) (s : Server) : Type 0 where
  pub signal : host.signal ≡ ok tt
  pub reload : read_config_and_spawn setup world no_tasks ≡ returned s (ok tt)
  pub dev_null : host.open_dev_null ≡ ok tt
  pub write : host.write_ready ≡ ok tt

abbrev pub at_failure : Served → Serve
at_failure served = record { ready = 0; served = served }

module _ (setup : Setup) (eager : Bool) (host : Host) (wakes : List Wake) where
  pub Starts-serve :
      (world : World) (s : Server)
      → Starts setup host world s
      → serve setup eager host wakes world ≡ record {
        ready = 1;
        served = serve_loop setup eager (get_inotify_event_stream host).0 wakes s;
      }
  unfolding serve
  Starts-serve world s st = rw (st.signal, st.reload, st.dev_null, st.write, serve) refl

  -- What is said of no failure of the start is said of a server that starts.
  module _ (P : Serve → Type 0) (no_error : (e : AardvarkError) → P (at_failure (failed e)) → ⊥)
      (no_exit : (code : ℕ) (s : Server) → P (at_failure (exited code s)) → ⊥) where
    announce_success :
        (s : Server)
        → P (announce setup eager host wakes s)
        → (host.open_dev_null ≡ ok tt) × (host.write_ready ≡ ok tt)
    announce_success s h = elim (Result-cases host.open_dev_null) [
      | inr (e, wrong) ↦ absurd (no_error _ (rw wrong at h))
      | inl (_, opened) ↦ elim (Result-cases host.write_ready) [
        | inr (e, wrong) ↦ absurd (no_error _ (rw (opened, wrong) at h))
        | inl (_, written) ↦ (opened, written)
      ]
    ]

    first_reload_success :
        (ending : Ending)
        → (ending ≡ panic → P (at_failure panicked) → ⊥)
        → P (first_reload setup eager host wakes ending)
        → (s : Server) × (ending ≡ returned s (ok tt))
          × (host.open_dev_null ≡ ok tt)
          × (host.write_ready ≡ ok tt)
    first_reload_success (returned s (err e)) no_panic h = absurd (no_error e h)
    first_reload_success (returned s (ok _)) no_panic h =
        let (opened, written) = announce_success s h in (s, refl, opened, written)
    first_reload_success (exit code s) no_panic h = absurd (no_exit code s h)
    first_reload_success panic no_panic h = absurd (no_panic refl h)

    pub serve_success :
        (world : World)
        → (read_config_and_spawn setup world no_tasks ≡ panic → P (at_failure panicked) → ⊥)
        → P (serve setup eager host wakes world)
        → (s : Server) × Starts setup host world s
    unfolding serve
    serve_success world no_panic h = elim (Result-cases host.signal) [
      | inr (e, wrong) ↦ absurd (no_error (io_error e) (rw (wrong, serve) at h))
      | inl (_, signal) ↦
          let (s, reload, opened, written) =
            first_reload_success (read_config_and_spawn setup world no_tasks) no_panic
              (rw (signal, serve) at h) in
          (s, record { signal = signal; reload = reload; dev_null = opened; write = written })
    ]

  announce_ready :
      (s : Server)
      → ((announce setup eager host wakes s).ready ≡ 0)
        ⊎ ((announce setup eager host wakes s).ready ≡ 1)
  announce_ready s = elim (Result-cases host.open_dev_null) [
    | inr (e, wrong) ↦ rw wrong (inl refl)
    | inl (_, opened) ↦ elim (Result-cases host.write_ready) [
      | inr (e, wrong) ↦ rw (opened, wrong) (inl refl)
      | inl (_, written) ↦ rw (opened, written) (inr refl)
    ]
  ]

  first_reload_ready :
      (ending : Ending)
      → ((first_reload setup eager host wakes ending).ready ≡ 0)
        ⊎ ((first_reload setup eager host wakes ending).ready ≡ 1)
  first_reload_ready (returned s (err e)) = inl refl
  first_reload_ready (returned s (ok _)) = announce_ready s
  first_reload_ready (exit code s) = inl refl
  first_reload_ready panic = inl refl

  -- There is at most one byte.
  pub serve_ready :
      (world : World)
      → ((serve setup eager host wakes world).ready ≡ 0)
        ⊎ ((serve setup eager host wakes world).ready ≡ 1)
  unfolding serve
  serve_ready world = elim (Result-cases host.signal) [
    | inr (e, wrong) ↦ rw (wrong, serve) (inl refl)
    | inl (_, signal) ↦
        rw (signal, serve) (first_reload_ready (read_config_and_spawn setup world no_tasks))
  ]

  -- The parent gets its byte exactly when the handler for SIGHUP was set up, the first reload
  -- returned `Ok`, /dev/null could be opened and the byte could be written.
  pub serve-Starts :
      (world : World)
      → ((serve setup eager host wakes world).ready ≡ 1)
        ↔ ((s : Server) × Starts setup host world s)
  serve-Starts world = (
    λ h. serve_success (λ x. x.ready ≡ 1) (λ e z. cc) (λ code s z. cc) world (λ _ z. cc) h,
    λ (s, st). ap (λ (x : Serve). x.ready) (Starts-serve world s st),
  )
