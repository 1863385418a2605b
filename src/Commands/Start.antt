-- ===== src/Commands/Start.antt =====
-- src/commands/run.rs: both halves of the fork of `Run::exec` together, with the `serve` of the
-- child.
use aardvark_dns.Prelude.{ℕ, ◌≡◌, ◌↔◌, refl, Bool, List, inl, inr}
use aardvark_dns.Result.{Result, ok, err}
use aardvark_dns.Error.{AardvarkResult, IoError}
use aardvark_dns.Commands.{create_pid, parent, exec}
use aardvark_dns.Server.Reload.{Setup, World, Server}
use aardvark_dns.Server.Serve.{Host, Wake, Serve, serve}
use aardvark_dns.Server.Serve.Starts.{Starts, serve-Starts, serve_ready}

-- The bytes that the child sends: none if it gives up before `serve`.
abbrev pub sent_bytes : AardvarkResult (Unit {0}) → Serve → ℕ
sent_bytes (ok _) server = server.ready
sent_bytes (err e) server = 0

module _ (setup : Setup) (eager : Bool) (host : Host) (wakes : List Wake) (world : World) where
  received-Starts :
      (pid : AardvarkResult (Unit {0}))
      → (exec (ok tt) (parent (ok (sent_bytes pid (serve setup eager host wakes world)))) ≡ ok tt)
        ↔ ((pid ≡ ok tt) × ((s : Server) × Starts setup host world s))
  unfolding exec
  received-Starts (err e) = (λ h. cc, λ (p, st). cc)
  received-Starts (ok _) =
      let starts = serve-Starts setup eager host wakes world in
      (
        λ h. (
          refl,
          elim (serve_ready setup eager host wakes world) [
            | inl nothing ↦ cc (rw (nothing, exec) at h)
            | inr byte ↦ starts.0 byte
          ],
        ),
        λ (p, st). rw (starts.1 st, exec) refl,
      )

  -- When the pipe was made and can be read, the parent succeeds exactly when the child has written
  -- its pid file and its server has started: the first reload returned `Ok`, the process is a
  -- daemon and the byte is in the pipe.
  pub exec-Starts :
      (create write_all : Result (Unit {0}) IoError)
      → (exec (ok tt) (
            parent
              (ok (sent_bytes (create_pid create write_all) (serve setup eager host wakes world))))
          ≡ ok tt)
        ↔ ((create_pid create write_all ≡ ok tt) × ((s : Server) × Starts setup host world s))
  exec-Starts create write_all = received-Starts (create_pid create write_all)
