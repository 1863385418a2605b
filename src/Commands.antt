-- ===== src/Commands.antt =====
-- src/commands/run.rs, `Run::exec`, and `create_pid` of src/server/serve.rs: what both halves of the
-- fork report. The system's calls and the run of `serve` are given by their results, an error of
-- nix as the I/O error that `From<nix::Error>` turns it into.
pub mod Start
pub mod Version
mod Tests
use aardvark_dns.Prelude.{ℕ, zero, suc, ◌≡◌, ◌≢◌, ◌↔◌, ◌⊎◌, inl, inr, refl, ◌++◌}
use aardvark_dns.Text.{Str, codes}
use aardvark_dns.Result.{Result, ok, err, ◌>>=◌}
use aardvark_dns.Error.{AardvarkError, AardvarkResult, message, IoError, from_io, fmt}

-- The pid file is created, then written.
unfoldable pub create_pid :
    Result (Unit {0}) IoError → Result (Unit {0}) IoError → AardvarkResult (Unit {0})
create_pid (err e) write_all = err (message (codes "Unable to get process pid: " ++ e.text))
create_pid (ok _) (err e) = err (message (codes "Unable to write pid to file: " ++ e.text))
create_pid (ok _) (ok _) = ok tt

-- What `fork` gives: to the parent the number of bytes that it reads from the child, to the child
-- how the pid file and the server turn out.
pub data ForkResult : Type 0 where
  parent : Result ℕ IoError → ForkResult
  child :
      Result (Unit {0}) IoError → Result (Unit {0}) IoError → AardvarkResult (Unit {0}) → ForkResult
  failed : Str → ForkResult

abbrev pub received : ℕ → AardvarkResult (Unit {0})
received zero = err (message (codes "Error from child process"))
received (suc n) = ok tt

abbrev started : AardvarkResult (Unit {0}) → AardvarkResult (Unit {0})
started (ok _) = ok tt
started (err er) = err (message (codes "Error starting server " ++ fmt er))

abbrev with_pid : AardvarkResult (Unit {0}) → AardvarkResult (Unit {0}) → AardvarkResult (Unit {0})
with_pid (err er) serve = err (message (codes "Error creating aardvark pid " ++ fmt er))
with_pid (ok _) serve = started serve

unfoldable pub exec : Result (Unit {0}) IoError → ForkResult → AardvarkResult (Unit {0})
unfolding create_pid
exec (err e) fork = from_io (err e)
exec (ok _) (parent read) = do i ← from_io read; received i
exec (ok _) (child create write_all serve) = with_pid (create_pid create write_all) serve
exec (ok _) (failed why) = err (message (codes "fork failed with error: " ++ why))

-- The half of the fork has done its part.
abbrev pub Succeeds : ForkResult → Type 0
Succeeds (parent read) = (n : ℕ) × (read ≡ ok (suc n))
Succeeds (child create write_all serve) = (create ≡ ok tt) × ((write_all ≡ ok tt) × (serve ≡ ok tt))
Succeeds (failed why) = ⊥

-- The command succeeds exactly when the pipe was made and, in the parent, the child sent a byte
-- before it closed the pipe; in the child, the pid file was written and the server returned `Ok`.
pub exec-Succeeds :
    (pipe : Result (Unit {0}) IoError) (fork : ForkResult)
    → (exec pipe fork ≡ ok tt) ↔ ((pipe ≡ ok tt) × Succeeds fork)
unfolding exec create_pid
exec-Succeeds (err e) fork = (λ h. cc, λ (p, s). cc)
exec-Succeeds (ok _) (parent (err e)) = (λ h. cc, λ (p, (n, s)). cc)
exec-Succeeds (ok _) (parent (ok zero)) = (λ h. cc, λ (p, (n, s)). cc)
exec-Succeeds (ok _) (parent (ok (suc n))) = (λ h. (refl, (n, refl)), λ (p, s). refl)
exec-Succeeds (ok _) (child (err e) write_all serve) = (λ h. cc, λ (p, (c, (w, s))). cc)
exec-Succeeds (ok _) (child (ok _) (err e) serve) = (λ h. cc, λ (p, (c, (w, s))). cc)
exec-Succeeds (ok _) (child (ok _) (ok _) (err e)) = (λ h. cc, λ (p, (c, (w, s))). cc)
exec-Succeeds (ok _) (child (ok _) (ok _) (ok _)) =
    (λ h. (refl, (refl, (refl, refl))), λ (p, s). refl)
exec-Succeeds (ok _) (failed why) = (λ h. cc, λ (p, s). absurd s)
