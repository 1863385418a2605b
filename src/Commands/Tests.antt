-- ===== src/Commands/Tests.antt =====
-- A parent that reads one byte.
use aardvark_dns.Prelude.{◌≡◌, ◌↔◌, true, []}
use aardvark_dns.Result.{Result, ok}
use aardvark_dns.Error.{IoError}
use aardvark_dns.Commands.{parent, create_pid, exec}
use aardvark_dns.Commands.Start.{sent_bytes, exec-Starts}
use aardvark_dns.Server.Samples.{setup, world, host}
use aardvark_dns.Server.Reload.{Server}
use aardvark_dns.Server.Serve.{serve}
use aardvark_dns.Server.Serve.Starts.{Starts}

abbrev made : Result (Unit {0}) IoError
made = ok tt

exec-Starts_example :
    (exec
        (ok tt)
        (parent (ok (sent_bytes (create_pid (ok tt) (ok tt)) (serve setup true host [] world))))
      ≡ ok tt)
    ↔ ((create_pid (ok tt) (ok tt) ≡ ok tt) × ((s : Server) × Starts setup host world s))
exec-Starts_example = exec-Starts setup true host [] world (ok tt) (ok tt)
