-- ===== src/Main/Tests.antt =====
-- A parent that succeeds, with an unknown log level.
use aardvark_dns.Prelude.{ℕ, ◌≡◌, ◌⊎◌, refl, none, some, [], ◌∷◌}
use aardvark_dns.Text.{Str, codes}
use aardvark_dns.Result.{Result, ok, err}
use aardvark_dns.Error.{IoError}
use aardvark_dns.Commands.{ForkResult, parent, exec}
use aardvark_dns.Commands.Version.{Info}
use aardvark_dns.Main.{Level, run, Opts, LogEnv, main, Finishes, EndsWell, EndsBadly, main-Finishes}

abbrev no_level : Str → Result Level Str
no_level val = err (codes "unknown")

abbrev env : LogEnv
env = record {
  rust_log = some (codes "loud");
  syslog = err (codes "none");
  set_boxed_logger = ok tt;
}

abbrev no_info : Info
no_info = record { version = []; commit = []; build_time = []; target = [] }

abbrev run_here : Opts
run_here = record {
  config = some (codes "/run");
  port = none;
  filter_search_domain = none;
  subcmd = run;
}

abbrev one_byte : Str → ℕ → Str → ForkResult
one_byte dir port domain = parent (ok 1)

abbrev made : Result (Unit {0}) IoError
made = ok tt

main-Finishes_example :
    (Finishes no_level env no_info made one_byte run_here run
      × EndsWell no_level env no_info made one_byte run
          (main no_level env no_info made one_byte run_here))
    ⊎ ((Finishes no_level env no_info made one_byte run_here run → ⊥)
        × EndsBadly no_level env no_info made one_byte run_here run
            (main no_level env no_info made one_byte run_here))
main-Finishes_example = main-Finishes no_level env no_info made one_byte run_here

warned :
    (main no_level env no_info made one_byte run_here).stderr
    ≡ codes "failed to parse RUST_LOG level: unknown" ∷ []
unfolding main exec
warned = refl
