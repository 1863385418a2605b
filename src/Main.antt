-- ===== src/Main.antt =====
-- src/main.rs: the log level, the defaults of the options, and the exit code. The parser of the
-- options and the loggers are libraries, given by their results.
mod Tests
use aardvark_dns.Prelude.{
  ℕ, ◌≡◌, ◌⊎◌, inl, inr, refl, List, [], ◌∷◌, ◌++◌, Option, none, some, Has, Has-append_right,
}
use aardvark_dns.Text.{Str, codes}
use aardvark_dns.Result.{Result, ok, err}
use aardvark_dns.Error.{AardvarkError, AardvarkResult, IoError, fmt}
use aardvark_dns.Commands.{ForkResult, exec, Succeeds, exec-Succeeds}
use aardvark_dns.Commands.Version.{Info, print_version}

-- `log::Level`
pub data Level : Type 0 where
  level_error level_warn level_info level_debug level_trace : Level

pub data SubCommand : Type 0 where
  run version : SubCommand

-- The options as they are given.
pub record Opts : Type 0 where
  pub config : Option Str
  pub port : Option ℕ
  pub filter_search_domain : Option Str
  pub subcmd : SubCommand

-- What the start finds: RUST_LOG, the connection to syslog, and whether a logger can be set.
pub record LogEnv : Type 0 where
  pub rust_log : Option Str
  pub syslog : Result (Unit {0}) Str
  pub set_boxed_logger : Result (Unit {0}) Str

-- What the process leaves.
pub record Process : Type 0 where
  pub stdout : Str
  pub stderr : List Str
  pub max_level : Option Level
  pub code : ℕ

abbrev level_or_info : Result Level Str → Level × List Str
level_or_info (ok level) = (level, [])
level_or_info (err e) = (level_info, (codes "failed to parse RUST_LOG level: " ++ e) ∷ [])

-- `from_str` is `Level::from_str`.
abbrev pub log_level : (Str → Result Level Str) → LogEnv → Level × List Str
log_level from_str env = elim env.rust_log [
  | some val ↦ level_or_info (from_str val)
  | none ↦ (level_info, [])
]

-- A system without syslog is fine; the level counts only with a logger.
abbrev pub init_logger : Level → LogEnv → Option Level × List Str
init_logger level env = elim env.syslog [
  | err e ↦ (none, [])
  | ok _ ↦ elim env.set_boxed_logger [
    | ok _ ↦ (some level, [])
    | err e ↦ (none, (codes "failed to initialize syslog logger: " ++ e) ∷ [])
  ]
]

abbrev or_else {ℓ} : {A : Type ℓ} → Option A → A → A
or_else none d = d
or_else (some a) d = a

abbrev pub dir_of : Opts → Str
dir_of opts = or_else opts.config (codes "/dev/stdin")

abbrev pub port_of : Opts → ℕ
port_of opts = or_else opts.port 5533

abbrev pub domain_of : Opts → Str
domain_of opts = or_else opts.filter_search_domain (codes ".dns.podman")

-- The pipe and the fork of `Run::exec` are those of the directory, the port and the domain.
module _ (from_str : Str → Result Level Str) (env : LogEnv) (info : Info)
    (pipe : Result (Unit {0}) IoError) (fork : Str → ℕ → Str → ForkResult) where
  abbrev run_command : Opts → SubCommand → Str × AardvarkResult (Unit {0})
  run_command opts run = ([], exec pipe (fork (dir_of opts) (port_of opts) (domain_of opts)))
  run_command opts version = (print_version info, ok tt)

  abbrev finish : Process → AardvarkResult (Unit {0}) → Process
  finish p (ok _) = p
  finish p (err e) = record p { stderr = p.stderr ++ fmt e ∷ []; code = 1 }

  -- The process before the result is known, with what the command prints.
  abbrev begun : Str → Process
  begun out =
      let (level, unparsed) = log_level from_str env in
      let (max_level, unlogged) = init_logger level env in
      record { stdout = out; stderr = unparsed ++ unlogged; max_level = max_level; code = 0 }

  abbrev process : Opts → SubCommand → Process
  process opts subcmd = let (out, result) = run_command opts subcmd in finish (begun out) result

  unfoldable pub main : Opts → Process
  unfolding exec print_version fmt
  main opts = process opts opts.subcmd

  -- What the start says on stderr, before the options are read.
  abbrev pub warnings : List Str
  warnings = let (level, unparsed) = log_level from_str env in unparsed ++ (init_logger level env).1

  -- What `run` gives with the defaults for the options that are not given.
  abbrev pub run_result : Opts → AardvarkResult (Unit {0})
  run_result opts = exec pipe (fork (dir_of opts) (port_of opts) (domain_of opts))

  -- The command does what it was started for.
  abbrev pub Finishes : Opts → SubCommand → Type 0
  Finishes opts run = (pipe ≡ ok tt) × Succeeds (fork (dir_of opts) (port_of opts) (domain_of opts))
  Finishes opts version = Unit

  -- What the command prints.
  abbrev pub output : SubCommand → Str
  output run = []
  output version = print_version info

  -- With code 0, and nothing on stderr but the warnings.
  pub record EndsWell (subcmd : SubCommand) (p : Process) : Type 0 where
    pub code : p.code ≡ 0
    pub stdout : p.stdout ≡ output subcmd
    pub stderr : p.stderr ≡ warnings

  -- With code 1, and behind the warnings the text of the error that `run` gave.
  pub record EndsBadly (opts : Opts) (subcmd : SubCommand) (p : Process) : Type 0 where
    pub is_run : subcmd ≡ run
    pub error : AardvarkError
    pub failed : run_result opts ≡ err error
    pub code : p.code ≡ 1
    pub stdout : p.stdout ≡ []
    pub stderr : p.stderr ≡ warnings ++ fmt error ∷ []

  finish-run :
      (opts : Opts) (r : AardvarkResult (Unit {0}))
      → run_result opts ≡ r
      → ((r ≡ ok tt) × EndsWell run (finish (begun []) r))
        ⊎ ((r ≡ ok tt → ⊥) × EndsBadly opts run (finish (begun []) r))
  finish-run opts (ok _) h = inl (refl, record { code = refl; stdout = refl; stderr = refl })
  finish-run opts (err e) h = inr (
    (λ x. cc),
    record { is_run = refl; error = e; failed = h; code = refl; stdout = refl; stderr = refl },
  )

  process-Finishes :
      (opts : Opts) (subcmd : SubCommand)
      → (Finishes opts subcmd × EndsWell subcmd (process opts subcmd))
        ⊎ ((Finishes opts subcmd → ⊥) × EndsBadly opts subcmd (process opts subcmd))
  process-Finishes opts version = inl (tt, record { code = refl; stdout = refl; stderr = refl })
  process-Finishes opts run =
      let half = fork (dir_of opts) (port_of opts) (domain_of opts) in
      let iff = exec-Succeeds pipe half in
      elim (finish-run opts (run_result opts) refl) [
        | inl (fine, well) ↦ inl (iff.0 fine, well)
        | inr (wrong, badly) ↦ inr ((λ s. wrong (iff.1 s)), badly)
      ]

  -- The process ends with code 0, what the command prints on stdout and only the warnings of the
  -- logger on stderr, if the command is `version`, or `run` with the defaults for the options that
  -- are not given succeeds in this half of the fork; otherwise it ends with code 1, nothing on
  -- stdout, and on stderr the warnings and the text of the error that `run` gave.
  pub main-Finishes :
      (opts : Opts)
      → (Finishes opts opts.subcmd × EndsWell opts.subcmd (main opts))
        ⊎ ((Finishes opts opts.subcmd → ⊥) × EndsBadly opts opts.subcmd (main opts))
  unfolding main
  main-Finishes opts = process-Finishes opts opts.subcmd
