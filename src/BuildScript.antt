-- ===== src/BuildScript.antt =====
-- build.rs: what the build script tells cargo. The environment and the run of git are given by
-- their results; times are those of a library, given by its two functions that the script calls.
mod Tests
use aardvark_dns.Prelude.{
  ℕ, ◌+◌, ◌^◌, ◌≡◌, refl, Bool, true, false, List, [], ◌∷◌, ◌++◌, Option, none, some, if◌then◌else◌,
  nat_beq, String,
}
use aardvark_dns.Text.{Str, codes}
use aardvark_dns.Net.Parser.{scan_digits, scan_some}

-- An `i64`: its sign and its absolute value.
pub record Integer : Type 0 where
  pub negative : Bool
  pub magnitude : ℕ

abbrev signed : Bool → Option ℕ → Option Integer
signed negative none = none
signed negative (some n) = some (record { negative = negative; magnitude = n })

-- `i64::from_str`
unfoldable pub parse_i64 : Str → Option Integer
unfolding scan_digits
parse_i64 [] = none
parse_i64 (c ∷ s) =
    if nat_beq c b'-'
    then signed true (scan_some (2 ^ 63 + 1) s)
    else signed false (scan_some (2 ^ 63) (if nat_beq c b'+' then s else c ∷ s))

-- What the script finds: the variables that are set to a text, what git prints (`none` inside for
-- bytes that are no UTF-8), and the time.
pub record BuildEnv (DateTime : Type 0) : Type 0 where
  pub source_date_epoch : Option Str
  pub target : Option Str
  pub git_output : Option (Option Str)
  pub now : DateTime

-- The lines that are printed, and whether an `unwrap` panicked behind them.
pub record Built : Type 0 where
  pub lines : List Str
  pub panicked : Bool

module _ {DateTime : Type 0} (from_timestamp : Integer → Option DateTime)
    (to_rfc3339 : DateTime → Str) where
  abbrev of_epoch : Option Integer → Option DateTime
  of_epoch none = none
  of_epoch (some seconds) = from_timestamp seconds

  -- The time of the build, none for a panic.
  abbrev pub build_time : BuildEnv DateTime → Option DateTime
  build_time env = elim env.source_date_epoch [
    | some val ↦ of_epoch (parse_i64 val)
    | none ↦ some env.now
  ]

  -- The commit: nothing if git cannot be run, `none` for a panic.
  abbrev pub commit_of : Option (Option Str) → Option Str
  commit_of none = some []
  commit_of (some stdout) = stdout

  abbrev line : String → Str → Str
  line key value = codes "cargo:rustc-env=" ++ (codes key ++ (b'=' ∷ value))

  abbrev printed_with : Option Str → List Str → Built
  printed_with none before = record { lines = before; panicked = true }
  printed_with (some commit) before = record {
    lines = before ++ line "GIT_COMMIT" commit ∷ [];
    panicked = false;
  }

  abbrev with_target : BuildEnv DateTime → Option Str → List Str → Built
  with_target env none before = record { lines = before; panicked = true }
  with_target env (some target) before =
      printed_with (commit_of env.git_output) (before ++ line "BUILD_TARGET" target ∷ [])

  abbrev with_time : BuildEnv DateTime → Option DateTime → List Str → Built
  with_time env none before = record { lines = before; panicked = true }
  with_time env (some time) before =
      with_target env env.target (before ++ line "BUILD_TIMESTAMP" (to_rfc3339 time) ∷ [])

  unfoldable pub build : BuildEnv DateTime → Built
  unfolding parse_i64
  build env = with_time env (build_time env) (codes "cargo:rerun-if-changed=build.rs" ∷ [])

  -- With SOURCE_DATE_EPOCH the output does not depend on the clock.
  pub build_reproducible :
      (env : BuildEnv DateTime) (val : Str) (later : DateTime)
      → env.source_date_epoch ≡ some val
      → build (record env { now = later }) ≡ build env
  unfolding build
  build_reproducible env val later set = rw (set, build) refl
