-- ===== src/BuildScript/Tests.antt =====
-- Numbers at the bounds of `i64`, and a build with a fixed time.
use aardvark_dns.Prelude.{◌≡◌, refl, none, some, true, false, [], ◌∷◌, ◌^◌}
use aardvark_dns.Text.{codes, Str}
use aardvark_dns.BuildScript.{parse_i64, BuildEnv, build}

at_bounds :
    (parse_i64 (codes "-9223372036854775808")
      ≡ some (record { negative = true; magnitude = 2 ^ 63 }))
    × (parse_i64 (codes "9223372036854775808") ≡ none)
    × (parse_i64 (codes "+12") ≡ some (record { negative = false; magnitude = 12 }))
    × (parse_i64 (codes "-") ≡ none)
unfolding parse_i64
at_bounds = (refl, refl, refl, refl)

-- A time is its text.
abbrev fixed : BuildEnv Str
fixed = record {
  source_date_epoch = some (codes "0");
  target = some (codes "x86_64");
  git_output = none;
  now = codes "today";
}

build-fixed : build (λ n. some (codes "1970")) (λ t. t) fixed ≡ record {
  lines =
      codes "cargo:rerun-if-changed=build.rs"
      ∷ codes "cargo:rustc-env=BUILD_TIMESTAMP=1970"
      ∷ codes "cargo:rustc-env=BUILD_TARGET=x86_64"
      ∷ codes "cargo:rustc-env=GIT_COMMIT="
      ∷ [];
  panicked = false;
}
unfolding build parse_i64
build-fixed = refl
