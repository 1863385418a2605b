-- ===== src/Commands/Version/Tests.antt =====
-- The text of one build.
use aardvark_dns.Prelude.{◌≡◌, refl}
use aardvark_dns.Text.{codes}
use aardvark_dns.Text.Split.{split}
use aardvark_dns.Text.Join.{lacks-Lacks}
use aardvark_dns.Commands.Version.{Info, fmt_info, parts, fmt_info-parts}

abbrev some_build : Info
some_build = record {
  version = codes "1.18.0-dev";
  commit = codes "0123abcd";
  build_time = codes "1970-01-01T00:00:00+00:00";
  target = codes "x86_64-unknown-linux-gnu";
}

fmt_info-parts_example : split b'"' (fmt_info some_build) ≡ parts some_build
fmt_info-parts_example =
    fmt_info-parts some_build (lacks-Lacks b'"' some_build.version refl)
      (lacks-Lacks b'"' some_build.commit refl) (lacks-Lacks b'"' some_build.build_time refl)
      (lacks-Lacks b'"' some_build.target refl)
