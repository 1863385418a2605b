-- ===== src/Commands/Version.antt =====
-- src/commands/version.rs: the JSON text that the version command prints. The values of `env!` are
-- an argument.
mod Tests
use aardvark_dns.Prelude.{String, All, ◌≡◌, refl, true, sym, ◌∙◌, ap, List, [], ◌∷◌, ◌++◌, arith}
use aardvark_dns.Text.{Str, codes}
use aardvark_dns.Text.Split.{split, join}
use aardvark_dns.Text.Join.{Lacks, lacks, lacks-Lacks, split-join}

pub record Info : Type 0 where
  pub version : Str
  pub commit : Str
  pub build_time : Str
  pub target : Str

-- `Display` of `Info`.
unfoldable pub fmt_info : Info → Str
fmt_info info =
    codes "{\n  \"version\": \""
    ++ (info.version
        ++ (codes "\",\n  \"commit\": \""
            ++ (info.commit
                ++ (codes "\",\n  \"build_time\": \""
                    ++ (info.build_time
                        ++ (codes "\",\n  \"target\": \"" ++ (info.target ++ codes "\"\n}")))))))

-- `Version::exec`: what is printed.
unfoldable pub print_version : Info → Str
unfolding fmt_info
print_version info = fmt_info info ++ codes "\n"

-- The parts between the quotes: the name of each member, its value, and what stands between them.
abbrev parts_of : Str → List (String × Str) → List Str
parts_of separator [] = codes "\n}" ∷ []
parts_of separator ((key, value) ∷ rest) =
    separator ∷ codes key ∷ codes ": " ∷ value ∷ parts_of (codes ",\n  ") rest

abbrev members : Info → List (String × Str)
members info =
    ("version", info.version)
    ∷ ("commit", info.commit)
    ∷ ("build_time", info.build_time)
    ∷ ("target", info.target)
    ∷ []

abbrev pub parts : Info → List Str
parts info = parts_of (codes "{\n  ") (members info)

fmt_info-join : (info : Info) → fmt_info info ≡ join (b'"' ∷ []) (parts info)
unfolding fmt_info join
fmt_info-join info = refl

literal : (s : String) → lacks b'"' (codes s) ≡ true → Lacks b'"' (codes s)
literal s = lacks-Lacks b'"' (codes s)

parts_of-Lacks :
    (separator : Str) (members : List (String × Str))
    → Lacks b'"' separator
    → All (λ (m : String × Str). (lacks b'"' (codes m.0) ≡ true) × Lacks b'"' m.1) members
    → All (Lacks b'"') (parts_of separator members)
parts_of-Lacks separator [] s h = (literal "\n}" refl, tt)
parts_of-Lacks separator ((key, value) ∷ rest) s ((k, v), h) = (
  s,
  (
    literal key k,
    (literal ": " refl, (v, parts_of-Lacks (codes ",\n  ") rest (literal ",\n  " refl) h)),
  ),
)

-- If no value holds a quote, the text cut at its quotes gives the names of the four members of the
-- object, each before its value, with the punctuation of JSON between them.
pub fmt_info-parts :
    (info : Info)
    → Lacks b'"' info.version
    → Lacks b'"' info.commit
    → Lacks b'"' info.build_time
    → Lacks b'"' info.target
    → split b'"' (fmt_info info) ≡ parts info
fmt_info-parts info v c b t =
    ap (split b'"') (fmt_info-join info)
    ∙ split-join b'"' (parts info) (cc) (
        parts_of-Lacks (codes "{\n  ") (members info) (literal "{\n  " refl)
          ((refl, v), ((refl, c), ((refl, b), ((refl, t), tt)))))
