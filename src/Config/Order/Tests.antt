-- ===== src/Config/Order/Tests.antt =====
-- The sample directory in another order.
use aardvark_dns.Prelude.{
  Has-append_left, Has-append_right, Has-append_split, ◌++◌, ◌≡◌, ◌↔◌, inl, inr, Has, refl, List,
  [], ◌∷◌,
}
use aardvark_dns.Text.{codes, strip_suffix, ends_with}
use aardvark_dns.Text.Split.{split}
use aardvark_dns.Text.Case.{to_lowercase}
use aardvark_dns.HashMap.{get, insert, entry_or}
use aardvark_dns.Net.Parser.{parse_ip, parse_ipv4, parse_ipv6}
use aardvark_dns.Config.File.{
  parse_config, parse_network, parse_entry, parse_line, parse_lines, parse_column, parse_dns,
  collect,
}
use aardvark_dns.Result.{ok, ok_or}
use aardvark_dns.Error.{AardvarkResult}
use aardvark_dns.Net.Addr.{ip_eq, v4}
use aardvark_dns.Backend.{new, lookup}
use aardvark_dns.Config.Directory.{FileSystem, Parsed, parse_configs}
use aardvark_dns.Config.Samples.{sample_fs, entries}
use aardvark_dns.Config.Order.{SameItems, answer_set, lookup-reordered}
use aardvark_dns.Config.Samples.Run.{
  unicode_id, visit, sample_parsed, parse_configs_run, visit-VisitsAll,
}

-- The first item goes to the end.
abbrev rotate : {A : Type 0} → List A → List A
rotate [] = []
rotate (x ∷ xs) = xs ++ x ∷ []

Has-rotate : {A : Type 0} (a : A) (xs : List A) → Has a (rotate xs) ↔ Has a xs
Has-rotate a [] = (λ h. h, λ h. h)
Has-rotate a (x ∷ xs) = (
  λ h. elim (Has-append_split a xs (x ∷ []) h) [
    | inl m ↦ inr m
    | inr (inl e) ↦ inl e
    | inr (inr z) ↦ absurd z
  ],
  λ h. elim h [
    | inl e ↦ Has-append_right a xs (x ∷ []) (inl e)
    | inr m ↦ Has-append_left a xs (x ∷ []) m
  ],
)

entries-SameItems : SameItems entries (rotate entries)
entries-SameItems a = ((Has-rotate a entries).1, (Has-rotate a entries).0)

abbrev rotated_fs : FileSystem
rotated_fs = record sample_fs { read_dir = λ dir. ok (rotate entries) }

unfoldable rotated_outcome : AardvarkResult Parsed
unfolding parse_configs parse_config parse_network parse_entry parse_line parse_lines parse_column
    parse_dns collect parse_ip parse_ipv4 parse_ipv6 split to_lowercase get insert entry_or
    strip_suffix ends_with new
rotated_outcome = parse_configs unicode_id rotate (codes "dns.podman") rotated_fs (codes "/run")

unfoldable rotated_parsed : Parsed
unfolding rotated_outcome sample_parsed
rotated_parsed = ok_or sample_parsed rotated_outcome

rotated_run :
    parse_configs unicode_id rotate (codes "dns.podman") rotated_fs (codes "/run")
    ≡ ok rotated_parsed
unfolding rotated_outcome rotated_parsed
rotated_run = refl

lookup-reordered_example :
    answer_set
      (lookup unicode_id sample_parsed.backend (v4 0x0a580003) (codes "podman") (codes "ab"))
    ≡ answer_set
        (lookup unicode_id rotated_parsed.backend (v4 0x0a580003) (codes "podman") (codes "ab"))
lookup-reordered_example =
    lookup-reordered unicode_id (codes "dns.podman") (codes "/run") sample_fs rotated_fs visit
      rotate sample_parsed rotated_parsed entries (rotate entries) visit-VisitsAll
      (λ m e. Has-rotate e m) refl refl parse_configs_run rotated_run entries-SameItems refl
      (v4 0x0a580003) (codes "podman") (codes "ab")
