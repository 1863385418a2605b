-- ===== src/Backend/Tests.antt =====
-- A backend with two networks, and the theorems at concrete inputs.
use aardvark_dns.Prelude.{◌≡◌, ◌↔◌, refl, ◌∷◌, [], List, none, some, true, false, map, Has}
use aardvark_dns.Text.{Str, str_eq, codes, ends_with}
use aardvark_dns.Text.Case.{is_ascii, to_lowercase}
use aardvark_dns.Text.Lower.{ascii_upper, HasNoDot}
use aardvark_dns.HashMap.{get, found}
use aardvark_dns.Net.Addr.{IpAddr, v4, ip_eq}
use aardvark_dns.Backend.{DnsBackend, lookup, lookup_key, reverse_lookup, trim_end}
use aardvark_dns.Backend.Key.{lookup_key-forms}
use aardvark_dns.Backend.Answers.{
  visible_nets, Resolves, lookup-Resolves, lookup-none, lookup-ascii_upper,
}
use aardvark_dns.Backend.Reverse.{First, reverse_lookup-First}

abbrev same_text : Str → Str
same_text s = s

-- The container with address 2 is in two networks, of which the second is internal.
abbrev two_networks : DnsBackend
two_networks = record {
  ip_mappings = (v4 2, codes "a" ∷ codes "b" ∷ []) ∷ (v4 3, codes "b" ∷ []) ∷ [];
  name_mappings =
      (codes "a", (codes "web", v4 2 ∷ []) ∷ [])
      ∷ (codes "b", (codes "db", v4 3 ∷ []) ∷ (codes "web", v4 4 ∷ []) ∷ [])
      ∷ [];
  reverse_mappings = (codes "b", (v4 3, codes "db" ∷ []) ∷ []) ∷ [];
  ctr_dns_server = [];
  network_dns_server = (codes "a", v4 8 ∷ []) ∷ (codes "b", v4 9 ∷ []) ∷ [];
  network_is_internal = (codes "a", false) ∷ (codes "b", true) ∷ [];
  search_domain = codes ".dns.podman.";
}

-- Both networks of the requester give an address.
web_answers :
    lookup same_text two_networks (v4 2) (codes "b") (codes "Web.dns.podman.")
    ≡ some (v4 2 ∷ v4 4 ∷ [])
unfolding lookup lookup_key trim_end to_lowercase get ends_with
web_answers = refl

lookup-Resolves_example :
    Has (v4 4) (found (lookup same_text two_networks (v4 2) (codes "b") (codes "web")))
    ↔ Resolves two_networks
        (visible_nets two_networks (codes "b") (v4 2))
        (lookup_key same_text two_networks.search_domain (codes "web"))
        (v4 4)
lookup-Resolves_example =
    lookup-Resolves same_text two_networks (v4 2) (codes "b") (codes "web") (v4 4)

lookup-none_example : (lookup same_text two_networks (v4 3) (codes "a") (codes "mail") ≡ none) ↔ (
    (ip : IpAddr)
    → ¬ Resolves two_networks
        (visible_nets two_networks (codes "a") (v4 3))
        (lookup_key same_text two_networks.search_domain (codes "mail"))
        ip)
lookup-none_example = lookup-none same_text two_networks (v4 3) (codes "a") (codes "mail")

lookup-ascii_upper_example :
    lookup same_text two_networks (v4 2) (codes "b") (map ascii_upper (codes "db"))
    ≡ lookup same_text two_networks (v4 2) (codes "b") (codes "db")
unfolding is_ascii
lookup-ascii_upper_example =
    lookup-ascii_upper same_text two_networks (v4 2) (codes "b") (codes "db") refl

db-HasNoDot : HasNoDot (codes "db")
db-HasNoDot = ((λ h. cc), ((λ h. cc), tt))

lookup_key-forms_example :
    (lookup_key same_text (codes ".dns.podman.") (codes "db") ≡ codes "db")
    × (lookup_key same_text (codes ".dns.podman.") (codes "db.") ≡ codes "db")
    × (lookup_key same_text (codes ".dns.podman.") (codes "db.dns.podman.") ≡ codes "db")
unfolding is_ascii
lookup_key-forms_example =
    lookup_key-forms same_text (codes "db") (codes "dns.podman.") refl db-HasNoDot refl refl

db_found : reverse_lookup two_networks (v4 2) (v4 3) ≡ some (codes "db" ∷ [])
unfolding reverse_lookup get
db_found = refl

reverse_lookup-First_example :
    (nets : List Str) × (get two_networks.ip_mappings (v4 2) ≡ some nets)
    × First two_networks (v4 3) nets (codes "db" ∷ [])
reverse_lookup-First_example = reverse_lookup-First two_networks (v4 2) (v4 3) db_found

in_b : get two_networks.ip_mappings (v4 3) ≡ some (codes "b" ∷ [])
unfolding get
in_b = refl
