-- ===== src/Backend.antt =====
-- src/backend/mod.rs: `DnsBackend`, the store behind every answer, and its queries.
pub mod Key
pub mod Answers
pub mod Internal
pub mod Reverse
mod Tests
use aardvark_dns.Prelude.{
  ℕ, ◌-◌, Bool, true, false, not, List, [], ◌∷◌, ◌++◌, Option, none, some, if◌then◌else◌, length,
  nat_beq,
}
use aardvark_dns.Text.{Str, str_eq, ends_with, truncate}
use aardvark_dns.Text.Case.{to_lowercase}
use aardvark_dns.HashMap.{HashMap, get, found}
use aardvark_dns.Net.Addr.{IpAddr, ip_eq}

pub record DnsBackend : Type 0 where
  pub ip_mappings : HashMap IpAddr (List Str)
  pub name_mappings : HashMap Str (HashMap Str (List IpAddr))
  pub reverse_mappings : HashMap Str (HashMap IpAddr (List Str))
  pub ctr_dns_server : HashMap IpAddr (Option (List IpAddr))
  pub network_dns_server : HashMap Str (List IpAddr)
  pub network_is_internal : HashMap Str Bool
  pub search_domain : Str

-- `search_domain.chars().rev().nth(0)`
unfoldable pub last_char : Str → Option ℕ
last_char [] = none
last_char (c ∷ []) = some c
last_char (c ∷ d ∷ s) = last_char (d ∷ s)

-- A dot at the end of the search domain, if it is not empty and has none.
unfoldable pub close_domain : Str → Str
unfolding last_char
close_domain domain = elim (last_char domain) [
  | none ↦ domain
  | some c ↦ if not (nat_beq c b'.') then domain ++ b'.' ∷ [] else domain
]

unfoldable pub new :
    HashMap IpAddr (List Str)
    → HashMap Str (HashMap Str (List IpAddr))
    → HashMap Str (HashMap IpAddr (List Str))
    → HashMap IpAddr (Option (List IpAddr))
    → HashMap Str (List IpAddr)
    → HashMap Str Bool
    → Str
    → DnsBackend
unfolding close_domain
new containers networks reverse_names ctr_dns_server network_dns_server is_internal domain =
    record {
      ip_mappings = containers;
      name_mappings = networks;
      reverse_mappings = reverse_names;
      ctr_dns_server = ctr_dns_server;
      network_dns_server = network_dns_server;
      network_is_internal = is_internal;
      search_domain = close_domain domain;
    }

-- `if name.ends_with(suffix) { name.truncate(name.len() - suffix.len()) }`
unfoldable pub trim_end : Str → Str → Str
trim_end name suffix =
    if ends_with name suffix then truncate name (length name - length suffix) else name

module _ (unicode : Str → Str) where
  -- The key that a lookup searches for: lower case, without the search domain and the last dot.
  unfoldable pub lookup_key : Str → Str → Str
  lookup_key domain entry = trim_end (trim_end (to_lowercase unicode entry) domain) (b'.' ∷ [])

-- The networks of a requester; for one that is not known, the network that was asked.
abbrev pub nets_or : Str → Option (List Str) → List Str
nets_or network (some nets) = nets
nets_or network none = network ∷ []

abbrev pub names_in : Option (HashMap Str (List IpAddr)) → Str → List IpAddr
names_in none name = []
names_in (some names) name = found (get names name)

module _ (b : DnsBackend) where
  -- The loop of `lookup` over the networks.
  unfoldable pub lookup_in : Str → List IpAddr → List Str → List IpAddr
  lookup_in name results [] = results
  lookup_in name results (net ∷ nets) =
      lookup_in name (results ++ names_in (get b.name_mappings net) name) nets

  -- The loop of `get_network_scoped_resolvers`.
  unfoldable pub resolvers_in : List IpAddr → List Str → List IpAddr
  resolvers_in results [] = results
  resolvers_in results (net ∷ nets) =
      resolvers_in (results ++ found (get b.network_dns_server net)) nets

  unfoldable pub get_network_scoped_resolvers : IpAddr → Option (List IpAddr)
  unfolding resolvers_in
  get_network_scoped_resolvers requester = elim (get b.ip_mappings requester) [
    | none ↦ none
    | some nets ↦ some (resolvers_in [] nets)
  ]

  -- The loop of `ctr_is_internal`.
  unfoldable pub all_internal : List Str → Bool
  all_internal [] = true
  all_internal (net ∷ nets) = elim (get b.network_is_internal net) [
    | none ↦ all_internal nets
    | some internal ↦ elim internal [ false ↦ false | true ↦ all_internal nets ]
  ]

  unfoldable pub ctr_is_internal : IpAddr → Bool
  unfolding all_internal
  ctr_is_internal requester = elim (get b.ip_mappings requester) [
    | none ↦ false
    | some nets ↦ all_internal nets
  ]

  -- The loop of `reverse_lookup`.
  unfoldable pub reverse_in : IpAddr → List Str → Option (List Str)
  reverse_in lookup_ip [] = none
  reverse_in lookup_ip (net ∷ nets) = elim (get b.reverse_mappings net) [
    | none ↦ reverse_in lookup_ip nets
    | some ips ↦ elim (get ips lookup_ip) [
      | none ↦ reverse_in lookup_ip nets
      | some names ↦ some names
    ]
  ]

  unfoldable pub reverse_lookup : IpAddr → IpAddr → Option (List Str)
  unfolding reverse_in
  reverse_lookup requester lookup_ip = elim (get b.ip_mappings requester) [
    | none ↦ none
    | some nets ↦ reverse_in lookup_ip nets
  ]

abbrev some_if_any : List IpAddr → Option (List IpAddr)
some_if_any [] = none
some_if_any (r ∷ rs) = some (r ∷ rs)

module _ (unicode : Str → Str) (b : DnsBackend) where
  unfoldable pub lookup : IpAddr → Str → Str → Option (List IpAddr)
  unfolding lookup_in
  lookup requester network_name entry =
      let name = lookup_key unicode b.search_domain entry in
      some_if_any (lookup_in b name [] (nets_or network_name (get b.ip_mappings requester)))
