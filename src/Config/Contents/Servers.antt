-- ===== src/Config/Contents/Servers.antt =====
-- Where the resolvers that `parse_configs` gives to the backend come from.
mod Addresses
mod Networks
use aardvark_dns.Prelude.{
  ◌≡◌, inl, inr, ◌⊎◌, refl, sym, ap, ◌∙◌, subst, Bool, false, Option, some, List, [], ◌∷◌, Has,
  Bool-cases, is_empty,
}
use aardvark_dns.Prelude.Classes.{◌==◌, ==_iff}
use aardvark_dns.Text.{Str, str_eq}
use aardvark_dns.Result.{Result, ok, ok-injective}
use aardvark_dns.Error.{IoError}
use aardvark_dns.HashMap.{HashMap, get, insert, found}
use aardvark_dns.HashMap.Laws.{get-insert}
use aardvark_dns.HashMap.Members.{insert_back}
use aardvark_dns.Net.Addr.{IpAddr, v4, v6, ip_eq}
use aardvark_dns.Backend.{new}
use aardvark_dns.Config.Entry.{CtrEntry, ParsedNetworkConfig}
use aardvark_dns.Config.Directory.{
  DirEntry, FileSystem, Tables, Parsed, Order, no_tables, new_ctr_ips, add_ip, add_ips, add_entry,
  add_entries, add_bind, add_binds, add_servers, add_parsed, result_of, parse_configs,
}
use aardvark_dns.Config.Sources.{Configures}
use aardvark_dns.Config.Facts.Origin.{files_back}
use aardvark_dns.Config.Contents.Run.{parse_configs-Run}
pub use aardvark_dns.Config.Contents.Servers.Addresses.{Own}
use aardvark_dns.Config.Contents.Servers.Addresses.{Own-add_parsed}
use aardvark_dns.Config.Contents.Servers.Networks.{network_back}

module _ (unicode : Str → Str) where
  -- Some file of the network that is not internal has the resolver.
  abbrev pub Supplied :
      (Str → Result Str IoError) → List (Result DirEntry IoError) → Str → IpAddr → Type 0
  Supplied read configs net a =
      (c : ParsedNetworkConfig) × (d : Configures unicode read configs net c) × (d.source.internal
        ≡ false)
      × Has a c.network_dnsservers

module _ (unicode : Str → Str) (order : Order) (domain : Str) (fs : FileSystem) (dir : Str)
    (r : Parsed) (configs : List (Result DirEntry IoError)) (listing : fs.read_dir dir ≡ ok configs)
    (h : parse_configs unicode order domain fs dir ≡ ok r) where
  -- The resolvers of an address are those of an entry with the address, in a file that is not
  -- internal.
  pub parse_configs-Own :
      (ip : IpAddr) (servers : Option (List IpAddr))
      → get r.backend.ctr_dns_server ip ≡ some servers
      → (net : Str) × (c : ParsedNetworkConfig) × (d : Configures unicode fs.read_to_string configs
          net c)
        × Own ip servers d.source.internal c
  unfolding result_of new get
  parse_configs-Own ip servers known =
      let run = parse_configs-Run unicode order domain fs dir configs r listing h in
      let table : r.backend.ctr_dns_server ≡ run.tables.ctr_dns_server =
        ap (λ (p : Parsed). p.backend.ctr_dns_server) run.result in
      elim (files_back (λ t. get t.ctr_dns_server ip ≡ some servers) (λ n i c. Own ip servers i c)
        (λ t lines x. x) (λ n i t c. Own-add_parsed n i ip servers t c) unicode fs.read_to_string
        configs no_tables run.tables run.loop (subst (λ m. get m ip ≡ some servers) table known)) [
          | inl none_yet ↦ cc none_yet
          | inr found_here ↦ found_here
        ]

  -- The resolvers of a network are those of a file of it that is not internal.
  pub parse_configs-servers :
      (net : Str) (a : IpAddr)
      → Has a (found (get r.backend.network_dns_server net))
      → Supplied unicode fs.read_to_string configs net a
  unfolding result_of new get
  parse_configs-servers net a known =
      let run = parse_configs-Run unicode order domain fs dir configs r listing h in
      let table : r.backend.network_dns_server ≡ run.tables.network_dns_server =
        ap (λ (p : Parsed). p.backend.network_dns_server) run.result in
      elim (files_back (λ t. Has a (found (get t.network_dns_server net)))
        (λ n i c. (n ≡ net) × ((i ≡ false) × Has a c.network_dnsservers)) (λ t lines x. x)
        (λ n i t c. network_back n i net a t c) unicode fs.read_to_string configs no_tables
        run.tables run.loop (subst (λ m. Has a (found (get m net))) table known)) [
          | inl none_yet ↦ absurd none_yet
          | inr (n, c, d, (e, (outside, m))) ↦
              subst (λ k. Supplied unicode fs.read_to_string configs k a) e (c, d, outside, m)
        ]
