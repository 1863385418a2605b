-- ===== src/Config/Contents/Names.antt =====
-- The names and the reverse names that `parse_configs` gives to the backend.
use aardvark_dns.Prelude.{◌≡◌, ◌↔◌, sym, subst, ap, List, Has}
use aardvark_dns.Text.{Str, str_eq}
use aardvark_dns.Result.{Result, ok}
use aardvark_dns.Error.{IoError}
use aardvark_dns.HashMap.{get, found}
use aardvark_dns.Net.Addr.{IpAddr, ip_eq}
use aardvark_dns.Backend.{DnsBackend, new}
use aardvark_dns.Config.Entry.{CtrEntry}
use aardvark_dns.Config.Directory.{
  DirEntry, FileSystem, Tables, no_tables, Parsed, Order, new_ctr_ips, add_configs, result_of,
  parse_configs,
}
use aardvark_dns.Config.Sources.{Declares}
use aardvark_dns.Config.Facts.Entries.{network_step}
use aardvark_dns.Config.Index.{Named, Reversed, Named-add_entry, Reversed-add_entry}
use aardvark_dns.Config.Contents.Run.{Run, parse_configs-Run}

-- Some file of the directory declares, for the network `net`, an entry with the alias and the
-- address.
abbrev pub Declared :
    (Str → Str) → FileSystem → List (Result DirEntry IoError) → Str → Str → IpAddr → Type 0
Declared unicode fs configs net alias ip =
    (entry : CtrEntry) × Declares unicode fs.read_to_string configs net entry
    × Has alias entry.aliases
    × Has ip (new_ctr_ips entry)

module _ (unicode : Str → Str) (fs : FileSystem) (configs : List (Result DirEntry IoError))
    (t : Tables) (loop : add_configs unicode fs.read_to_string no_tables configs ≡ ok t)
    (net alias : Str) (ip : IpAddr) where
  names_lem : Named net alias ip t ↔ Declared unicode fs configs net alias ip
  unfolding get
  names_lem =
      let step =
        network_step (Named net alias ip) net
          (λ entry. Has alias entry.aliases × Has ip (new_ctr_ips entry))
          (λ t u s h. subst (λ m. Has ip (found (get (found (get m net)) alias))) s.names h)
          (λ n internal t entry. Named-add_entry n internal t entry net alias ip) (λ x. x) unicode
          fs.read_to_string configs t loop in
      (
        λ h. let (entry, d, (a, i)) = step.0 h in (entry, d, a, i),
        λ (entry, d, a, i). step.1 (entry, d, (a, i)),
      )

  reverses_lem : Reversed net ip alias t ↔ Declared unicode fs configs net alias ip
  unfolding get
  reverses_lem =
      let step =
        network_step (Reversed net ip alias) net
          (λ entry. Has ip (new_ctr_ips entry) × Has alias entry.aliases)
          (λ t u s h. subst (λ m. Has alias (found (get (found (get m net)) ip))) s.reverses h)
          (λ n internal t entry. Reversed-add_entry n internal t entry net ip alias) (λ x. x)
          unicode fs.read_to_string configs t loop in
      (
        λ h. let (entry, d, (i, a)) = step.0 h in (entry, d, a, i),
        λ (entry, d, a, i). step.1 (entry, d, (i, a)),
      )

-- `alias` has the address `ip` in the network `net` of the backend; and the other way round.
abbrev pub HasName : DnsBackend → Str → Str → IpAddr → Type 0
HasName b net alias ip = Has ip (found (get (found (get b.name_mappings net)) alias))

abbrev pub HasReverse : DnsBackend → Str → Str → IpAddr → Type 0
HasReverse b net alias ip = Has alias (found (get (found (get b.reverse_mappings net)) ip))

module _ (unicode : Str → Str) (order : Order) (domain : Str) (fs : FileSystem) (dir : Str)
    (r : Parsed) (configs : List (Result DirEntry IoError)) where
  module _ (listing : fs.read_dir dir ≡ ok configs)
      (h : parse_configs unicode order domain fs dir ≡ ok r) where
    taken_apart : Run unicode order domain fs dir configs r
    taken_apart = parse_configs-Run unicode order domain fs dir configs r listing h

    -- When the directory is read without an error, the backend gives a name an address in a
    -- network exactly when a file of that network declares an entry with both.
    pub parse_configs-names :
        (net alias : Str) (ip : IpAddr)
        → HasName r.backend net alias ip ↔ Declared unicode fs configs net alias ip
    unfolding result_of new
    parse_configs-names net alias ip =
        let names : r.backend.name_mappings ≡ taken_apart.tables.network_names =
          ap (λ (p : Parsed). p.backend.name_mappings) taken_apart.result in
        let at_run =
          names_lem unicode fs configs taken_apart.tables taken_apart.loop net alias ip in
        subst
          (λ m.
            Has ip (found (get (found (get m net)) alias))
            ↔ Declared unicode fs configs net alias ip)
          (sym names) at_run

    -- The reverse names are the inverse of the names: in each network an address has a name
    -- exactly when the name has the address.
    pub parse_configs-reverse :
        (net alias : Str) (ip : IpAddr)
        → HasReverse r.backend net alias ip ↔ HasName r.backend net alias ip
    unfolding result_of new
    parse_configs-reverse net alias ip =
        let reverses : r.backend.reverse_mappings ≡ taken_apart.tables.reverse =
          ap (λ (p : Parsed). p.backend.reverse_mappings) taken_apart.result in
        let names : r.backend.name_mappings ≡ taken_apart.tables.network_names =
          ap (λ (p : Parsed). p.backend.name_mappings) taken_apart.result in
        let to = reverses_lem unicode fs configs taken_apart.tables taken_apart.loop net alias ip in
        let from = names_lem unicode fs configs taken_apart.tables taken_apart.loop net alias ip in
        subst (λ m. Has alias (found (get (found (get m net)) ip)) ↔ HasName r.backend net alias ip)
          (sym reverses)
          (subst
            (λ m.
              Reversed net ip alias taken_apart.tables
              ↔ Has ip (found (get (found (get m net)) alias)))
            (sym names) ((λ x. from.1 (to.0 x)), (λ x. to.1 (from.0 x))))
