-- ===== src/Config/Directory/Entries.antt =====
-- src/config/mod.rs: the maps that the loop of `parse_configs` builds, and its inner loops.
use aardvark_dns.Prelude.{
  Bool, true, false, not, List, [], ◌∷◌, ◌++◌, map, Option, if◌then◌else◌, is_empty,
}
use aardvark_dns.Prelude.Classes.{◌==◌}
use aardvark_dns.Text.{Str, str_eq}
use aardvark_dns.HashMap.{HashMap, insert, entry_or, found}
use aardvark_dns.Error.{AardvarkError, IoError}
use aardvark_dns.Net.Addr.{IpAddr, v4, v6, Ipv4Addr, Ipv6Addr, ip_eq}
use aardvark_dns.Config.Entry.{CtrEntry, ParsedNetworkConfig}

-- The calls of `error!`.
pub data LogLine : Type 0 where
  read_failed : Str → AardvarkError → LogLine
  list_failed : IoError → LogLine

-- The maps that the loop over the files builds, and the log.
pub record Tables : Type 0 where
  pub network_membership : HashMap Str (List Str)
  pub container_ips : HashMap Str (List IpAddr)
  pub reverse : HashMap Str (HashMap IpAddr (List Str))
  pub network_names : HashMap Str (HashMap Str (List IpAddr))
  pub listen_ips_4 : HashMap Str (List Ipv4Addr)
  pub listen_ips_6 : HashMap Str (List Ipv6Addr)
  pub ctr_dns_server : HashMap IpAddr (Option (List IpAddr))
  pub network_dns_server : HashMap Str (List IpAddr)
  pub network_is_internal : HashMap Str Bool
  pub log : List LogLine

abbrev pub no_tables : Tables
no_tables = record {
  network_membership = [];
  container_ips = [];
  reverse = [];
  network_names = [];
  listen_ips_4 = [];
  listen_ips_6 = [];
  ctr_dns_server = [];
  network_dns_server = [];
  network_is_internal = [];
  log = [];
}

-- `ctr_networks.contains(&network_name)`
unfoldable pub contains : List Str → Str → Bool
contains [] network = false
contains (n ∷ ns) network = if n == network then true else contains ns network

-- The addresses of a container, IPv4 first, as `new_ctr_ips` collects them.
abbrev pub new_ctr_ips : CtrEntry → List IpAddr
new_ctr_ips entry = map v4 (found entry.v4) ++ map v6 (found entry.v6)

-- `if !ctr_networks.contains(&network_name) { push }`
abbrev pub add_network : Str → List Str → List Str
add_network network networks =
    if contains networks network then networks else networks ++ network ∷ []

-- The loop over the aliases, on the names of the network.
unfoldable pub add_aliases :
    List IpAddr → HashMap Str (List IpAddr) → List Str → HashMap Str (List IpAddr)
add_aliases ips names [] = names
add_aliases ips names (alias ∷ aliases) =
    add_aliases ips (entry_or [] names alias (λ old. old ++ ips)) aliases

module _ (network : Str) (internal : Bool) where
  -- The body of the two loops over the addresses of an entry.
  unfoldable pub add_ip : CtrEntry → Tables → IpAddr → Tables
  add_ip entry t ip = record t {
    reverse =
        entry_or [] t.reverse network (λ ips. entry_or [] ips ip (λ names. names ++ entry.aliases));
    ctr_dns_server =
        if not internal then insert t.ctr_dns_server ip entry.dns_servers else t.ctr_dns_server;
  }

  unfoldable pub add_ips : CtrEntry → Tables → List IpAddr → Tables
  unfolding add_ip
  add_ips entry t [] = t
  add_ips entry t (ip ∷ ips) = add_ips entry (add_ip entry t ip) ips

  -- The body of the loop over the entries of a file.
  unfoldable pub add_entry : Tables → CtrEntry → Tables
  unfolding add_ips add_aliases contains
  add_entry t entry =
      let ips = new_ctr_ips entry in
      let joined = record t {
        network_membership = entry_or [] t.network_membership entry.id (add_network network);
      } in
      let indexed = add_ips entry joined ips in
      record indexed {
        container_ips = entry_or [] t.container_ips entry.id (λ old. old ++ ips);
        network_names =
            entry_or [] t.network_names network (λ names. add_aliases ips names entry.aliases);
        network_is_internal = insert t.network_is_internal network internal;
      }

  unfoldable pub add_entries : Tables → List CtrEntry → Tables
  unfolding add_entry
  add_entries t [] = t
  add_entries t (entry ∷ entries) = add_entries (add_entry t entry) entries

  -- The loop over the bind addresses.
  unfoldable pub add_bind : Tables → IpAddr → Tables
  add_bind t (v4 a) = record t {
    listen_ips_4 = entry_or [] t.listen_ips_4 network (λ ips. ips ++ a ∷ []);
  }
  add_bind t (v6 a) = record t {
    listen_ips_6 = entry_or [] t.listen_ips_6 network (λ ips. ips ++ a ∷ []);
  }

  unfoldable pub add_binds : Tables → List IpAddr → Tables
  unfolding add_bind
  add_binds t [] = t
  add_binds t (ip ∷ ips) = add_binds (add_bind t ip) ips

  -- The servers of the network, none for an internal one.
  unfoldable pub add_servers : Tables → List IpAddr → Tables
  add_servers t servers = record t {
    network_dns_server =
        if internal
        then insert t.network_dns_server network []
        else if is_empty servers
        then t.network_dns_server
        else insert t.network_dns_server network servers;
  }

  -- One parsed file.
  unfoldable pub add_parsed : Tables → ParsedNetworkConfig → Tables
  unfolding add_entries add_binds add_servers
  add_parsed t c =
      add_entries (add_binds (add_servers t c.network_dnsservers) c.network_bind_ip)
        c.container_entry
