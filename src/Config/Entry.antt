-- ===== src/Config/Entry.antt =====
-- src/config/mod.rs and constants.rs: the types of one parsed file, and the constants.
use aardvark_dns.Prelude.{List, Option}
use aardvark_dns.Text.{Str, codes}
use aardvark_dns.Net.Addr.{IpAddr, Ipv4Addr, Ipv6Addr}

abbrev pub aardvark_pid_file : Str
aardvark_pid_file = codes "aardvark.pid"

abbrev pub internal_suffix : Str
internal_suffix = codes "%int"

-- A single entry in a config file.
pub record CtrEntry : Type 0 where
  pub id : Str
  pub v4 : Option (List Ipv4Addr)
  pub v6 : Option (List Ipv6Addr)
  pub aliases : List Str
  pub dns_servers : Option (List IpAddr)

pub record ParsedNetworkConfig : Type 0 where
  pub network_bind_ip : List IpAddr
  pub container_entry : List CtrEntry
  pub network_dnsservers : List IpAddr
