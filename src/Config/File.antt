-- ===== src/Config/File.antt =====
-- src/config/mod.rs: `parse_config`, one configuration file. `unicode` is the lower-case table for
-- text that is not ASCII; the file's content is what `read_to_string` gave.
pub mod Valid
pub mod Accepts
pub mod Format
pub mod Columns
pub mod RoundTrip
mod Tests
use aardvark_dns.Prelude.{
  Bool, true, false, List, [], ◌∷◌, ◌++◌, map, Option, none, some, if◌then◌else◌, is_empty,
}
use aardvark_dns.Text.{Str, codes}
use aardvark_dns.Text.Split.{split}
use aardvark_dns.Text.Case.{to_lowercase}
use aardvark_dns.Result.{Result, ok, err, map_err, ◌>>=◌}
use aardvark_dns.Error.{
  AardvarkError, AardvarkResult, message, IoError, AddrParseError, addr_parse_text, from_io,
}
use aardvark_dns.Net.Addr.{IpAddr}
use aardvark_dns.Net.Parser.{parse_ip, parse_ipv4, parse_ipv6}
use aardvark_dns.Config.Entry.{CtrEntry, ParsedNetworkConfig}

-- The messages.
unfoldable pub parse_failed : Str → Str → AddrParseError → AardvarkError
parse_failed what text e = message (what ++ (text ++ (codes ": " ++ addr_parse_text e)))

unfoldable pub bad_line : Str → Str → Str → AardvarkError
bad_line path line why = message (
    codes "configuration file "
    ++ (path ++ (codes " line " ++ (line ++ (codes " is improperly formatted - " ++ why)))))

unfoldable pub no_columns : Str → AardvarkError
no_columns path = message (codes "invalid network configuration file: " ++ path)

unfoldable pub no_bind_address : Str → AardvarkError
no_bind_address path =
    message (codes "configuration file " ++ (path ++ codes " does not provide any bind addresses"))

-- The items in order, or the first error: a loop of `parse` and `push`, or `map(parse).collect()`.
unfoldable pub collect : {A E : Type 0} → (Str → Result A E) → List Str → Result (List A) E
collect parse [] = ok []
collect parse (s ∷ ss) = do a ← parse s; rest ← collect parse ss; ok (a ∷ rest)

-- The loops over the addresses of the first line name the address that failed.
abbrev pub parse_named : Str → Str → AardvarkResult IpAddr
parse_named what ip = map_err (parse_failed what ip) (parse_ip ip)

-- The columns of the first line: the bind addresses, and the DNS servers of the network.
unfoldable pub parse_network : Str → List Str → AardvarkResult (List IpAddr × List IpAddr)
parse_network path [] = err (no_columns path)
parse_network path (bind ∷ []) = do
  bind_addrs ← collect (parse_named (codes "error parsing ip address ")) (split b',' bind)
  ok (bind_addrs, [])
parse_network path (bind ∷ servers ∷ more) = do
  bind_addrs ← collect (parse_named (codes "error parsing ip address ")) (split b',' bind)
  dns_servers ←
      collect (parse_named (codes "error parsing network dns address ")) (split b',' servers)
  ok (bind_addrs, dns_servers)

-- An address column of an entry: absent if it is empty. The error names the whole column.
unfoldable pub parse_column :
    {A : Type 0} → Str → (Str → Result A AddrParseError) → Str → AardvarkResult (Option (List A))
parse_column what parse column =
    if is_empty column
    then ok none
    else map_err (parse_failed what column)
        (do items ← collect parse (split b',' column); ok (some items))

-- The fifth column, read only if it is the last one.
unfoldable pub parse_dns : List Str → AardvarkResult (Option (List IpAddr))
parse_dns (column ∷ []) = parse_column (codes "error parsing DNS server address ") parse_ip column
parse_dns _ = ok none

abbrev pub check_names : Str → Str → List Str → AardvarkResult (List Str)
check_names path line [] = err (bad_line path line (codes "no names given"))
check_names path line (a ∷ aliases) = ok (a ∷ aliases)

module _ (unicode : Str → Str) where
  -- The columns of one container's line.
  unfoldable pub parse_entry : Str → Str → List Str → AardvarkResult CtrEntry
  parse_entry path line (id ∷ v4_column ∷ v6_column ∷ names ∷ more) = do
    v4_addrs ← parse_column (codes "error parsing IP address ") parse_ipv4 v4_column
    v6_addrs ← parse_column (codes "error parsing IP address ") parse_ipv6 v6_column
    aliases ← check_names path line (map (to_lowercase unicode) (split b',' names))
    dns_servers ← parse_dns more
    ok (record {
      id = to_lowercase unicode id;
      v4 = v4_addrs;
      v6 = v6_addrs;
      aliases = aliases;
      dns_servers = dns_servers;
    })
  parse_entry path line _ = err (bad_line path line (codes "too few entries"))

-- The variables of the loop over the lines.
pub record Lines : Type 0 where
  pub is_first : Bool
  pub bind_addrs : List IpAddr
  pub network_dns_servers : List IpAddr
  pub ctrs : List CtrEntry

abbrev pub no_lines : Lines
no_lines = record { is_first = true; bind_addrs = []; network_dns_servers = []; ctrs = [] }

module _ (unicode : Str → Str) (path : Str) where
  -- One round of the loop.
  unfoldable pub parse_line : Lines → Str → AardvarkResult Lines
  parse_line s [] = ok s
  parse_line s (c ∷ line) =
      if s.is_first
      then (do
        (bind, servers) ← parse_network path (split b' ' (c ∷ line))
        ok (record s {
          is_first = false;
          bind_addrs = s.bind_addrs ++ bind;
          network_dns_servers = s.network_dns_servers ++ servers;
        }))
      else (do
        entry ← parse_entry unicode path (c ∷ line) (split b' ' (c ∷ line))
        ok (record s { ctrs = s.ctrs ++ entry ∷ [] }))

  unfoldable pub parse_lines : Lines → List Str → AardvarkResult Lines
  parse_lines s [] = ok s
  parse_lines s (line ∷ lines) = do s' ← parse_line s line; parse_lines s' lines

  -- The check behind the loop.
  abbrev pub finish : Lines → AardvarkResult ParsedNetworkConfig
  finish s =
      if is_empty s.bind_addrs
      then err (no_bind_address path)
      else ok (record {
        network_bind_ip = s.bind_addrs;
        container_entry = s.ctrs;
        network_dnsservers = s.network_dns_servers;
      })

  unfoldable pub parse_config : Result Str IoError → AardvarkResult ParsedNetworkConfig
  parse_config content = do
    text ← from_io content
    s ← parse_lines no_lines (split b'\n' text)
    finish s
