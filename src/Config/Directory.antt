-- ===== src/Config/Directory.antt =====
-- src/config/mod.rs: `parse_configs`, from the files of the directory to the tables of the backend.
pub mod Entries
unfoldable pub use Entries.*
use aardvark_dns.Prelude.{
  Bool, true, false, not, List, [], ◌∷◌, ◌++◌, map, Option, none, some, if◌then◌else◌, is_empty,
}
use aardvark_dns.Prelude.Classes.{◌==◌}
use aardvark_dns.Text.{Str, str_eq, codes, ends_with, strip_suffix}
use aardvark_dns.HashMap.{HashMap, get, insert, entry_or, found}
use aardvark_dns.Result.{Result, ok, err, ◌>>=◌}
use aardvark_dns.Error.{
  AardvarkError, AardvarkResult, message, io_error, IoError, is_not_found, from_io,
}
use aardvark_dns.Net.Addr.{IpAddr, v4, v6, Ipv4Addr, Ipv6Addr, ip_eq}
use aardvark_dns.Config.Entry.{aardvark_pid_file, internal_suffix, CtrEntry, ParsedNetworkConfig}
use aardvark_dns.Config.File.{parse_config}
use aardvark_dns.Backend.{DnsBackend, new}

-- `path.file_name()` as an `OsStr`: a text, or bytes that are no UTF-8 with their lossy text.
pub data OsName : Type 0 where
  utf8 : Str → OsName
  non_utf8 : Str → OsName

-- `std::fs::DirEntry`: the path as it is printed, and its last component.
pub record DirEntry : Type 0 where
  pub path : Str
  pub file_name : Option OsName

-- The file system as one run of `parse_configs` finds it.
pub record FileSystem : Type 0 where
  pub is_dir : Str → Result Bool IoError
  pub read_dir : Str → Result (List (Result DirEntry IoError)) IoError
  pub read_to_string : Str → Result Str IoError

-- The name of the network, and whether it is internal, from the name of the file.
abbrev pub split_internal : Str → Str × Bool
split_internal name_full = (
  elim (strip_suffix name_full internal_suffix) [ none ↦ name_full | some name ↦ name ],
  ends_with name_full internal_suffix,
)

abbrev non_utf8_name : Str → AardvarkError
non_utf8_name lossy =
    message (codes "configuration file " ++ (lossy ++ codes " name has non-UTF8 characters"))

abbrev no_file_name : Str → AardvarkError
no_file_name path = message (
    codes "configuration file "
    ++ (path ++ codes " does not have a file name, cannot identify network name"))

unfoldable pub network_of : Str → Option OsName → AardvarkResult (Str × Bool)
network_of path none = err (no_file_name path)
network_of path (some (non_utf8 lossy)) = err (non_utf8_name lossy)
network_of path (some (utf8 name)) = ok (split_internal name)

-- `path == constants::AARDVARK_PID_FILE`
unfoldable pub is_pid_file : Option OsName → Bool
is_pid_file (some (utf8 name)) = name == aardvark_pid_file
is_pid_file _ = false

-- The arm for a file that cannot be parsed: which errors are logged.
unfoldable pub log_read : Str → AardvarkError → List LogLine
log_read path (io_error e) =
    if not (is_not_found e.kind) then [] else read_failed path (io_error e) ∷ []
log_read path e = read_failed path e ∷ []

-- The arm for an entry that cannot be listed.
unfoldable pub log_list : IoError → List LogLine
log_list e = if not (is_not_found e.kind) then list_failed e ∷ [] else []

module _ (unicode : Str → Str) (read : Str → Result Str IoError) where
  abbrev add_result :
      DirEntry → Tables → Result ParsedNetworkConfig AardvarkError → AardvarkResult Tables
  add_result cfg t (err e) = ok (record t { log = t.log ++ log_read cfg.path e })
  add_result cfg t (ok c) = do
    (network, internal) ← network_of cfg.path cfg.file_name
    ok (add_parsed network internal t c)

  -- One entry of the directory.
  unfoldable pub add_config : Tables → Result DirEntry IoError → AardvarkResult Tables
  unfolding log_list log_read is_pid_file network_of add_parsed
  add_config t (err e) = ok (record t { log = t.log ++ log_list e })
  add_config t (ok cfg) =
      if is_pid_file cfg.file_name
      then ok t
      else add_result cfg t (parse_config unicode cfg.path (read cfg.path))

  unfoldable pub add_configs : Tables → List (Result DirEntry IoError) → AardvarkResult Tables
  unfolding add_config
  add_configs t [] = ok t
  add_configs t (config ∷ configs) = do t' ← add_config t config; add_configs t' configs

-- `for ip in ips`: the networks of a container go to each of its addresses.
unfoldable pub add_networks :
    List Str → HashMap IpAddr (List Str) → List IpAddr → HashMap IpAddr (List Str)
add_networks networks ctrs [] = ctrs
add_networks networks ctrs (ip ∷ ips) =
    add_networks networks (entry_or [] ctrs ip (λ old. old ++ networks)) ips

unfoldable pub no_membership : Str → AardvarkError
no_membership id = message (
    codes "Container ID "
    ++ (id ++ codes " has an entry in IPs table, but not network membership table"))

-- The loop over `container_ips`, on its entries in the order of the visit.
unfoldable pub build_ctrs :
    HashMap Str (List Str)
    → HashMap IpAddr (List Str)
    → List (Str × List IpAddr)
    → AardvarkResult (HashMap IpAddr (List Str))
unfolding add_networks
build_ctrs membership ctrs [] = ok ctrs
build_ctrs membership ctrs ((id, ips) ∷ rest) = elim (get membership id) [
  | some networks ↦ build_ctrs membership (add_networks networks ctrs ips) rest
  | none ↦ err (no_membership id)
]

-- The result of `parse_configs`, and the log.
pub record Parsed : Type 0 where
  pub backend : DnsBackend
  pub listen_4 : HashMap Str (List Ipv4Addr)
  pub listen_6 : HashMap Str (List Ipv6Addr)
  pub log : List LogLine

pub not_a_directory : Str → AardvarkError
not_a_directory dir =
    message (codes "config directory " ++ (dir ++ codes " must exist and be a directory"))

abbrev pub Order : Type 0
Order = List (Str × List IpAddr) → List (Str × List IpAddr)

-- What is returned, from the tables and the networks of each address.
unfoldable pub result_of : Str → Tables → HashMap IpAddr (List Str) → Parsed
result_of search_domain t ctrs = record {
  backend =
      new ctrs t.network_names t.reverse t.ctr_dns_server t.network_dns_server t.network_is_internal
        search_domain;
  listen_4 = t.listen_ips_4;
  listen_6 = t.listen_ips_6;
  log = t.log;
}

-- `order` is the order in which the map `container_ips` is visited.
module _ (unicode : Str → Str) (order : Order) (search_domain : Str) where
  -- What stands behind the loop over the files.
  unfoldable pub finish_tables : Tables → AardvarkResult Parsed
  unfolding build_ctrs result_of
  finish_tables t = do
    ctrs ← build_ctrs t.network_membership [] (order t.container_ips)
    ok (result_of search_domain t ctrs)

  abbrev pub parse_directory : FileSystem → Str → Bool → AardvarkResult Parsed
  parse_directory fs dir false = err (not_a_directory dir)
  parse_directory fs dir true = do
    configs ← from_io (fs.read_dir dir)
    t ← add_configs unicode fs.read_to_string no_tables configs
    finish_tables t

  unfoldable pub parse_configs : FileSystem → Str → AardvarkResult Parsed
  unfolding add_configs finish_tables not_a_directory
  parse_configs fs dir = do is_dir ← from_io (fs.is_dir dir); parse_directory fs dir is_dir
