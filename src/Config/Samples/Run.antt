-- ===== src/Config/Samples/Run.antt =====
-- A run of the reader on the sample directory, and what its files declare.
use aardvark_dns.Prelude.{◌≡◌, inl, inr, false, refl, [], ◌∷◌, some, none}
use aardvark_dns.Text.{Str, codes, strip_suffix, ends_with}
use aardvark_dns.Text.Split.{split}
use aardvark_dns.Text.Case.{to_lowercase}
use aardvark_dns.HashMap.{get, insert, entry_or}
use aardvark_dns.Net.Parser.{parse_ip, parse_ipv4, parse_ipv6}
use aardvark_dns.Config.File.{
  parse_config, parse_network, parse_entry, parse_line, parse_lines, parse_column, parse_dns,
  collect,
}
use aardvark_dns.Result.{ok, ok_or}
use aardvark_dns.Error.{AardvarkResult}
use aardvark_dns.Net.Addr.{ip_eq, v4, v6}
use aardvark_dns.Backend.{new}
use aardvark_dns.Config.Directory.{is_pid_file, network_of, Order, Parsed, parse_configs}
use aardvark_dns.Config.Samples.{sample_fs, entries, file}
use aardvark_dns.Config.Entry.{CtrEntry, ParsedNetworkConfig}
use aardvark_dns.Config.Sources.{Configures, Declares}
use aardvark_dns.Config.Contents.Run.{VisitsAll}

abbrev pub unicode_id : Str → Str
unicode_id s = s

abbrev pub visit : Order
visit entries = entries

unfoldable pub sample_outcome : AardvarkResult Parsed
unfolding parse_configs parse_config parse_network parse_entry parse_line parse_lines parse_column
    parse_dns collect parse_ip parse_ipv4 parse_ipv6 split to_lowercase get insert entry_or
    strip_suffix ends_with new
sample_outcome = parse_configs unicode_id visit (codes "dns.podman") sample_fs (codes "/run")

-- What stands where a run fails; the run on the sample does not.
abbrev nothing_parsed : Parsed
nothing_parsed = record {
  backend = record {
    ip_mappings = [];
    name_mappings = [];
    reverse_mappings = [];
    ctr_dns_server = [];
    network_dns_server = [];
    network_is_internal = [];
    search_domain = [];
  };
  listen_4 = [];
  listen_6 = [];
  log = [];
}

unfoldable pub sample_parsed : Parsed
unfolding sample_outcome
sample_parsed = ok_or nothing_parsed sample_outcome

pub parse_configs_run :
    parse_configs unicode_id visit (codes "dns.podman") sample_fs (codes "/run") ≡ ok sample_parsed
unfolding sample_outcome sample_parsed
parse_configs_run = refl

pub visit-VisitsAll : VisitsAll visit
visit-VisitsAll m e = (λ h. h, λ h. h)

-- The container db, in podman's file.
abbrev pub db_entry : CtrEntry
db_entry = record {
  id = codes "cd34";
  v4 = some (0x0a580003 ∷ []);
  v6 = none;
  aliases = codes "db" ∷ [];
  dns_servers = none;
}

abbrev first_entry : CtrEntry
first_entry = record {
  id = codes "ab12";
  v4 = some (0x0a580002 ∷ []);
  v6 = some (0xfdfd0000000000000000000000000002 ∷ []);
  aliases = codes "helloworld" ∷ codes "ab" ∷ [];
  dns_servers = some (v4 0x03030303 ∷ []);
}

abbrev pub podman_config : ParsedNetworkConfig
podman_config = record {
  network_bind_ip = v4 0x0a580001 ∷ v6 0xfdfd0000000000000000000000000001 ∷ [];
  container_entry = first_entry ∷ db_entry ∷ [];
  network_dnsservers = v4 0x08080808 ∷ [];
}

pub podman_parsed :
    parse_config unicode_id (codes "podman") (sample_fs.read_to_string (codes "podman"))
    ≡ ok podman_config
unfolding parse_config parse_network parse_entry parse_line parse_lines parse_column parse_dns
    collect parse_ip parse_ipv4 parse_ipv6 split to_lowercase
podman_parsed = refl

pub podman_configures :
    Configures unicode_id sample_fs.read_to_string entries (codes "podman") podman_config
unfolding is_pid_file network_of strip_suffix ends_with
podman_configures = record {
  cfg = file "podman";
  listed = inl refl;
  source = record { not_pid = refl; parsed = podman_parsed; internal = false; named = refl };
}

pub db_declared : Declares unicode_id sample_fs.read_to_string entries (codes "podman") db_entry
db_declared = record { config = podman_config; file = podman_configures; present = inr (inl refl) }
