-- ===== src/Server/Isolated/Tests.antt =====
-- A container of one internal network.
use aardvark_dns.Error.{IoError}
use aardvark_dns.Text.{Str}
use aardvark_dns.Prelude.{false}
use aardvark_dns.Prelude.{
  ◌≡◌, inl, inr, Has, refl, List, [], ◌∷◌, sym, ap, subst, Bool, true, none, some,
}
use aardvark_dns.Text.{codes, strip_suffix, ends_with}
use aardvark_dns.Text.Split.{split}
use aardvark_dns.Text.Case.{to_lowercase}
use aardvark_dns.HashMap.{get, insert, entry_or}
use aardvark_dns.Net.Parser.{parse_ip, parse_ipv4, parse_ipv6}
use aardvark_dns.Config.File.{
  parse_config, parse_network, parse_entry, parse_line, parse_lines, parse_column, parse_dns,
  collect,
}
use aardvark_dns.Result.{ok, ok_or, Result, ok-injective}
use aardvark_dns.Error.{AardvarkResult}
use aardvark_dns.Net.Addr.{ip_eq, v4, SocketAddr, socket_v4}
use aardvark_dns.Backend.{new}
use aardvark_dns.Config.Directory.{
  FileSystem, Parsed, parse_configs, DirEntry, network_of, is_pid_file,
}
use aardvark_dns.Config.Samples.{sample_fs, file}
use aardvark_dns.Config.Samples.Run.{unicode_id, visit, sample_parsed, visit-VisitsAll}
use aardvark_dns.Config.Entry.{CtrEntry, ParsedNetworkConfig}
use aardvark_dns.Config.Sources.{Declares}
use aardvark_dns.Dns.Message.{forward, proto_udp, type_a}
use aardvark_dns.Dns.Process.{CoreDnsData, process_message}
use aardvark_dns.Dns.Samples.{Packet, plain_packets}
use aardvark_dns.Server.Isolated.{IsInternal, process_message-isolated}

abbrev one_file : List (Result DirEntry IoError)
one_file = ok (file "priv%int") ∷ []

abbrev private_fs : FileSystem
private_fs = record sample_fs { read_dir = λ dir. ok one_file }

unfoldable private_outcome : AardvarkResult Parsed
unfolding parse_configs parse_config parse_network parse_entry parse_line parse_lines parse_column
    parse_dns collect parse_ip parse_ipv4 parse_ipv6 split to_lowercase get insert entry_or
    strip_suffix ends_with new
private_outcome = parse_configs unicode_id visit (codes "dns.podman") private_fs (codes "/run")

unfoldable private_parsed : Parsed
unfolding private_outcome sample_parsed
private_parsed = ok_or sample_parsed private_outcome

private_run :
    parse_configs unicode_id visit (codes "dns.podman") private_fs (codes "/run")
    ≡ ok private_parsed
unfolding private_outcome private_parsed
private_run = refl

abbrev hello_entry : CtrEntry
hello_entry = record {
  id = codes "ab12";
  v4 = some (0x0a590002 ∷ []);
  v6 = none;
  aliases = codes "hello" ∷ [];
  dns_servers = none;
}

abbrev private_config : ParsedNetworkConfig
private_config = record {
  network_bind_ip = v4 0x0a590001 ∷ [];
  container_entry = hello_entry ∷ [];
  network_dnsservers = [];
}

hello_declared : Declares unicode_id private_fs.read_to_string one_file (codes "priv") hello_entry
unfolding parse_config parse_network parse_entry parse_line parse_lines parse_column parse_dns
    collect parse_ip parse_ipv4 parse_ipv6 split to_lowercase is_pid_file network_of strip_suffix
    ends_with
hello_declared = record {
  config = private_config;
  file = record {
    cfg = file "priv%int";
    listed = inl refl;
    source = record { not_pid = refl; parsed = refl; internal = true; named = refl };
  };
  present = inl refl;
}

marked : (net : Str) → IsInternal unicode_id private_fs one_file net
unfolding network_of strip_suffix ends_with
marked net c d = elim d.listed [
  | inl eq ↦
      let named =
        subst (λ (x : DirEntry). network_of x.path x.file_name ≡ ok (net, d.source.internal))
          (ok-injective eq) d.source.named in
      ap (λ (p : Str × Bool). p.1) (sym (ok-injective named))
  | inr none_more ↦ absurd none_more
]

abbrev private_core : CoreDnsData
private_core = record {
  network_name = codes "priv";
  backend = private_parsed.backend;
  no_proxy = false;
  nameservers = socket_v4 9 53 ∷ [];
}

abbrev hello_client : SocketAddr
hello_client = socket_v4 0x0a590002 4000

abbrev example_question : Packet
example_question = record { id = 7; question = some (codes "example.org.", type_a); answers = [] }

process_message-isolated_example :
    ¬ Has (forward (socket_v4 9 53 ∷ []) example_question proto_udp) (
      process_message plain_packets unicode_id private_core hello_client proto_udp
        (codes "example.org."))
process_message-isolated_example =
    process_message-isolated unicode_id visit (codes "dns.podman") private_fs (codes "/run")
      private_parsed one_file visit-VisitsAll refl private_run plain_packets private_core
      hello_client proto_udp (codes "example.org.") (codes "priv") hello_entry refl hello_declared
      (inl refl) (λ net j. marked net) (socket_v4 9 53 ∷ []) example_question proto_udp
