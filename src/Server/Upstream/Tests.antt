-- ===== src/Server/Upstream/Tests.antt =====
-- A container whose network has a resolver of its own.
use aardvark_dns.Prelude.{◌≡◌, ◌⊎◌, inl, refl, false, some, [], ◌∷◌, Has}
use aardvark_dns.Text.{codes}
use aardvark_dns.Net.Addr.{IpAddr, SocketAddr, socket_v4, socket_addr, ip_of}
use aardvark_dns.HashMap.{get}
use aardvark_dns.Dns.Answer.{reply_ip}
use aardvark_dns.Backend.{
  lookup, lookup_key, trim_end, ctr_is_internal, get_network_scoped_resolvers,
}
use aardvark_dns.Config.Samples.{sample_fs, entries}
use aardvark_dns.Config.Samples.Run.{
  unicode_id, visit, sample_parsed, parse_configs_run, visit-VisitsAll,
}
use aardvark_dns.Dns.Message.{forward, proto_udp, type_a}
use aardvark_dns.Dns.Process.{CoreDnsData, process_message}
use aardvark_dns.Dns.Samples.{Packet, plain_packets}
use aardvark_dns.Server.Resolv.{dns_port}
use aardvark_dns.Server.Upstream.{OfContainer, OfNetwork, process_message-upstream}

abbrev podman_core : CoreDnsData
podman_core = record {
  network_name = codes "podman";
  backend = sample_parsed.backend;
  no_proxy = false;
  nameservers = socket_v4 9 53 ∷ [];
}

abbrev db_client : SocketAddr
db_client = socket_v4 0x0a580003 4000

abbrev org_question : Packet
org_question = record { id = 7; question = some (codes "example.org.", type_a); answers = [] }

abbrev google : SocketAddr
google = socket_v4 0x08080808 53

passed_on : Has (forward (google ∷ []) org_question proto_udp) (
    process_message plain_packets unicode_id podman_core db_client proto_udp (codes "example.org."))
unfolding process_message reply_ip lookup get sample_parsed lookup_key trim_end ctr_is_internal
    get_network_scoped_resolvers
passed_on = inl refl

process_message-upstream_example :
    Has google podman_core.nameservers
    ⊎ ((a : IpAddr) × (google ≡ socket_addr a dns_port)
        × (OfContainer unicode_id sample_fs entries (ip_of db_client) a
            ⊎ OfNetwork unicode_id sample_fs entries (ip_of db_client) a))
process_message-upstream_example =
    process_message-upstream unicode_id visit (codes "dns.podman") sample_fs (codes "/run")
      sample_parsed entries visit-VisitsAll refl parse_configs_run plain_packets podman_core
      db_client proto_udp (codes "example.org.") refl (google ∷ []) org_question proto_udp passed_on
      google (inl refl)
