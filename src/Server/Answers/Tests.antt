-- ===== src/Server/Answers/Tests.antt =====
-- A container that asks for a name after the start on the sample directory.
use aardvark_dns.Prelude.{◌≡◌, false, refl, some, []}
use aardvark_dns.Text.{codes}
use aardvark_dns.Net.Addr.{SocketAddr, socket_v4}
use aardvark_dns.Config.Samples.{entries}
use aardvark_dns.Dns.Message.{type_a, proto_udp, parse_dns_msg}
use aardvark_dns.Dns.Process.{CoreDnsData}
use aardvark_dns.Dns.Samples.{Packet, plain_packets}
use aardvark_dns.Server.Samples.{
  setup, world, server_of, visits_v4, visits_v6, no_keys, first_reload, started_here,
}
use aardvark_dns.Server.Reload.Steps.{no_tasks}
use aardvark_dns.Server.Answers.{listener_data, Answered, read_config_and_spawn-Answered}

abbrev db_client : SocketAddr
db_client = socket_v4 0x0a580003 4000

abbrev ab_question : Packet
ab_question = record { id = 7; question = some (codes "ab.", type_a); answers = [] }

read_config_and_spawn-Answered_example :
    (core : CoreDnsData) × (listener_data (server_of first_reload) (codes "podman") false
      ≡ some core)
    × (core.network_name ≡ codes "podman")
    × Answered plain_packets setup world visits_v4 visits_v6
        (λ m e. (λ h. h, λ h. h))
        entries
        refl
        core
        db_client
        proto_udp
        (codes "ab.")
        (codes "ab.")
        type_a
        ab_question
unfolding parse_dns_msg
read_config_and_spawn-Answered_example =
    read_config_and_spawn-Answered plain_packets setup world visits_v4 visits_v6
      (λ m e. (λ h. h, λ h. h)) entries refl no_tasks (server_of first_reload) no_keys started_here
      (codes "podman") false db_client proto_udp (codes "ab.") (codes "ab.") type_a ab_question tt
      refl
