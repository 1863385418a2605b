-- ===== src/Dns/Tests.antt =====
-- The theorems about the handling of messages at concrete inputs.
use mathlib.Core.Option
use mathlib.Core.List.{foldl, flat_map}
use aardvark_dns.Prelude.{
  ℕ, zero, suc, ◌≡◌, ◌≢◌, ◌↔◌, ◌⊎◌, refl, Bool, true, false, List, [], ◌∷◌, ◌++◌, reverse, map,
  none, some, All, Has, ◌*◌, ◌≤◌, arith,
}
use aardvark_dns.Text.{Str, codes}
use aardvark_dns.Text.Split.{join}
use aardvark_dns.Text.Join.{Lacks}
use aardvark_dns.Net.Addr.{SocketAddr, socket_v4, ip_of}
use aardvark_dns.Backend.{lookup}
use aardvark_dns.Dns.Message.{
  type_a, type_aaaa, proto_udp, proto_tcp, send, forward, reply, response_of, parse_dns_msg,
}
use aardvark_dns.Dns.Answer.{reply_ip, ptr_lookup_ip}
use aardvark_dns.Dns.Answer.Records.{record_for, reply_ip-records}
use aardvark_dns.Dns.Answer.Pointer.{
  Group, all_digits, text_of, ptr_lookup_ip-in_addr, ptr_lookup_ip-ip6,
}
use aardvark_dns.Dns.Process.{process_message}
use aardvark_dns.Dns.Process.Guards.{
  MayForward, process_message-MayForward, OneEffect, process_message-one,
}
use aardvark_dns.Dns.Forward.{
  default_timeout, timeout_of, Upstream, Forwarded, response, forward_from, forward_to_servers,
}
use aardvark_dns.Dns.Listen.{
  Arrival, tcp_message, timed_out, udp_message, accept_failed, process_tcp_stream, run,
}
use aardvark_dns.Dns.Listen.Ends.{of_event, of_incoming, process_tcp_stream-Ends, run-Ends}
use aardvark_dns.Dns.Forward.Time.{waits, KeepsTimeouts, forward_to_servers_bounds}
use aardvark_dns.Dns.Forward.First.{Overflows, Returns, forward_to_servers-cases}
use aardvark_dns.Dns.Samples.{
  Packet, plain_packets, same_text, one_network, core, client, web_question,
}

reply_ip-records_example :
    reply_ip plain_packets same_text
      (codes "web")
      (codes "web")
      (codes "a")
      type_aaaa
      one_network
      client
      web_question
    ≡ Option.map
        (λ ips.
          foldl plain_packets.add_answer web_question
            (flat_map (record_for (codes "web") type_aaaa) ips))
        (lookup same_text one_network (ip_of client) (codes "a") (codes "web"))
reply_ip-records_example =
    reply_ip-records plain_packets same_text (codes "web") (codes "web") (codes "a") type_aaaa
      one_network client web_question

process_message-MayForward_example :
    Has
      (forward
        (socket_v4 9 53 ∷ [])
        (record { id = 7; question = some (codes "example.org.", type_a); answers = [] })
        proto_udp)
      (process_message plain_packets same_text core client proto_udp (codes "example.org."))
    ↔ MayForward plain_packets same_text core client proto_udp
        (codes "example.org.")
        (socket_v4 9 53 ∷ [])
        (record { id = 7; question = some (codes "example.org.", type_a); answers = [] })
        proto_udp
process_message-MayForward_example =
    process_message-MayForward plain_packets same_text core client proto_udp (codes "example.org.")
      (socket_v4 9 53 ∷ [])
      (record { id = 7; question = some (codes "example.org.", type_a); answers = [] }) proto_udp

always_encodes : (m : Packet) → (bytes : List ℕ) × (plain_packets.to_vec m ≡ some bytes)
always_encodes m = (m.id ∷ [], refl)

process_message-one_example :
    ((parse_dns_msg plain_packets (codes "web") ≡ none)
      × (process_message plain_packets same_text core client proto_udp (codes "web") ≡ []))
    ⊎ OneEffect plain_packets same_text core client proto_udp (codes "web")
process_message-one_example =
    process_message-one plain_packets same_text core client proto_udp always_encodes (codes "web")

-- The first server cannot be reached, the second responds.
abbrev second_connects : List SocketAddr → SocketAddr → ℕ → Bool × ℕ
second_connects [] addr t = (false, t)
second_connects (a ∷ asked) addr t = (true, 0)

abbrev second_responds : Upstream Packet
second_responds = record {
  connect = second_connects;
  send = λ asked addr proto t req. (response web_question, t);
}

second_responds-KeepsTimeouts : KeepsTimeouts second_responds
second_responds-KeepsTimeouts = record {
  connect = keeps;
  send = λ asked addr proto t req. omega arith;
}
  where
    keeps :
        (asked : List SocketAddr) (addr : SocketAddr) (t : ℕ) → (second_connects asked addr t).1 ≤ t
    keeps [] addr t = omega arith
    keeps (a ∷ asked) addr t = omega arith

abbrev two_servers : List SocketAddr
two_servers = socket_v4 8 53 ∷ socket_v4 9 53 ∷ []

forward_to_servers-cases_example :
    Overflows plain_packets second_responds client web_question proto_tcp two_servers
    ⊎ Returns plain_packets second_responds client web_question proto_tcp two_servers
forward_to_servers-cases_example =
    forward_to_servers-cases plain_packets second_responds client web_question proto_tcp two_servers

abbrev four_parts : List Str
four_parts = codes "1" ∷ codes "2" ∷ codes "3" ∷ codes "4" ∷ []

digit-Lacks : (n : ℕ) → n ≢ b'.' → Lacks b'.' (n ∷ [])
digit-Lacks n h = (h, tt)

four_parts-Lacks : All (Lacks b'.') four_parts
four_parts-Lacks = (
  digit-Lacks b'1' (λ h. omega arith),
  (
    digit-Lacks b'2' (λ h. omega arith),
    (digit-Lacks b'3' (λ h. omega arith), (digit-Lacks b'4' (λ h. omega arith), tt)),
  ),
)

ptr_lookup_ip-in_addr_example :
    ptr_lookup_ip (join (b'.' ∷ []) (reverse four_parts) ++ codes ".in-addr.arpa.")
    ≡ some (join (b'.' ∷ []) four_parts)
ptr_lookup_ip-in_addr_example = ptr_lookup_ip-in_addr four_parts (λ h. cc) four_parts-Lacks

abbrev one_group : Group
one_group = record { a = b'f' ∷ []; b = b'd' ∷ []; c = b'0' ∷ []; d = b'1' ∷ [] }

abbrev groups : ℕ → List Group
groups zero = []
groups (suc n) = one_group ∷ groups n

groups-Lacks : (n : ℕ) → All (Lacks b'.') (all_digits (groups n))
groups-Lacks zero = tt
groups-Lacks (suc n) = (
  digit-Lacks b'f' (λ h. omega arith),
  (
    digit-Lacks b'd' (λ h. omega arith),
    (digit-Lacks b'0' (λ h. omega arith), (digit-Lacks b'1' (λ h. omega arith), groups-Lacks n)),
  ),
)

ptr_lookup_ip-ip6_example :
    ptr_lookup_ip (join (b'.' ∷ []) (reverse (all_digits (groups 8))) ++ codes ".ip6.arpa.")
    ≡ some (join (b':' ∷ []) (map text_of (groups 8)))
ptr_lookup_ip-ip6_example = ptr_lookup_ip-ip6 (groups 8) refl (groups-Lacks 8)

abbrev arrival : Arrival
arrival = record {
  bytes = codes "web";
  src_address = client;
  backend = one_network;
  nameservers = [];
}

process_tcp_stream-Ends_example :
    process_tcp_stream plain_packets same_text core
      (tcp_message arrival ∷ timed_out ∷ tcp_message arrival ∷ [])
    ≡ record {
      effects = flat_map (of_event plain_packets same_text core) (tcp_message arrival ∷ []);
      ended = true;
    }
process_tcp_stream-Ends_example =
    process_tcp_stream-Ends plain_packets same_text core (tcp_message arrival ∷ []) timed_out
      (tcp_message arrival ∷ []) ((λ x. x), tt) tt

run-Ends_example :
    run plain_packets same_text core
      (udp_message arrival ∷ accept_failed ∷ udp_message arrival ∷ [])
    ≡ record {
      effects = flat_map (of_incoming plain_packets same_text core) (udp_message arrival ∷ []);
      ended = true;
    }
run-Ends_example =
    run-Ends plain_packets same_text core (udp_message arrival ∷ []) accept_failed
      (udp_message arrival ∷ []) ((λ x. x), tt) tt

forward_to_servers_bounds_example :
    (r : Forwarded Packet) × (forward_to_servers plain_packets second_responds two_servers client
        web_question proto_tcp
      ≡ some r)
    × (r.spent ≤ waits proto_tcp * default_timeout)
forward_to_servers_bounds_example =
    forward_to_servers_bounds plain_packets second_responds second_responds-KeepsTimeouts client
      web_question two_servers proto_tcp (omega arith)

-- Five seconds are shared by two servers; the first fails to connect, the second takes its time.
spent_here :
    forward_to_servers plain_packets second_responds two_servers client web_question proto_tcp
    ≡ some (record {
      asked = two_servers;
      spent = default_timeout;
      answer = some (send (7 ∷ []) client);
    })
unfolding forward_to_servers forward_from timeout_of reply response_of
spent_here = refl
