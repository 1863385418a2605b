-- ===== src/Dns/Listen.antt =====
-- The event loops of src/dns/coredns.rs: `CoreDns::run` and `process_tcp_stream`, on the list of
-- what they wait for, in the order in which it comes. Connections run beside their listener: their
-- effects are listed where the connection was accepted.
pub mod Ends
use aardvark_dns.Prelude.{ℕ, Bool, true, false, List, [], ◌∷◌, ◌++◌}
use aardvark_dns.Text.{Str}
use aardvark_dns.Net.Addr.{SocketAddr}
use aardvark_dns.Backend.{DnsBackend}
use aardvark_dns.Dns.Message.{Hickory, Protocol, proto_udp, proto_tcp, Effect}
use aardvark_dns.Dns.Process.{CoreDnsData, process_message}

-- A message that arrives, with the store and the host's resolvers at that time: both are shared
-- with the reload, and read when the message is handled.
pub record Arrival : Type 0 where
  pub bytes : List ℕ
  pub src_address : SocketAddr
  pub backend : DnsBackend
  pub nameservers : List SocketAddr

-- What a TCP stream gives: a message, an error, its end, or nothing for three seconds.
pub data StreamEvent : Type 0 where
  tcp_message : Arrival → StreamEvent
  tcp_error end_of_stream timed_out : StreamEvent

-- What `select!` gives: the stop signal, what the UDP stream gives, what `accept` gives.
pub data Incoming : Type 0 where
  stop_signal : Incoming
  udp_message : Arrival → Incoming
  udp_error udp_none : Incoming
  accepted : List StreamEvent → Incoming
  accept_failed : Incoming

-- The effects of a loop, in order, and whether it has ended.
pub record Ran (Message : Type 0) : Type 0 where
  pub effects : List (Effect Message)
  pub ended : Bool

module _ {Message : Type 0} where
  abbrev pub behind : List (Effect Message) → Ran Message → Ran Message
  behind effects r = record { effects = effects ++ r.effects; ended = r.ended }

module _ {Name Message : Type 0} (h : Hickory Name Message) (unicode : Str → Str)
    (core : CoreDnsData) where
  abbrev pub handle : Protocol → Arrival → List (Effect Message)
  handle proto a =
      process_message h unicode (record core { backend = a.backend; nameservers = a.nameservers })
        a.src_address proto a.bytes

  unfoldable pub process_tcp_stream : List StreamEvent → Ran Message
  process_tcp_stream [] = record { effects = []; ended = false }
  process_tcp_stream (tcp_message a ∷ events) =
      behind (handle proto_tcp a) (process_tcp_stream events)
  process_tcp_stream (tcp_error ∷ events) = record { effects = []; ended = true }
  process_tcp_stream (end_of_stream ∷ events) = record { effects = []; ended = true }
  process_tcp_stream (timed_out ∷ events) = record { effects = []; ended = true }

  unfoldable pub run : List Incoming → Ran Message
  unfolding process_tcp_stream
  run [] = record { effects = []; ended = false }
  run (stop_signal ∷ incoming) = record { effects = []; ended = true }
  run (udp_message a ∷ incoming) = behind (handle proto_udp a) (run incoming)
  run (udp_error ∷ incoming) = run incoming
  run (udp_none ∷ incoming) = run incoming
  run (accepted events ∷ incoming) = behind (process_tcp_stream events).effects (run incoming)
  run (accept_failed ∷ incoming) = record { effects = []; ended = true }
