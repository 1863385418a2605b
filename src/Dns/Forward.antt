-- ===== src/Dns/Forward.antt =====
-- `forward_to_servers` and `forward_dns_req` of src/dns/coredns.rs.
pub mod First
pub mod Time
use aardvark_dns.Prelude.{
  ℕ, zero, suc, ◌+◌, ◌*◌, ◌/◌, ◌%◌, ◌^◌, Bool, true, false, List, [], ◌∷◌, ◌++◌, Option, none, some,
  if◌then◌else◌, is_empty, length, nat_beq,
}
use aardvark_dns.Net.Addr.{SocketAddr}
use aardvark_dns.Dns.Message.{Hickory, Protocol, proto_udp, proto_tcp, Effect, reply}

-- What comes of a request to one server: the end of the stream, an error, a response.
pub data Exchange (Message : Type 0) : Type 0 where
  empty_response request_failed : Exchange Message
  response : Message → Exchange Message

-- The clients of the protocol library. What the network does depends on the servers that were
-- asked before; each call is given its time-out and takes a time, in nanoseconds. `connect` is
-- `TcpClientStream::new`, which succeeds or not; `send` is a request over UDP or over a connection.
pub record Upstream (Message : Type 0) : Type 0 where
  pub connect : List SocketAddr → SocketAddr → ℕ → Bool × ℕ
  pub send : List SocketAddr → SocketAddr → Protocol → ℕ → Message → Exchange Message × ℕ

-- The servers that were asked, the time that it took, and what was sent to the client.
pub record Forwarded (Message : Type 0) : Type 0 where
  pub asked : List SocketAddr
  pub spent : ℕ
  pub answer : Option (Effect Message)

-- `DEFAULT_TIMEOUT`, in nanoseconds
abbrev pub default_timeout : ℕ
default_timeout = 5 * 10 ^ 9

-- `Duration / u32`, which panics at a divisor of 0.
abbrev pub div_duration : ℕ → ℕ → Option ℕ
div_duration duration zero = none
div_duration duration (suc n) = some (duration / suc n)

-- The time-out of one client: `Duration::from_secs(5) / nameservers.len() as u32`
unfoldable pub timeout_of : List SocketAddr → Option ℕ
timeout_of nameservers =
    if is_empty nameservers
    then some default_timeout
    else div_duration default_timeout (length nameservers % 2 ^ 32)

module _ {Name Message : Type 0} (h : Hickory Name Message) (upstream : Upstream Message) where
  -- The response takes the id of the request.
  abbrev pub forward_dns_req : Message → Exchange Message → Option Message
  forward_dns_req req (response msg) = some (h.set_id msg (h.id req))
  forward_dns_req req _ = none

  -- The reply to the client after one exchange.
  abbrev pub answer_of : SocketAddr → Message → Exchange Message → Option (Effect Message)
  answer_of src_address req done = elim (forward_dns_req req done) [
    | none ↦ none
    | some msg ↦ reply h src_address msg
  ]

  module _ (timeout : ℕ) (src_address : SocketAddr) (req : Message) where
    -- A request and the reply that comes of it, with the time that they take.
    abbrev pub exchange : Protocol → List SocketAddr → SocketAddr → Option (Effect Message) × ℕ
    exchange proto asked addr =
        let (done, time) = upstream.send asked addr proto timeout req in
        (answer_of src_address req done, time)

    -- One server: TCP connects first, and goes on to the next server if that fails.
    abbrev pub ask : Protocol → List SocketAddr → SocketAddr → Option (Effect Message) × ℕ
    ask proto_udp asked addr = exchange proto_udp asked addr
    ask proto_tcp asked addr =
        let (connected, time) = upstream.connect asked addr timeout in
        let (answer, more) = exchange proto_tcp asked addr in
        if connected then (answer, time + more) else (none, time)

    unfoldable pub forward_from :
        Protocol → List SocketAddr → ℕ → List SocketAddr → Forwarded Message
    forward_from proto asked spent [] = record { asked = asked; spent = spent; answer = none }
    forward_from proto asked spent (addr ∷ nameservers) =
        let (answer, time) = ask proto asked addr in
        elim answer [
          | some effect ↦ record {
            asked = asked ++ addr ∷ [];
            spent = spent + time;
            answer = some effect;
          }
          | none ↦ forward_from proto (asked ++ addr ∷ []) (spent + time) nameservers
        ]

  -- `none` is the panic of the division.
  unfoldable pub forward_to_servers :
      List SocketAddr → SocketAddr → Message → Protocol → Option (Forwarded Message)
  unfolding forward_from timeout_of
  forward_to_servers nameservers src_address req proto = elim (timeout_of nameservers) [
    | none ↦ none
    | some timeout ↦ some (forward_from timeout src_address req proto [] 0 nameservers)
  ]
