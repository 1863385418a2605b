-- ===== src/Dns/Message.antt =====
-- The DNS messages of the protocol library, which is a parameter: names, messages and what the
-- program calls on them. `reply` and `parse_dns_msg` of src/dns/coredns.rs.
use aardvark_dns.Prelude.{ℕ, Bool, not, ◌&&◌, List, Option, none, some, if◌then◌else◌}
use aardvark_dns.Text.{Str}
use aardvark_dns.Net.Addr.{Ipv4Addr, Ipv6Addr, SocketAddr}

-- `RecordType`; the program tells these three from the rest.
pub data RecordType : Type 0 where
  type_a type_aaaa type_ptr : RecordType
  type_other : ℕ → RecordType

-- `RData`, the kinds that the program makes.
pub data RData (Name : Type 0) : Type 0 where
  rdata_a : Ipv4Addr → RData Name
  rdata_aaaa : Ipv6Addr → RData Name
  rdata_ptr : Name → RData Name

-- `Record::from_rdata(name, ttl, rdata)`
pub record Record (Name : Type 0) : Type 0 where
  pub name : Name
  pub ttl : ℕ
  pub rdata : RData Name

-- What the program calls on a name and a message.
pub record Hickory (Name Message : Type 0) : Type 0 where
  pub default_name : Name
  pub to_string : Name → Str
  pub from_ascii : Str → Option Name
  pub from_str_relaxed : Str → Option Name
  pub from_vec : List ℕ → Option Message
  pub to_vec : Message → Option (List ℕ)
  pub first_query : Message → Option (Name × RecordType)
  pub add_answer : Message → Record Name → Message
  pub into_response : Message → Message
  pub set_nx_domain : Message → Message
  pub recursion_desired : Message → Bool
  pub recursion_available : Message → Bool
  pub set_recursion_available : Message → Message
  pub id : Message → ℕ
  pub set_id : Message → ℕ → Message

-- `Protocol`
pub data Protocol : Type 0 where
  proto_udp proto_tcp : Protocol

-- What the handler of a message does: it hands bytes to the sender, or passes the request on.
pub data Effect (Message : Type 0) : Type 0 where
  send : List ℕ → SocketAddr → Effect Message
  forward : List SocketAddr → Message → Protocol → Effect Message

module _ {Name Message : Type 0} (h : Hickory Name Message) where
  -- The message that `reply` encodes.
  unfoldable pub response_of : Message → Message
  response_of msg =
      if h.recursion_desired msg && not (h.recursion_available msg)
      then h.set_recursion_available (h.into_response msg)
      else h.into_response msg

  -- Nothing is sent if the message cannot be encoded; a failed send is only logged.
  unfoldable pub reply : SocketAddr → Message → Option (Effect Message)
  unfolding response_of
  reply socket_addr msg = elim (h.to_vec (response_of msg)) [
    | none ↦ none
    | some bytes ↦ some (send bytes socket_addr)
  ]

  -- A message without a query has the default name and type A.
  abbrev query_of : Message → Option (Name × RecordType) → Name × RecordType × Message
  query_of msg none = (h.default_name, type_a, msg)
  query_of msg (some (name, record_type)) = (name, record_type, msg)

  unfoldable pub parse_dns_msg : List ℕ → Option (Name × RecordType × Message)
  parse_dns_msg body = elim (h.from_vec body) [
    | none ↦ none
    | some msg ↦ some (query_of msg (h.first_query msg))
  ]
