-- ===== src/Dns/Process.antt =====
-- `process_message` of src/dns/coredns.rs.
pub mod Guards
use aardvark_dns.Prelude.{
  ℕ, Bool, true, false, ◌||◌, List, [], ◌∷◌, map, Option, none, some, if◌then◌else◌, is_empty,
}
use aardvark_dns.Text.{Str, ends_with}
use aardvark_dns.HashMap.{get}
use aardvark_dns.Net.Addr.{IpAddr, ip_eq, SocketAddr, socket_addr, ip_of}
use aardvark_dns.Backend.{DnsBackend, ctr_is_internal, get_network_scoped_resolvers}
use aardvark_dns.Server.Resolv.{dns_port}
use aardvark_dns.Dns.Message.{
  RecordType, type_a, type_aaaa, type_ptr, type_other, Hickory, Protocol, Effect, send, forward,
  reply, parse_dns_msg,
}
use aardvark_dns.Dns.Answer.{reply_ip, reply_ptr}

-- `CoreDnsData`: the network of the listener, the current backend, whether forwarding is off, and
-- the host's resolvers.
pub record CoreDnsData : Type 0 where
  pub network_name : Str
  pub backend : DnsBackend
  pub no_proxy : Bool
  pub nameservers : List SocketAddr

abbrev pub on_dns_port : List IpAddr → List SocketAddr
on_dns_port = map (λ ip. socket_addr ip dns_port)

abbrev scoped_servers : Option (List IpAddr) → List SocketAddr
scoped_servers none = []
scoped_servers (some servers) = on_dns_port servers

-- The resolvers of the container, or those of its networks if the container has none of its own.
abbrev pub custom_servers : Option (Option (List IpAddr)) → Option (List IpAddr) → List SocketAddr
custom_servers (some (some servers)) networks = on_dns_port servers
custom_servers _ networks = scoped_servers networks

-- The servers that a request is passed on to: the host's if there are no others.
unfoldable pub upstream_servers : CoreDnsData → IpAddr → List SocketAddr
upstream_servers core ip =
    let custom =
      custom_servers (get core.backend.ctr_dns_server ip)
        (get_network_scoped_resolvers core.backend ip) in
    if is_empty custom then core.nameservers else custom

module _ {Name Message : Type 0} (h : Hickory Name Message) (unicode : Str → Str)
    (core : CoreDnsData) where
  -- The answer from the backend, if the type is one that it can answer.
  unfoldable pub local_answer : Name → RecordType → SocketAddr → Message → Option Message
  local_answer request_name type_ptr src_address req =
      reply_ptr h (h.to_string request_name) core.backend src_address req
  local_answer request_name type_a src_address req =
      reply_ip h unicode (h.to_string request_name) request_name core.network_name type_a
        core.backend src_address req
  local_answer request_name type_aaaa src_address req =
      reply_ip h unicode (h.to_string request_name) request_name core.network_name type_aaaa
        core.backend src_address req
  local_answer request_name (type_other n) src_address req = none

  -- The three reasons not to pass a request on.
  unfoldable pub stays_local : Str → IpAddr → Bool
  stays_local request_name ip =
      core.no_proxy
      || (ctr_is_internal core.backend ip || ends_with request_name core.backend.search_domain)

  abbrev pub sent : Option (Effect Message) → List (Effect Message)
  sent none = []
  sent (some effect) = effect ∷ []

  unfoldable pub process_request :
      SocketAddr → Protocol → Name → RecordType → Message → List (Effect Message)
  unfolding local_answer stays_local upstream_servers reply
  process_request src_address proto request_name record_type req =
      elim (local_answer request_name record_type src_address req) [
        | some msg ↦ sent (reply h src_address msg)
        | none ↦
            if stays_local (h.to_string request_name) (ip_of src_address)
            then sent (reply h src_address (h.set_nx_domain (h.into_response req)))
            else forward (upstream_servers core (ip_of src_address)) req proto ∷ []
      ]

  -- A message that cannot be parsed is ignored.
  unfoldable pub process_message : SocketAddr → Protocol → List ℕ → List (Effect Message)
  unfolding process_request parse_dns_msg
  process_message src_address proto msg = elim (parse_dns_msg h msg) [
    | none ↦ []
    | some (request_name, record_type, req) ↦
        process_request src_address proto request_name record_type req
  ]
