-- ===== src/Server/Answers.antt =====
-- From the files of the directory to the messages of the listeners: what a request is answered
-- after a reload. The listener's data are those of `start_dns_server` of src/server/serve.rs.
mod Tests
use mathlib.Core.Option
use mathlib.Core.List.{foldl, flat_map}
use aardvark_dns.Prelude.{
  ℕ, ◌≡◌, ◌≢◌, ◌↔◌, refl, sym, ap, ◌∙◌, subst, Bool, List, [], Has, none, some, Option, inl, inr,
  Option-cases,
}
use aardvark_dns.Text.{Str}
use aardvark_dns.Result.{Result, ok}
use aardvark_dns.Error.{IoError}
use aardvark_dns.HashMap.{found}
use aardvark_dns.Net.Addr.{IpAddr, SocketAddr, ip_of}
use aardvark_dns.Backend.{DnsBackend, close_domain, lookup_key, lookup}
use aardvark_dns.Backend.Answers.{lookup-Resolves, lookup-none}
use aardvark_dns.Config.Directory.{DirEntry, parse_configs}
use aardvark_dns.Config.Contents.Run.{VisitsAll}
use aardvark_dns.Config.Contents.Names.{Declared}
use aardvark_dns.Config.Isolation.{Sees, lookup-Sees}
use aardvark_dns.Server.Threads.Outcome.{IsVisit}
use aardvark_dns.Server.Reload.{Setup, World, Server, returned, read_config_and_spawn}
use aardvark_dns.Server.Reload.Reading.{IsWellFormed}
use aardvark_dns.Server.Reload.Success.{read_config_and_spawn-Serving}
use aardvark_dns.Dns.Message.{
  RecordType, type_a, type_aaaa, type_ptr, type_other, Hickory, Protocol, reply, parse_dns_msg,
}
use aardvark_dns.Dns.Answer.{reply_ip}
use aardvark_dns.Dns.Answer.Records.{record_for, reply_ip-records}
use aardvark_dns.Dns.Process.{CoreDnsData, local_answer, sent, process_message}
use aardvark_dns.Dns.Process.Guards.{when_answered}

-- What a listener of the network handles a message with: the store and the host's resolvers of the
-- moment. There is no listener before the first store.
abbrev pub listener_data : Server → Str → Bool → Option CoreDnsData
listener_data s network no_proxy =
    Option.map
      (λ b. record {
        network_name = network;
        backend = b;
        no_proxy = no_proxy;
        nameservers = s.nameservers;
      })
      s.backend

-- The types that ask for addresses.
abbrev pub AsksAddress : RecordType → Type 0
AsksAddress type_a = Unit
AsksAddress type_aaaa = Unit
AsksAddress type_ptr = ⊥
AsksAddress (type_other n) = ⊥

module _ {Name Message : Type 0} (h : Hickory Name Message) (unicode : Str → Str)
    (core : CoreDnsData) (src_address : SocketAddr) (request_name : Name) (req : Message) where
  abbrev found_ips : List IpAddr
  found_ips =
      found (
        lookup unicode core.backend (ip_of src_address) core.network_name
          (h.to_string request_name))

  abbrev pub answer_with : RecordType → List IpAddr → Message
  answer_with record_type ips =
      foldl h.add_answer req (flat_map (record_for request_name record_type) ips)

  answers_by :
      (record_type : RecordType)
      → AsksAddress record_type
      → local_answer h unicode core request_name record_type src_address req
        ≡ Option.map (answer_with record_type) (
            lookup unicode core.backend
              (ip_of src_address)
              core.network_name
              (h.to_string request_name))
  unfolding local_answer
  answers_by type_a asks =
      reply_ip-records h unicode (h.to_string request_name) request_name core.network_name type_a
        core.backend src_address req
  answers_by type_aaaa asks =
      reply_ip-records h unicode (h.to_string request_name) request_name core.network_name type_aaaa
        core.backend src_address req
  answers_by type_ptr asks = elim asks [ ]
  answers_by (type_other _) asks = elim asks [ ]

  -- With an address there is an answer, without one there is none.
  answers_some :
      (record_type : RecordType)
      → AsksAddress record_type
      → found_ips ≢ []
      → local_answer h unicode core request_name record_type src_address req
        ≡ some (answer_with record_type found_ips)
  answers_some record_type asks listed =
      elim (Option-cases (
        lookup unicode core.backend (ip_of src_address) core.network_name
          (h.to_string request_name))) [
            | inl lost ↦ absurd (listed (rw lost refl))
            | inr (ips, known) ↦ rw (answers_by record_type asks, known) refl
          ]

  answers_none :
      (record_type : RecordType)
      → AsksAddress record_type
      → found_ips ≡ []
      → local_answer h unicode core request_name record_type src_address req ≡ none
  answers_none record_type asks nothing =
      let name = h.to_string request_name in
      let requester = ip_of src_address in
      let lost = (lookup-none unicode core.backend requester core.network_name name).1 (λ ip r.
        subst (Has ip) nothing
          ((lookup-Resolves unicode core.backend requester core.network_name name ip).1 r)) in
      rw (answers_by record_type asks, lost) refl

module _ {Name Message : Type 0} (h : Hickory Name Message) (setup : Setup) (world : World)
    (IsVisit-v4 : IsVisit setup.visit_v4) (IsVisit-v6 : IsVisit setup.visit_v6)
    (all : VisitsAll setup.order) (configs : List (Result DirEntry IoError))
    (listing : world.files.read_dir setup.config_path ≡ ok configs) where
  -- The files declare the address under the name's key for a network that the requester sees.
  abbrev pub Resolvable : Str → Str → IpAddr → IpAddr → Type 0
  Resolvable network name requester ip =
      (net : Str) × Sees setup.unicode world.files configs requester network net
      × Declared setup.unicode world.files configs net
          (lookup_key setup.unicode (close_domain setup.filter_search_domain) name) ip

  module _ (core : CoreDnsData) (src_address : SocketAddr) (proto : Protocol) (msg : List ℕ)
      (request_name : Name) (record_type : RecordType) (req : Message) where
    -- How a request for the addresses of a name is handled: `ips` are the addresses that can be
    -- resolved; if there are any, the only effect is the reply with their records, and else the
    -- store has no answer.
    pub record Answered : Type 0 where
      pub ips : List IpAddr
      pub resolvable :
          (ip : IpAddr)
          → Has ip ips
            ↔ Resolvable core.network_name (h.to_string request_name) (ip_of src_address) ip
      pub replied :
          ips ≢ []
          → process_message h setup.unicode core src_address proto msg
            ≡ sent h setup.unicode core (
                reply h src_address
                  (answer_with h setup.unicode core src_address request_name req record_type ips))
      pub unanswered :
          ips ≡ []
          → local_answer h setup.unicode core request_name record_type src_address req ≡ none

  -- From distinct keys, after a reload that returned `Ok`, a listener has data, and answers a
  -- request for the addresses of a name with the addresses that the files of the directory declare
  -- under the name's key for the networks that the requester sees.
  pub read_config_and_spawn-Answered :
      (s s' : Server)
      → IsWellFormed s
      → read_config_and_spawn setup world s ≡ returned s' (ok tt)
      → (network : Str) (no_proxy : Bool) (src_address : SocketAddr) (proto : Protocol)
        (msg : List ℕ) (request_name : Name) (record_type : RecordType) (req : Message)
      → AsksAddress record_type
      → parse_dns_msg h msg ≡ some (request_name, record_type, req)
      → (core : CoreDnsData) × (listener_data s' network no_proxy ≡ some core)
        × (core.network_name ≡ network)
        × Answered core src_address proto msg request_name record_type req
  read_config_and_spawn-Answered s s' w reloaded network no_proxy src_address proto msg request_name
        record_type req asks parsed =
      let serving =
        read_config_and_spawn-Serving setup world IsVisit-v4 IsVisit-v6 s s' w reloaded in
      let core : CoreDnsData = record {
        network_name = network;
        backend = serving.parsed.backend;
        no_proxy = no_proxy;
        nameservers = s'.nameservers;
      } in
      (
        core,
        rw serving.store refl,
        refl,
        record {
          ips = found_ips h setup.unicode core src_address request_name req;
          resolvable = λ ip.
              lookup-Sees setup.unicode setup.order setup.filter_search_domain world.files
                setup.config_path serving.parsed configs all listing serving.read
                (ip_of src_address) ip network (h.to_string request_name);
          replied = λ listed.
              when_answered h setup.unicode core src_address proto msg request_name record_type req
                parsed _
                (answers_some h setup.unicode core src_address request_name req record_type asks
                  listed);
          unanswered = λ nothing.
              answers_none h setup.unicode core src_address request_name req record_type asks
                nothing;
        },
      )
