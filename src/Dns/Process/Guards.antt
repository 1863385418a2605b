-- ===== src/Dns/Process/Guards.antt =====
-- Which requests `process_message` answers itself and which it passes on.
use aardvark_dns.Prelude.{
  ℕ, ◌≡◌, ◌↔◌, ◌⊎◌, inl, inr, refl, ◌∙◌, subst, Bool, true, false, ◌||◌, List, [], ◌∷◌, none, some,
  Has, Option-cases, Bool-cases,
}
use aardvark_dns.Text.{Str, ends_with}
use aardvark_dns.Net.Addr.{SocketAddr, ip_of}
use aardvark_dns.Backend.{ctr_is_internal}
use aardvark_dns.Dns.Message.{
  RecordType, Hickory, Protocol, Effect, send, forward, response_of, reply, parse_dns_msg,
}
use aardvark_dns.Dns.Process.{
  CoreDnsData, upstream_servers, local_answer, stays_local, sent, process_request, process_message,
}

either-false : (a b c : Bool) → (a || (b || c)) ≡ false → (a ≡ false) × (b ≡ false) × (c ≡ false)
either-false false false false e = (refl, refl, refl)
either-false true b c e = cc
either-false false true c e = cc
either-false false false true e = cc

module _ {Name Message : Type 0} (h : Hickory Name Message) (unicode : Str → Str)
    (core : CoreDnsData) (src_address : SocketAddr) (proto : Protocol) where
  -- The request may be passed on, and to these servers.
  pub record MayForward (msg : List ℕ) (nameservers : List SocketAddr) (request : Message)
      (by : Protocol) : Type 0 where
    pub request_name : Name
    pub record_type : RecordType
    pub parsed : parse_dns_msg h msg ≡ some (request_name, record_type, request)
    pub no_local_answer :
        local_answer h unicode core request_name record_type src_address request ≡ none
    pub may_proxy : core.no_proxy ≡ false
    pub not_internal : ctr_is_internal core.backend (ip_of src_address) ≡ false
    pub not_own_domain : ends_with (h.to_string request_name) core.backend.search_domain ≡ false
    pub servers : nameservers ≡ upstream_servers core (ip_of src_address)
    pub same_protocol : by ≡ proto

  reply-sends :
      (msg : Message) (nameservers : List SocketAddr) (request : Message) (by : Protocol)
      → Has (forward nameservers request by) (sent h unicode core (reply h src_address msg))
      → ⊥
  unfolding reply
  reply-sends msg nameservers request by m = elim (Option-cases (h.to_vec (response_of h msg))) [
    | inl lost ↦ absurd (rw (lost, reply) at m)
    | inr (bytes, encoded) ↦ is_send bytes (rw (encoded, reply) at m)
  ]
    where
      is_send : (bytes : List ℕ) → (forward nameservers request by ≡ send bytes src_address) ⊎ ⊥ → ⊥
      is_send bytes (inl e) = cc
      is_send bytes (inr x) = x

  abbrev nx_reply : Message → List (Effect Message)
  nx_reply req = sent h unicode core (reply h src_address (h.set_nx_domain (h.into_response req)))

  abbrev handled : List ℕ → List (Effect Message)
  handled msg = process_message h unicode core src_address proto msg

  module _ (msg : List ℕ) (request_name : Name) (record_type : RecordType) (req : Message)
      (parsed : parse_dns_msg h msg ≡ some (request_name, record_type, req)) where
    pub when_answered :
        (m : Message)
        → local_answer h unicode core request_name record_type src_address req ≡ some m
        → handled msg ≡ sent h unicode core (reply h src_address m)
    unfolding process_message process_request
    when_answered m answered = rw (parsed, answered, process_message, process_request) refl

    module _
        (no_answer : local_answer h unicode core request_name record_type src_address req
          ≡ none) where
      when_local :
          stays_local h unicode core (h.to_string request_name) (ip_of src_address) ≡ true
          → handled msg ≡ nx_reply req
      unfolding process_message process_request
      when_local stays = rw (parsed, no_answer, stays, process_message, process_request) refl

      when_passed :
          stays_local h unicode core (h.to_string request_name) (ip_of src_address) ≡ false
          → handled msg ≡ forward (upstream_servers core (ip_of src_address)) req proto ∷ []
      unfolding process_message process_request
      when_passed leaves = rw (parsed, no_answer, leaves, process_message, process_request) refl

  when_ignored : (msg : List ℕ) → parse_dns_msg h msg ≡ none → handled msg ≡ []
  unfolding process_message
  when_ignored msg lost = rw (lost, process_message) refl

  -- What is known of a request, and what became of it.
  data Handling (msg : List ℕ) : Type 0 where
    ignored : parse_dns_msg h msg ≡ none → handled msg ≡ [] → Handling msg
    answered :
        (request_name : Name) (record_type : RecordType) (req m : Message)
        → parse_dns_msg h msg ≡ some (request_name, record_type, req)
        → local_answer h unicode core request_name record_type src_address req ≡ some m
        → handled msg ≡ sent h unicode core (reply h src_address m)
        → Handling msg
    refused :
        (request_name : Name) (record_type : RecordType) (req : Message)
        → parse_dns_msg h msg ≡ some (request_name, record_type, req)
        → local_answer h unicode core request_name record_type src_address req ≡ none
        → stays_local h unicode core (h.to_string request_name) (ip_of src_address) ≡ true
        → handled msg ≡ nx_reply req
        → Handling msg
    passed :
        (request_name : Name) (record_type : RecordType) (req : Message)
        → parse_dns_msg h msg ≡ some (request_name, record_type, req)
        → local_answer h unicode core request_name record_type src_address req ≡ none
        → stays_local h unicode core (h.to_string request_name) (ip_of src_address) ≡ false
        → handled msg ≡ forward (upstream_servers core (ip_of src_address)) req proto ∷ []
        → Handling msg

  handling : (msg : List ℕ) → Handling msg
  handling msg = elim (Option-cases (parse_dns_msg h msg)) [
    | inl lost ↦ ignored lost (when_ignored msg lost)
    | inr ((name, query, req), parsed) ↦
        elim (Option-cases (local_answer h unicode core name query src_address req)) [
          | inr (m, known) ↦
              answered name query req m parsed known
                (when_answered msg name query req parsed m known)
          | inl unknown ↦
              elim (Bool-cases
                (stays_local h unicode core (h.to_string name) (ip_of src_address))) [
                  | inl stays ↦
                      refused name query req parsed unknown stays
                        (when_local msg name query req parsed unknown stays)
                  | inr leaves ↦
                      passed name query req parsed unknown leaves
                        (when_passed msg name query req parsed unknown leaves)
                ]
        ]
  ]

  abbrev Passes : List ℕ → List SocketAddr → Message → Protocol → Type 0
  Passes msg nameservers request by = Has (forward nameservers request by) (handled msg)

  only_if :
      (msg : List ℕ) (nameservers : List SocketAddr) (request : Message) (by : Protocol)
      → Passes msg nameservers request by
      → MayForward msg nameservers request by
  unfolding stays_local
  only_if msg nameservers request by m = elim (handling msg) [
    | ignored _ e ↦ absurd (rw e at m)
    | answered _ _ _ answer _ _ e ↦ absurd (
        reply-sends answer nameservers request by
          (subst (Has (forward nameservers request by)) e m))
    | refused _ _ req _ _ _ e ↦ absurd (
        reply-sends (h.set_nx_domain (h.into_response req)) nameservers request by
          (subst (Has (forward nameservers request by)) e m))
    | passed name query req parsed unknown leaves e ↦
        one name query req parsed unknown leaves (subst (Has (forward nameservers request by)) e m)
  ]
    where
      one :
          (name : Name) (query : RecordType) (req : Message)
          → parse_dns_msg h msg ≡ some (name, query, req)
          → local_answer h unicode core name query src_address req ≡ none
          → stays_local h unicode core (h.to_string name) (ip_of src_address) ≡ false
          → Has
              (forward nameservers request by)
              (forward (upstream_servers core (ip_of src_address)) req proto ∷ [])
          → MayForward msg nameservers request by
      one name query req parsed unknown leaves (inr x) = absurd x
      one name query req parsed unknown leaves (inl same) =
          let eqs : (nameservers ≡ upstream_servers core (ip_of src_address))
              × ((request ≡ req) × (by ≡ proto)) =
            (cc, (cc, cc)) in
          let reasons =
            either-false core.no_proxy (ctr_is_internal core.backend (ip_of src_address))
              (ends_with (h.to_string name) core.backend.search_domain) leaves in
          record {
            request_name = name;
            record_type = query;
            parsed = rw eqs.1.0 parsed;
            no_local_answer = rw eqs.1.0 unknown;
            may_proxy = reasons.0;
            not_internal = reasons.1;
            not_own_domain = reasons.2;
            servers = eqs.0;
            same_protocol = eqs.1.1;
          }

  if_may :
      (msg : List ℕ) (nameservers : List SocketAddr) (request : Message) (by : Protocol)
      → MayForward msg nameservers request by
      → Passes msg nameservers request by
  unfolding stays_local
  if_may msg nameservers request by may =
      rw
        (
          when_passed msg may.request_name may.record_type request may.parsed may.no_local_answer
              (rw (may.may_proxy, may.not_internal, may.not_own_domain) refl),
          may.servers,
          may.same_protocol,
        )
        (inl refl)

  -- A request is passed on exactly when it was parsed, the backend has no answer for it, forwarding
  -- is not turned off, the client is not a container of internal networks only, and the name is
  -- not in the search domain; it goes to the servers of the container, its networks or the host.
  pub process_message-MayForward :
      (msg : List ℕ) (nameservers : List SocketAddr) (request : Message) (by : Protocol)
      → Has (forward nameservers request by) (process_message h unicode core src_address proto msg)
        ↔ MayForward msg nameservers request by
  process_message-MayForward msg nameservers request by =
      (only_if msg nameservers request by, if_may msg nameservers request by)

  -- The one effect of a request: the backend's answer or NXDomain, encoded and sent to the client
  -- that asked, or the request passed on over the protocol that it came in on.
  pub data OneEffect (msg : List ℕ) : Type 0 where
    replied :
        (request_name : Name) (record_type : RecordType) (req m : Message) (bytes : List ℕ)
        → parse_dns_msg h msg ≡ some (request_name, record_type, req)
        → local_answer h unicode core request_name record_type src_address req ≡ some m
        → h.to_vec (response_of h m) ≡ some bytes
        → process_message h unicode core src_address proto msg ≡ send bytes src_address ∷ []
        → OneEffect msg
    no_such_domain :
        (request_name : Name) (record_type : RecordType) (req : Message) (bytes : List ℕ)
        → parse_dns_msg h msg ≡ some (request_name, record_type, req)
        → local_answer h unicode core request_name record_type src_address req ≡ none
        → h.to_vec (response_of h (h.set_nx_domain (h.into_response req))) ≡ some bytes
        → process_message h unicode core src_address proto msg ≡ send bytes src_address ∷ []
        → OneEffect msg
    passed_on :
        (request_name : Name) (record_type : RecordType) (req : Message)
        → parse_dns_msg h msg ≡ some (request_name, record_type, req)
        → local_answer h unicode core request_name record_type src_address req ≡ none
        → process_message h unicode core src_address proto msg
          ≡ forward (upstream_servers core (ip_of src_address)) req proto ∷ []
        → OneEffect msg

  module _ (encodes : (m : Message) → (bytes : List ℕ) × (h.to_vec m ≡ some bytes)) where
    reply-one :
        (m : Message)
        → (bytes : List ℕ) × (h.to_vec (response_of h m) ≡ some bytes)
          × (sent h unicode core (reply h src_address m) ≡ send bytes src_address ∷ [])
    unfolding reply
    reply-one m =
        let (bytes, encoded) = encodes (response_of h m) in
        (bytes, encoded, rw (encoded, reply) refl)

    -- If every message can be encoded, a request that is parsed has one effect: the backend's
    -- answer or NXDomain is encoded and sent to the address that asked, or the request is passed
    -- on over the protocol that it came in on; what cannot be parsed has no effect.
    pub process_message-one :
        (msg : List ℕ)
        → ((parse_dns_msg h msg ≡ none)
            × (process_message h unicode core src_address proto msg ≡ []))
          ⊎ OneEffect msg
    process_message-one msg = elim (handling msg) [
      | ignored lost e ↦ inl (lost, e)
      | answered name query req answer parsed known e ↦
          let (bytes, encoded, one) = reply-one answer in
          inr (replied name query req answer bytes parsed known encoded (e ∙ one))
      | refused name query req parsed unknown _ e ↦
          let (bytes, encoded, one) = reply-one (h.set_nx_domain (h.into_response req)) in
          inr (no_such_domain name query req bytes parsed unknown encoded (e ∙ one))
      | passed name query req parsed unknown _ e ↦ inr (passed_on name query req parsed unknown e)
    ]
