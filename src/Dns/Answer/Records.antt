-- ===== src/Dns/Answer/Records.antt =====
-- `reply_ip`: the records of an answer.
use mathlib.Core.Option
use mathlib.Core.List.{foldl, flat_map}
use aardvark_dns.Prelude.{◌≡◌, inl, inr, refl, ap, List, [], ◌∷◌, some, Option-cases}
use aardvark_dns.Text.{Str}
use aardvark_dns.Net.Addr.{IpAddr, v4, v6, SocketAddr, ip_of}
use aardvark_dns.Backend.{DnsBackend, lookup}
use aardvark_dns.Dns.Message.{
  RecordType, type_a, type_aaaa, type_ptr, type_other, rdata_a, rdata_aaaa, Record, Hickory,
}
use aardvark_dns.Dns.Answer.{add_addresses, reply_ip}

-- The record of an address, if it is of the family that was asked for.
abbrev pub record_for : {Name : Type 0} → Name → RecordType → IpAddr → List (Record Name)
record_for name type_a (v4 ip) = record { name = name; ttl = 0; rdata = rdata_a ip } ∷ []
record_for name type_aaaa (v6 ip) = record { name = name; ttl = 0; rdata = rdata_aaaa ip } ∷ []
record_for name _ _ = []

module _ {Name Message : Type 0} (h : Hickory Name Message) where
  add_addresses-foldl :
      (name : Name) (record_type : RecordType) (req : Message) (ips : List IpAddr)
      → add_addresses h name record_type req ips
        ≡ foldl h.add_answer req (flat_map (record_for name record_type) ips)
  unfolding add_addresses flat_map
  add_addresses-foldl name type_a req [] = refl
  add_addresses-foldl name type_aaaa req [] = refl
  add_addresses-foldl name type_ptr req [] = refl
  add_addresses-foldl name (type_other n) req [] = refl
  add_addresses-foldl name type_a req (v4 ip ∷ ips) =
      add_addresses-foldl name type_a
        (h.add_answer req (record { name = name; ttl = 0; rdata = rdata_a ip })) ips
  add_addresses-foldl name type_a req (v6 ip ∷ ips) = add_addresses-foldl name type_a req ips
  add_addresses-foldl name type_aaaa req (v4 ip ∷ ips) = add_addresses-foldl name type_aaaa req ips
  add_addresses-foldl name type_aaaa req (v6 ip ∷ ips) =
      add_addresses-foldl name type_aaaa
        (h.add_answer req (record { name = name; ttl = 0; rdata = rdata_aaaa ip })) ips
  add_addresses-foldl name type_ptr req (ip ∷ ips) = add_addresses-foldl name type_ptr req ips
  add_addresses-foldl name (type_other n) req (ip ∷ ips) =
      add_addresses-foldl name (type_other n) req ips

  -- A request has a local answer exactly when the lookup finds an address; the answer is the
  -- request with a record of TTL 0 for each address of the family that was asked for, in order,
  -- and with none if all are of the other family.
  pub reply_ip-records :
      (unicode : Str → Str) (name : Str) (request_name : Name) (network_name : Str)
      (record_type : RecordType) (backend : DnsBackend) (src_address : SocketAddr) (req : Message)
      → reply_ip h unicode name request_name network_name record_type backend src_address req
        ≡ Option.map
            (λ ips. foldl h.add_answer req (flat_map (record_for request_name record_type) ips))
            (lookup unicode backend (ip_of src_address) network_name name)
  unfolding reply_ip
  reply_ip-records unicode name request_name network_name record_type backend src_address req =
      elim (Option-cases (lookup unicode backend (ip_of src_address) network_name name)) [
        | inl lost ↦ rw (lost, reply_ip) refl
        | inr (ips, known) ↦
            rw (known, reply_ip) (ap some (add_addresses-foldl request_name record_type req ips))
      ]
