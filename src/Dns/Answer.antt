-- ===== src/Dns/Answer.antt =====
-- `reply_ip` and `reply_ptr` of src/dns/coredns.rs.
pub mod Records
pub mod Pointer
use aardvark_dns.Prelude.{
  ℕ, Bool, true, false, ◌&&◌, ltb, nat_beq, ◌+◌, ◌%◌, List, [], ◌∷◌, ◌++◌, reverse, Option, none,
  some, if◌then◌else◌,
}
use aardvark_dns.Text.{Str, codes, strip_suffix}
use aardvark_dns.Text.Split.{split, join}
use aardvark_dns.Result.{Result, ok, err}
use aardvark_dns.Net.Addr.{IpAddr, v4, v6, SocketAddr, ip_of}
use aardvark_dns.Net.Parser.{parse_ip}
use aardvark_dns.Backend.{DnsBackend, lookup, reverse_lookup}
use aardvark_dns.Dns.Message.{
  RecordType, type_a, type_aaaa, type_ptr, type_other, RData, rdata_a, rdata_aaaa, rdata_ptr,
  Record, Hickory,
}

-- The hexadecimal digits from the last to the first, a colon behind every fourth but the last.
unfoldable pub push_digits : ℕ → List Str → Str
push_digits i [] = []
push_digits i (c ∷ cs) =
    let rest = push_digits (i + 1) cs in
    c ++ (if nat_beq (i % 4) 3 && ltb i 31 then b':' ∷ rest else rest)

-- The text of the address that a name under `in-addr.arpa` or `ip6.arpa` asks for.
unfoldable pub ptr_lookup_ip : Str → Option Str
unfolding push_digits
ptr_lookup_ip name = elim (strip_suffix name (codes ".in-addr.arpa.")) [
  | some n ↦ some (join (b'.' ∷ []) (reverse (split b'.' n)))
  | none ↦ elim (strip_suffix name (codes ".ip6.arpa.")) [
    | some n ↦ some (push_digits 0 (reverse (split b'.' n)))
    | none ↦ none
  ]
]

module _ {Name Message : Type 0} (h : Hickory Name Message) where
  -- The loop over the addresses: those of the family that was asked for become answers.
  unfoldable pub add_addresses : Name → RecordType → Message → List IpAddr → Message
  add_addresses request_name record_type req [] = req
  add_addresses request_name type_a req (v4 ip ∷ ips) =
      add_addresses request_name type_a
        (h.add_answer req (record { name = request_name; ttl = 0; rdata = rdata_a ip })) ips
  add_addresses request_name type_aaaa req (v6 ip ∷ ips) =
      add_addresses request_name type_aaaa
        (h.add_answer req (record { name = request_name; ttl = 0; rdata = rdata_aaaa ip })) ips
  add_addresses request_name record_type req (ip ∷ ips) =
      add_addresses request_name record_type req ips

  -- `unicode` is the lower-case table of `lookup`.
  unfoldable pub reply_ip :
      (Str → Str)
      → Str
      → Name
      → Str
      → RecordType
      → DnsBackend
      → SocketAddr
      → Message
      → Option Message
  unfolding add_addresses
  reply_ip unicode name request_name network_name record_type backend src_address req =
      elim (lookup unicode backend (ip_of src_address) network_name name) [
        | none ↦ none
        | some ips ↦ some (add_addresses request_name record_type req ips)
      ]

  abbrev name_or_default : Option Name → Name
  name_or_default none = h.default_name
  name_or_default (some name) = name

  -- The loop over the names; one that is no name is skipped.
  unfoldable pub add_names : Str → Message → List Str → Message
  add_names name req [] = req
  add_names name req (entry ∷ entries) = elim (h.from_ascii (entry ++ b'.' ∷ [])) [
    | none ↦ add_names name req entries
    | some answer ↦
        add_names name
          (h.add_answer req (record {
            name = name_or_default (h.from_str_relaxed name);
            ttl = 0;
            rdata = rdata_ptr answer;
          }))
          entries
  ]

  -- The answer to the address that was read.
  unfoldable pub answer_ptr : Str → DnsBackend → SocketAddr → Message → IpAddr → Option Message
  unfolding add_names
  answer_ptr name backend src_address req lookup_ip =
      elim (reverse_lookup backend (ip_of src_address) lookup_ip) [
        | none ↦ none
        | some names ↦ some (add_names name req names)
      ]

  unfoldable pub reply_ptr : Str → DnsBackend → SocketAddr → Message → Option Message
  unfolding ptr_lookup_ip answer_ptr
  reply_ptr name backend src_address req = elim (ptr_lookup_ip name) [
    | none ↦ none
    | some text ↦ elim (parse_ip text) [
      | err e ↦ none
      | ok lookup_ip ↦ answer_ptr name backend src_address req lookup_ip
    ]
  ]
