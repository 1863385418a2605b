-- ===== src/Backend/Reverse.antt =====
-- `reverse_lookup`: the names of an address, from the first network of the requester that has it.
use aardvark_dns.Prelude.{
  ◌≡◌, ◌↔◌, refl, ap, [], ◌∷◌, ◌++◌, List, Option, none, some, arith, All, Option-cases, inl, inr,
}
use aardvark_dns.Text.{Str, str_eq}
use aardvark_dns.HashMap.{get}
use aardvark_dns.Net.Addr.{IpAddr, ip_eq}
use aardvark_dns.Backend.{DnsBackend, reverse_in, reverse_lookup}

module _ (b : DnsBackend) (lookup_ip : IpAddr) where
  -- The names of the address in one network.
  abbrev pub names_at : Str → Option (List Str)
  names_at net = elim (get b.reverse_mappings net) [ none ↦ none | some ips ↦ get ips lookup_ip ]

  -- `names` are the names of the address in a network before which no network has the address.
  pub record First (nets : List Str) (names : List Str) : Type 0 where
    pub before : List Str
    pub net : Str
    pub after : List Str
    pub splits : nets ≡ before ++ net ∷ after
    pub misses : All (λ n. names_at n ≡ none) before
    pub hit : names_at net ≡ some names

  miss_step :
      (net : Str) (nets : List Str)
      → names_at net ≡ none
      → reverse_in b lookup_ip (net ∷ nets) ≡ reverse_in b lookup_ip nets
  unfolding reverse_in
  miss_step net nets h = ground arith

  hit_step :
      (net : Str) (nets names : List Str)
      → names_at net ≡ some names
      → reverse_in b lookup_ip (net ∷ nets) ≡ some names
  unfolding reverse_in
  hit_step net nets names h = ground arith

  First-here :
      (net : Str) (nets names : List Str) → names_at net ≡ some names → First (net ∷ nets) names
  First-here net nets names h = record {
    before = [];
    net = net;
    after = nets;
    splits = refl;
    misses = tt;
    hit = h;
  }

  First-later :
      (net : Str) (nets names : List Str)
      → names_at net ≡ none
      → First nets names
      → First (net ∷ nets) names
  First-later net nets names h f = record {
    before = net ∷ f.before;
    net = f.net;
    after = f.after;
    splits = ap (λ (ns : List Str). net ∷ ns) f.splits;
    misses = (h, f.misses);
    hit = f.hit;
  }

  reverse_in-First :
      (nets names : List Str) → reverse_in b lookup_ip nets ≡ some names → First nets names
  unfolding reverse_in
  reverse_in-First [] names h = cc
  reverse_in-First (net ∷ nets) names h = elim (Option-cases (names_at net)) [
    | inl miss ↦
        First-later net nets names miss (reverse_in-First nets names (cc (miss_step net nets miss)))
    | inr (ns, hit) ↦ First-here net nets names (cc (hit_step net nets ns hit))
  ]

  reverse_in-none :
      (nets : List Str) → (reverse_in b lookup_ip nets ≡ none) ↔ All (λ n. names_at n ≡ none) nets
  unfolding reverse_in
  reverse_in-none [] = ground arith
  reverse_in-none (net ∷ nets) = elim (Option-cases (names_at net)) [
    | inl miss ↦
        rw (miss_step net nets miss)
          (λ h. (miss, (reverse_in-none nets).0 h), λ h. (reverse_in-none nets).1 h.1)
    | inr (ns, hit) ↦ rw (hit_step net nets ns hit) (λ h. cc, λ h. cc (h.0))
  ]

module _ (b : DnsBackend) (requester lookup_ip : IpAddr) where
  -- The names that are found are those of the first network of the requester that has the
  -- address, and the requester is known.
  pub reverse_lookup-First :
      {names : List Str}
      → reverse_lookup b requester lookup_ip ≡ some names
      → (nets : List Str) × (get b.ip_mappings requester ≡ some nets) × First b lookup_ip nets names
  unfolding reverse_lookup
  reverse_lookup-First {names} h = elim (Option-cases (get b.ip_mappings requester)) [
    | inl unknown ↦ cc
    | inr (nets, known) ↦
        (nets, known, reverse_in-First b lookup_ip nets names (rw (known, reverse_lookup) at h))
  ]

  -- A known requester gets nothing exactly when none of its networks has the address.
  pub reverse_lookup-none :
      (nets : List Str)
      → get b.ip_mappings requester ≡ some nets
      → (reverse_lookup b requester lookup_ip ≡ none)
        ↔ All (λ n. names_at b lookup_ip n ≡ none) nets
  unfolding reverse_lookup
  reverse_lookup-none nets known = rw (known, reverse_lookup) (reverse_in-none b lookup_ip nets)
