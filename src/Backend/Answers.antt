-- ===== src/Backend/Answers.antt =====
-- What `lookup` answers: the addresses of the name in the networks that the requester can see.
use aardvark_dns.Prelude.{
  ◌≡◌, ◌↔◌, ◌⊎◌, refl, inl, inr, true, [], ◌∷◌, ◌++◌, List, none, Has, Has-append_left,
  Has-append_right, Has-append_split, map, subst,
}
use aardvark_dns.Text.{Str, str_eq}
use aardvark_dns.Text.Case.{is_ascii}
use aardvark_dns.Text.Lower.{
  ascii_upper, to_lowercase_ascii, ascii_lower-ascii_upper, is_ascii-ascii_upper,
}
use aardvark_dns.HashMap.{get, found}
use aardvark_dns.Net.Addr.{IpAddr, ip_eq}
use aardvark_dns.Backend.{DnsBackend, lookup_key, nets_or, names_in, lookup_in, some_if_any, lookup}

-- The networks whose names a requester can see: its own, or the one that was asked if the
-- requester is not known.
abbrev pub visible_nets : DnsBackend → Str → IpAddr → List Str
visible_nets b network requester = nets_or network (get b.ip_mappings requester)

-- `ip` is an address of `name` in one of the networks.
abbrev pub Resolves : DnsBackend → List Str → Str → IpAddr → Type 0
Resolves b nets name ip =
    (net : Str) × Has net nets × Has ip (names_in (get b.name_mappings net) name)

module _ (b : DnsBackend) (name : Str) (ip : IpAddr) where
  lookup_in_sound :
      (nets : List Str) (results : List IpAddr)
      → Has ip (lookup_in b name results nets)
      → Has ip results ⊎ Resolves b nets name ip
  unfolding lookup_in
  lookup_in_sound [] results h = inl h
  lookup_in_sound (net ∷ nets) results h =
      let here = names_in (get b.name_mappings net) name in
      elim (lookup_in_sound nets (results ++ here) h) [
        | inl old ↦ elim (Has-append_split ip results here old) [
          | inl before ↦ inl before
          | inr now ↦ inr (net, inl refl, now)
        ]
        | inr (n, m, a) ↦ inr (n, inr m, a)
      ]

  lookup_in-keeps :
      (nets : List Str) (results : List IpAddr)
      → Has ip results
      → Has ip (lookup_in b name results nets)
  unfolding lookup_in
  lookup_in-keeps [] results h = h
  lookup_in-keeps (net ∷ nets) results h =
      lookup_in-keeps nets (results ++ names_in (get b.name_mappings net) name)
        (Has-append_left ip results _ h)

  lookup_in_complete :
      (nets : List Str) (results : List IpAddr) (net : Str)
      → Has net nets
      → Has ip (names_in (get b.name_mappings net) name)
      → Has ip (lookup_in b name results nets)
  unfolding lookup_in
  lookup_in_complete [] results net m a = elim m [ ]
  lookup_in_complete (n ∷ nets) results net (inl e) a =
      lookup_in-keeps nets (results ++ names_in (get b.name_mappings n) name) (
        Has-append_right ip results _
          (subst (λ k. Has ip (names_in (get b.name_mappings k) name)) e a))
  lookup_in_complete (n ∷ nets) results net (inr m) a =
      lookup_in_complete nets (results ++ names_in (get b.name_mappings n) name) net m a

found-some_if_any : (rs : List IpAddr) → found (some_if_any rs) ≡ rs
found-some_if_any [] = refl
found-some_if_any (r ∷ rs) = refl

no_items :
    (rs : List IpAddr) → ((ip : IpAddr) → ¬ Has ip (found (some_if_any rs))) → some_if_any rs ≡ none
no_items [] h = refl
no_items (r ∷ rs) h = absurd (h r (inl refl))

module _ (unicode : Str → Str) (b : DnsBackend) (requester : IpAddr) (network entry : Str) where
  empty_none :
      ((ip : IpAddr) → ¬ Has ip (found (lookup unicode b requester network entry)))
      → lookup unicode b requester network entry ≡ none
  unfolding lookup
  empty_none h =
      no_items
        (lookup_in b (lookup_key unicode b.search_domain entry) []
          (visible_nets b network requester))
        h

module _ (unicode : Str → Str) (b : DnsBackend) (requester : IpAddr) (network entry : Str) where
  -- An address is in the answer exactly when it is an address of the name's key in a network that
  -- the requester can see: its own networks, or the asked one if the requester is not known.
  pub lookup-Resolves :
      (ip : IpAddr)
      → Has ip (found (lookup unicode b requester network entry))
        ↔ Resolves b
            (visible_nets b network requester)
            (lookup_key unicode b.search_domain entry)
            ip
  unfolding lookup
  lookup-Resolves ip =
      let name = lookup_key unicode b.search_domain entry in
      let nets = visible_nets b network requester in
      rw (found-some_if_any (lookup_in b name [] nets)) (
        (λ h. elim (lookup_in_sound b name ip nets [] h) [
          | inl none_yet ↦ absurd none_yet
          | inr r ↦ r
        ]),
        (λ (net, m, a). lookup_in_complete b name ip nets [] net m a),
      )

  -- There is no answer exactly when no address resolves: an answer is never an empty list.
  pub lookup-none : (lookup unicode b requester network entry ≡ none) ↔ (
      (ip : IpAddr)
      → ¬ Resolves b
          (visible_nets b network requester)
          (lookup_key unicode b.search_domain entry)
          ip)
  lookup-none = (
    λ h ip r. rw h at ((lookup-Resolves ip).1 r),
    λ none_resolves.
        empty_none unicode b requester network entry
          (λ ip h. none_resolves ip ((lookup-Resolves ip).0 h)),
  )

-- A name is found in any case of its letters: an ASCII name in upper case has the same answer.
pub lookup-ascii_upper :
    (unicode : Str → Str) (b : DnsBackend) (requester : IpAddr) (network entry : Str)
    → is_ascii entry ≡ true
    → lookup unicode b requester network (map ascii_upper entry)
      ≡ lookup unicode b requester network entry
unfolding lookup lookup_key
lookup-ascii_upper unicode b requester network entry ascii = rw (
  to_lowercase_ascii unicode entry ascii,
  to_lowercase_ascii unicode (map ascii_upper entry) (is_ascii-ascii_upper entry ascii),
  ascii_lower-ascii_upper entry,
)
