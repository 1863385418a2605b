-- ===== src/Config/Contents/Build.antt =====
-- The last loop of `parse_configs`: from the containers to the networks of each address.
use aardvark_dns.Prelude.{
  ◌≡◌, ◌≢◌, ◌↔◌, ◌⊎◌, inl, inr, refl, sym, subst, ap, ◌∙◌, ◌++◌, [], ◌∷◌, List, Has, Option-cases,
  none, some,
}
use aardvark_dns.Text.{Str, str_eq}
use aardvark_dns.Result.{ok, ok-injective}
use aardvark_dns.HashMap.{HashMap, get, found, entry_or}
use aardvark_dns.HashMap.Members.{entry_or_step, append_step}
use aardvark_dns.HashMap.Visits.{known-entry_or}
use aardvark_dns.Net.Addr.{IpAddr, ip_eq}
use aardvark_dns.Config.Directory.{add_networks, build_ctrs}

add_networks_step :
    (networks : List Str) (ip : IpAddr) (net : Str) (ips : List IpAddr)
    (ctrs : HashMap IpAddr (List Str))
    → Has net (found (get (add_networks networks ctrs ips) ip))
      ↔ (Has net (found (get ctrs ip)) ⊎ (Has ip ips × Has net networks))
unfolding add_networks
add_networks_step networks ip net [] ctrs =
    (λ h. inl h, λ h. elim h [ inl l ↦ l | inr (m, _) ↦ absurd m ])
add_networks_step networks ip net (x ∷ ips) ctrs =
    let now =
      entry_or_step [] ctrs x ip (λ old. old ++ networks) (Has net) (Has net networks)
        (append_step net networks) in
    let later =
      add_networks_step networks ip net ips (entry_or [] ctrs x (λ old. old ++ networks)) in
    (
      λ h. elim (later.0 h) [
        | inl l ↦ elim (now.0 l) [ inl old ↦ inl old | inr (e, m) ↦ inr (inl (sym e), m) ]
        | inr (m, a) ↦ inr (inr m, a)
      ],
      λ h. elim h [
        | inl old ↦ later.1 (inl (now.1 (inl old)))
        | inr (inl e, a) ↦ later.1 (inl (now.1 (inr (sym e, a))))
        | inr (inr m, a) ↦ later.1 (inr (m, a))
      ],
    )

-- The address has a list of networks.
abbrev Listed : HashMap IpAddr (List Str) → IpAddr → Type 0
Listed ctrs ip = (nets : List Str) × (get ctrs ip ≡ some nets)

add_networks-Listed :
    (networks : List Str) (ip : IpAddr) (ips : List IpAddr) (ctrs : HashMap IpAddr (List Str))
    → Listed (add_networks networks ctrs ips) ip
    → Listed ctrs ip ⊎ Has ip ips
unfolding add_networks
add_networks-Listed networks ip [] ctrs h = inl h
add_networks-Listed networks ip (x ∷ ips) ctrs h =
    elim (add_networks-Listed networks ip ips (entry_or [] ctrs x (λ old. old ++ networks)) h) [
      | inr m ↦ inr (inr m)
      | inl now ↦ elim ((known-entry_or [] ctrs x ip (λ old. old ++ networks)).0 now) [
        | inl old ↦ inl old
        | inr e ↦ inr (inl (sym e))
      ]
    ]

module _ (membership : HashMap Str (List Str)) where
  build_ctrs_known :
      (id : Str) (ips : List IpAddr) (ctrs : HashMap IpAddr (List Str))
      (rest : List (Str × List IpAddr)) {networks : List Str}
      → get membership id ≡ some networks
      → build_ctrs membership ctrs ((id, ips) ∷ rest)
        ≡ build_ctrs membership (add_networks networks ctrs ips) rest
  unfolding build_ctrs
  build_ctrs_known id ips ctrs rest known = rw (known, build_ctrs) refl

  build_ctrs_unknown :
      (id : Str) (ips : List IpAddr) (ctrs ctrs' : HashMap IpAddr (List Str))
      (rest : List (Str × List IpAddr))
      → get membership id ≡ none
      → build_ctrs membership ctrs ((id, ips) ∷ rest) ≢ ok ctrs'
  unfolding build_ctrs
  build_ctrs_unknown id ips ctrs ctrs' rest unknown h = cc (rw (unknown, build_ctrs) at h)

  -- A visited container with the address is in the network.
  abbrev pub Gives : List (Str × List IpAddr) → IpAddr → Str → Type 0
  Gives entries ip net =
      (id : Str) × (ips : List IpAddr) × Has (id, ips) entries
      × Has ip ips
      × Has net (found (get membership id))

  pub build_ctrs_step :
      (entries : List (Str × List IpAddr)) (ctrs ctrs' : HashMap IpAddr (List Str)) (ip : IpAddr)
      (net : Str)
      → build_ctrs membership ctrs entries ≡ ok ctrs'
      → Has net (found (get ctrs' ip)) ↔ (Has net (found (get ctrs ip)) ⊎ Gives entries ip net)
  unfolding build_ctrs
  build_ctrs_step [] ctrs ctrs' ip net h =
      subst (λ m. Has net (found (get m ip)) ↔ (Has net (found (get ctrs ip)) ⊎ Gives [] ip net))
        (ok-injective h) (λ x. inl x, λ x. elim x [ inl l ↦ l | inr (_, _, m, _, _) ↦ absurd m ])
  build_ctrs_step ((id, ips) ∷ rest) ctrs ctrs' ip net h = elim (Option-cases (get membership id)) [
    | inl unknown ↦ absurd (build_ctrs_unknown id ips ctrs ctrs' rest unknown h)
    | inr (networks, known) ↦
        let now = add_networks_step networks ip net ips ctrs in
        let later =
          build_ctrs_step rest (add_networks networks ctrs ips) ctrs' ip net
            (sym (build_ctrs_known id ips ctrs rest known) ∙ h) in
        let here : found (get membership id) ≡ networks = rw known refl in
        (
          λ x. elim (later.0 x) [
            | inl l ↦ elim (now.0 l) [
              | inl old ↦ inl old
              | inr (i, n) ↦ inr (id, ips, inl refl, i, subst (Has net) (sym here) n)
            ]
            | inr (j, is, m, i, n) ↦ inr (j, is, inr m, i, n)
          ],
          λ x. elim x [
            | inl old ↦ later.1 (inl (now.1 (inl old)))
            | inr (j, is, inl eq, i, n) ↦
                let same_id : j ≡ id = ap (λ (p : Str × List IpAddr). p.0) eq in
                let same_ips : is ≡ ips = ap (λ (p : Str × List IpAddr). p.1) eq in
                later.1 (
                  inl (
                    now.1 (
                      inr (
                        subst (Has ip) same_ips i,
                        subst (Has net) here
                            (subst (λ k. Has net (found (get membership k))) same_id n),
                      ))))
            | inr (j, is, inr m, i, n) ↦ later.1 (inr (j, is, m, i, n))
          ],
        )
  ]

  pub build_ctrs-ok :
      (entries : List (Str × List IpAddr)) (ctrs : HashMap IpAddr (List Str))
      → ((id : Str) (ips : List IpAddr)
          → Has (id, ips) entries
          → (networks : List Str) × (get membership id ≡ some networks))
      → (ctrs' : HashMap IpAddr (List Str)) × (build_ctrs membership ctrs entries ≡ ok ctrs')
  unfolding build_ctrs
  build_ctrs-ok [] ctrs known = (ctrs, refl)
  build_ctrs-ok ((id, ips) ∷ rest) ctrs known =
      let (networks, found_id) = known id ips (inl refl) in
      rw (build_ctrs_known id ips ctrs rest found_id)
        (build_ctrs-ok rest (add_networks networks ctrs ips) (λ i is m. known i is (inr m)))

  -- Only addresses of visited containers have a list of networks.
  pub build_ctrs-Listed :
      (entries : List (Str × List IpAddr)) (ctrs ctrs' : HashMap IpAddr (List Str)) (ip : IpAddr)
      → build_ctrs membership ctrs entries ≡ ok ctrs'
      → Listed ctrs' ip
      → Listed ctrs ip ⊎ ((id : Str) × (ips : List IpAddr) × Has (id, ips) entries × Has ip ips)
  unfolding build_ctrs
  build_ctrs-Listed [] ctrs ctrs' ip h l = inl (subst (λ m. Listed m ip) (sym (ok-injective h)) l)
  build_ctrs-Listed ((id, ips) ∷ rest) ctrs ctrs' ip h l = elim (Option-cases (get membership id)) [
    | inl unknown ↦ absurd (build_ctrs_unknown id ips ctrs ctrs' rest unknown h)
    | inr (networks, known) ↦
        elim (build_ctrs-Listed rest (add_networks networks ctrs ips) ctrs' ip
          (sym (build_ctrs_known id ips ctrs rest known) ∙ h) l) [
            | inr (j, is, m, i) ↦ inr (j, is, inr m, i)
            | inl now ↦ elim (add_networks-Listed networks ip ips ctrs now) [
              | inl old ↦ inl old
              | inr i ↦ inr (id, ips, inl refl, i)
            ]
          ]
  ]
