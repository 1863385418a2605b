-- ===== src/Config/Index.antt =====
-- What one entry of a file adds to the tables of `parse_configs`.
use aardvark_dns.Prelude.{
  ◌≡◌, ◌↔◌, ◌⊎◌, inl, inr, refl, sym, subst, true, Bool, List, [], ◌∷◌, ◌++◌, some, Has, Bool-cases,
}
use aardvark_dns.Prelude.Classes.{◌==◌, ==_iff}
use aardvark_dns.Text.{Str, str_eq}
use aardvark_dns.HashMap.{HashMap, get, entry_or, found}
use aardvark_dns.HashMap.Members.{entry_or_step, append_step}
use aardvark_dns.HashMap.Visits.{Visits, Visits-entry_or, known-entry_or}
use aardvark_dns.Net.Addr.{IpAddr, ip_eq}
use aardvark_dns.Config.Entry.{CtrEntry}
use aardvark_dns.Config.Directory.{
  Tables, contains, add_network, new_ctr_ips, add_ip, add_ips, add_aliases, add_entry,
}

-- `id` has a list of networks; `id` is in the network `net`; `alias` has the address `ip` in `net`;
-- `ip` has the name `alias` in `net`.
abbrev pub Known : Str → Tables → Type 0
Known id t = (networks : List Str) × (get t.network_membership id ≡ some networks)

abbrev pub Visited : Str → Tables → Type 0
Visited id t = Visits (λ _. Unit {0}) t.container_ips id

abbrev pub Member : Str → Str → Tables → Type 0
Member id net t = Has net (found (get t.network_membership id))

abbrev pub Named : Str → Str → IpAddr → Tables → Type 0
Named net alias ip t = Has ip (found (get (found (get t.network_names net)) alias))

abbrev pub Reversed : Str → IpAddr → Str → Tables → Type 0
Reversed net ip alias t = Has alias (found (get (found (get t.reverse net)) ip))

contains_sound : (ns : List Str) (net : Str) → contains ns net ≡ true → Has net ns
unfolding contains
contains_sound [] net h = cc
contains_sound (n ∷ ns) net h = elim (Bool-cases (n == net)) [
  | inl same ↦ inl (sym ((==_iff n net).0 same))
  | inr differs ↦ inr (contains_sound ns net (rw differs at h))
]

add_network_step :
    (network net : Str) (ns : List Str)
    → Has net (add_network network ns) ↔ (Has net ns ⊎ (network ≡ net))
add_network_step network net ns = elim (Bool-cases (contains ns network)) [
  | inl old ↦ rw old (
    λ h. inl h,
    λ h. elim h [ inl l ↦ l | inr e ↦ subst (λ k. Has k ns) e (contains_sound ns network old) ],
  )
  | inr new ↦ rw new (
    λ h. elim ((append_step net (network ∷ []) ns).0 h) [
      | inl l ↦ inl l
      | inr (inl e) ↦ inr (sym e)
      | inr (inr x) ↦ absurd x
    ],
    λ h. elim h [
      | inl l ↦ (append_step net (network ∷ []) ns).1 (inl l)
      | inr e ↦ (append_step net (network ∷ []) ns).1 (inr (inl (sym e)))
    ],
  )
]

add_aliases_step :
    (ips : List IpAddr) (alias : Str) (ip : IpAddr) (aliases : List Str)
    (names : HashMap Str (List IpAddr))
    → Has ip (found (get (add_aliases ips names aliases) alias))
      ↔ (Has ip (found (get names alias)) ⊎ (Has alias aliases × Has ip ips))
unfolding add_aliases
add_aliases_step ips alias ip [] names =
    (λ h. inl h, λ h. elim h [ inl l ↦ l | inr (m, _) ↦ absurd m ])
add_aliases_step ips alias ip (x ∷ aliases) names =
    let now =
      entry_or_step [] names x alias (λ old. old ++ ips) (Has ip) (Has ip ips)
        (append_step ip ips) in
    let later = add_aliases_step ips alias ip aliases (entry_or [] names x (λ old. old ++ ips)) in
    (
      λ h. elim (later.0 h) [
        | inl l ↦ elim (now.0 l) [ inl old ↦ inl old | inr (e, m) ↦ inr (inl (sym e), m) ]
        | inr (m, a) ↦ inr (inr m, a)
      ],
      λ h. elim h [
        | inl old ↦ later.1 (inl (now.1 (inl old)))
        | inr (inl e, a) ↦ later.1 (inl (now.1 (inr (sym e, a))))
        | inr (inr m, a) ↦ later.1 (inr (m, a))
      ],
    )

module _ (network : Str) (internal : Bool) (t : Tables) (entry : CtrEntry) where
  add_ips-members :
      (u : Tables) (ips : List IpAddr)
      → (add_ips network internal entry u ips).network_membership ≡ u.network_membership
  unfolding add_ips
  add_ips-members u [] = refl
  add_ips-members u (ip ∷ ips) = add_ips-members (add_ip network internal entry u ip) ips

  -- A visit of the addresses of `id` meets the address `ip`.
  pub Visits-add_entry :
      (id : Str) (ip : IpAddr)
      → Visits (Has ip) (add_entry network internal t entry).container_ips id
        ↔ (Visits (Has ip) t.container_ips id ⊎ ((entry.id ≡ id) × Has ip (new_ctr_ips entry)))
  unfolding add_entry
  Visits-add_entry id ip =
      Visits-entry_or (Has ip) (Has ip (new_ctr_ips entry)) [] (λ old. old ++ new_ctr_ips entry)
        (append_step ip (new_ctr_ips entry)) (λ none_yet. absurd none_yet) entry.id id
        t.container_ips

  -- A visit meets the id.
  pub Visited-add_entry :
      (id : Str)
      → Visited id (add_entry network internal t entry)
        ↔ (Visited id t ⊎ ((entry.id ≡ id) × Unit {0}))
  unfolding add_entry
  Visited-add_entry id =
      Visits-entry_or (λ _. Unit {0}) (Unit {0}) [] (λ old. old ++ new_ctr_ips entry)
        (λ v. ((λ h. inl h), (λ h. tt))) (λ h. h) entry.id id t.container_ips

  -- The id has a list of networks.
  pub Known-add_entry :
      (id : Str) → Known id (add_entry network internal t entry) ↔ (Known id t ⊎ (entry.id ≡ id))
  unfolding add_entry
  Known-add_entry id =
      rw add_ips-members (known-entry_or [] t.network_membership entry.id id (add_network network))

  pub Member-add_entry :
      (id net : Str)
      → Member id net (add_entry network internal t entry)
        ↔ (Member id net t ⊎ ((network ≡ net) × (entry.id ≡ id)))
  unfolding add_entry
  Member-add_entry id net = rw add_ips-members (
      let step =
        entry_or_step [] t.network_membership entry.id id (add_network network) (Has net)
          (network ≡ net) (add_network_step network net) in
      (
        λ h. elim (step.0 h) [ inl old ↦ inl old | inr (i, n) ↦ inr (n, i) ],
        λ h. elim h [ inl old ↦ step.1 (inl old) | inr (n, i) ↦ step.1 (inr (i, n)) ],
      ))

  pub Named-add_entry :
      (net alias : Str) (ip : IpAddr)
      → Named net alias ip (add_entry network internal t entry) ↔ (
          Named net alias ip t
          ⊎ ((network ≡ net) × (Has alias entry.aliases × Has ip (new_ctr_ips entry))))
  unfolding add_entry
  Named-add_entry net alias ip =
      entry_or_step [] t.network_names network net
        (λ names. add_aliases (new_ctr_ips entry) names entry.aliases)
        (λ names. Has ip (found (get names alias)))
        (Has alias entry.aliases × Has ip (new_ctr_ips entry))
        (add_aliases_step (new_ctr_ips entry) alias ip entry.aliases)

  module _ (net : Str) (ip : IpAddr) (alias : Str) where
    Reversed-add_ip :
        (u : Tables) (x : IpAddr)
        → Reversed net ip alias (add_ip network internal entry u x)
          ↔ (Reversed net ip alias u ⊎ ((network ≡ net) × ((x ≡ ip) × Has alias entry.aliases)))
    unfolding add_ip
    Reversed-add_ip u x =
        entry_or_step [] u.reverse network net
          (λ ips. entry_or [] ips x (λ names. names ++ entry.aliases))
          (λ ips. Has alias (found (get ips ip))) ((x ≡ ip) × Has alias entry.aliases)
          (λ ips.
            entry_or_step [] ips x ip (λ names. names ++ entry.aliases) (Has alias)
              (Has alias entry.aliases) (append_step alias entry.aliases))

    Reversed-add_ips :
        (ips : List IpAddr) (u : Tables)
        → Reversed net ip alias (add_ips network internal entry u ips)
          ↔ (Reversed net ip alias u ⊎ ((network ≡ net) × (Has ip ips × Has alias entry.aliases)))
    unfolding add_ips
    Reversed-add_ips [] u = (λ h. inl h, λ h. elim h [ inl l ↦ l | inr (_, (m, _)) ↦ absurd m ])
    Reversed-add_ips (x ∷ ips) u =
        let now = Reversed-add_ip u x in
        let later = Reversed-add_ips ips (add_ip network internal entry u x) in
        (
          λ h. elim (later.0 h) [
            | inl l ↦ elim (now.0 l) [
              | inl old ↦ inl old
              | inr (e, (p, a)) ↦ inr (e, (inl (sym p), a))
            ]
            | inr (e, (m, a)) ↦ inr (e, (inr m, a))
          ],
          λ h. elim h [
            | inl old ↦ later.1 (inl (now.1 (inl old)))
            | inr (e, (inl p, a)) ↦ later.1 (inl (now.1 (inr (e, (sym p, a)))))
            | inr (e, (inr m, a)) ↦ later.1 (inr (e, (m, a)))
          ],
        )

    pub Reversed-add_entry : Reversed net ip alias (add_entry network internal t entry) ↔ (
        Reversed net ip alias t
        ⊎ ((network ≡ net) × (Has ip (new_ctr_ips entry) × Has alias entry.aliases)))
    unfolding add_entry
    Reversed-add_entry = Reversed-add_ips (new_ctr_ips entry) _
