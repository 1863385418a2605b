-- ===== src/Config/Facts/Binds.antt =====
-- The loop of `parse_configs` over the files: the listen addresses that they add.
use aardvark_dns.Prelude.{
  ◌≡◌, ◌↔◌, ◌⊎◌, inl, inr, refl, subst, sym, ap, Bool, List, [], ◌∷◌, ◌++◌, Has,
}
use aardvark_dns.Text.{Str, str_eq}
use aardvark_dns.HashMap.{HashMap, entry_or}
use aardvark_dns.HashMap.Members.{append_step}
use aardvark_dns.HashMap.Visits.{Visits, Visits-entry_or}
use aardvark_dns.Net.Addr.{IpAddr, v4, v6}
use aardvark_dns.Config.Entry.{CtrEntry, ParsedNetworkConfig}
use aardvark_dns.Config.Directory.{
  Tables, LogLine, new_ctr_ips, add_ip, add_ips, add_entry, add_entries, add_bind, add_binds,
  add_servers, add_parsed,
}

-- The network `net` listens on the address.
abbrev pub ListensOn : Str → IpAddr → Tables → Type 0
ListensOn net (v4 a) t = Visits (Has a) t.listen_ips_4 net
ListensOn net (v6 a) t = Visits (Has a) t.listen_ips_6 net

pub log-ListensOn :
    (net : Str) (a : IpAddr) (t : Tables) (lines : List LogLine)
    → ListensOn net a t ↔ ListensOn net a (record t { log = lines })
log-ListensOn net (v4 a) t lines = ((λ h. h), (λ h. h))
log-ListensOn net (v6 a) t lines = ((λ h. h), (λ h. h))

-- One more address in the list of a network.
push_step :
    {Ip : Type 0} (into : Ip → IpAddr)
    → ((x y : Ip) → into x ≡ into y → x ≡ y)
    → (table : HashMap Str (List Ip)) (network net : Str) (ip a : Ip)
    → Visits (Has a) (entry_or [] table network (λ ips. ips ++ ip ∷ [])) net
      ↔ (Visits (Has a) table net ⊎ ((network ≡ net) × (into a ≡ into ip)))
push_step into injective table network net ip a =
    let step =
      Visits-entry_or (Has a) (Has a (ip ∷ [])) [] (λ ips. ips ++ ip ∷ []) (append_step a (ip ∷ []))
        (λ m. absurd m) network net table in
    (
      λ h. elim (step.0 h) [
        | inl old ↦ inl old
        | inr (e, inl same) ↦ inr (e, ap into same)
        | inr (e, inr m) ↦ absurd m
      ],
      λ h. elim h [
        | inl old ↦ step.1 (inl old)
        | inr (e, same) ↦ step.1 (inr (e, inl (injective a ip same)))
      ],
    )

module _ (network : Str) (internal : Bool) where
  bind_step :
      (net : Str) (a : IpAddr) (t : Tables) (ip : IpAddr)
      → ListensOn net a (add_bind network internal t ip)
        ↔ (ListensOn net a t ⊎ ((network ≡ net) × (a ≡ ip)))
  unfolding add_bind
  bind_step net (v4 a) t (v4 ip) = push_step v4 (λ x y h. cc) t.listen_ips_4 network net ip a
  bind_step net (v6 a) t (v6 ip) = push_step v6 (λ x y h. cc) t.listen_ips_6 network net ip a
  bind_step net (v4 a) t (v6 ip) =
      ((λ h. inl h), (λ h. elim h [ inl old ↦ old | inr (e, other) ↦ absurd (cc other) ]))
  bind_step net (v6 a) t (v4 ip) =
      ((λ h. inl h), (λ h. elim h [ inl old ↦ old | inr (e, other) ↦ absurd (cc other) ]))

  binds_step :
      (net : Str) (a : IpAddr) (t : Tables) (ips : List IpAddr)
      → ListensOn net a (add_binds network internal t ips)
        ↔ (ListensOn net a t ⊎ ((network ≡ net) × Has a ips))
  unfolding add_binds
  binds_step net a t [] = ((λ h. inl h), (λ h. elim h [ inl old ↦ old | inr (_, m) ↦ absurd m ]))
  binds_step net a t (ip ∷ ips) =
      let now = bind_step net a t ip in
      let later = binds_step net a (add_bind network internal t ip) ips in
      (
        λ h. elim (later.0 h) [
          | inl l ↦ elim (now.0 l) [ inl old ↦ inl old | inr (e, same) ↦ inr (e, inl same) ]
          | inr (e, m) ↦ inr (e, inr m)
        ],
        λ h. elim h [
          | inl old ↦ later.1 (inl (now.1 (inl old)))
          | inr (e, inl same) ↦ later.1 (inl (now.1 (inr (e, same))))
          | inr (e, inr m) ↦ later.1 (inr (e, m))
        ],
      )

  -- The loop over the entries adds no listen address.
  ips_step :
      (net : Str) (a : IpAddr) (entry : CtrEntry) (t : Tables) (ips : List IpAddr)
      → ListensOn net a (add_ips network internal entry t ips) ≡ ListensOn net a t
  unfolding add_ips add_ip
  ips_step net a entry t [] = refl
  ips_step net (v4 a) entry t (ip ∷ ips) =
      ips_step net (v4 a) entry (add_ip network internal entry t ip) ips
  ips_step net (v6 a) entry t (ip ∷ ips) =
      ips_step net (v6 a) entry (add_ip network internal entry t ip) ips

  entry_step :
      (net : Str) (a : IpAddr) (t : Tables) (entry : CtrEntry)
      → ListensOn net a (add_entry network internal t entry) ≡ ListensOn net a t
  unfolding add_entry
  entry_step net (v4 a) t entry = ips_step net (v4 a) entry _ (new_ctr_ips entry)
  entry_step net (v6 a) t entry = ips_step net (v6 a) entry _ (new_ctr_ips entry)

  entries_step :
      (net : Str) (a : IpAddr) (t : Tables) (entries : List CtrEntry)
      → ListensOn net a (add_entries network internal t entries) ≡ ListensOn net a t
  unfolding add_entries
  entries_step net a t [] = refl
  entries_step net a t (entry ∷ entries) =
      rw (entries_step net a (add_entry network internal t entry) entries)
        (entry_step net a t entry)

  servers_step :
      (net : Str) (a : IpAddr) (t : Tables) (servers : List IpAddr)
      → ListensOn net a (add_servers network internal t servers) ≡ ListensOn net a t
  unfolding add_servers
  servers_step net (v4 a) t servers = refl
  servers_step net (v6 a) t servers = refl

  -- A file adds its bind addresses.
  pub ListensOn-add_parsed :
      (net : Str) (a : IpAddr) (t : Tables) (c : ParsedNetworkConfig)
      → ListensOn net a (add_parsed network internal t c)
        ↔ (ListensOn net a t ⊎ ((network ≡ net) × Has a c.network_bind_ip))
  unfolding add_parsed
  ListensOn-add_parsed net a t c =
      let served = add_servers network internal t c.network_dnsservers in
      let bound = add_binds network internal served c.network_bind_ip in
      subst
        (λ X.
          ListensOn net a (add_parsed network internal t c)
          ↔ (X ⊎ ((network ≡ net) × Has a c.network_bind_ip)))
        (servers_step net a t c.network_dnsservers)
        (subst (λ X. X ↔ (ListensOn net a served ⊎ ((network ≡ net) × Has a c.network_bind_ip)))
          (sym (entries_step net a bound c.container_entry))
          (binds_step net a served c.network_bind_ip))
