-- ===== src/Config/Contents/Servers/Addresses.antt =====
-- What one file of `parse_configs` does to the resolvers of the addresses, `ctr_dns_server`.
use aardvark_dns.Prelude.{
  ◌≡◌, inl, inr, ◌⊎◌, refl, sym, Bool, false, Option, some, List, [], ◌∷◌, Has, Bool-cases,
}
use aardvark_dns.Text.{Str, str_eq}
use aardvark_dns.HashMap.{get}
use aardvark_dns.HashMap.Members.{insert_back}
use aardvark_dns.Net.Addr.{IpAddr, v4, v6, ip_eq}
use aardvark_dns.Config.Entry.{CtrEntry, ParsedNetworkConfig}
use aardvark_dns.Config.Directory.{
  Tables, new_ctr_ips, add_ip, add_ips, add_entry, add_entries, add_bind, add_binds, add_servers,
  add_parsed,
}

-- The entry has the address, and these resolvers of its own, in a file that is not internal.
abbrev pub Own : IpAddr → Option (List IpAddr) → Bool → ParsedNetworkConfig → Type 0
Own ip servers internal c =
    (internal ≡ false)
    × ((entry : CtrEntry) × Has entry c.container_entry
        × Has ip (new_ctr_ips entry)
        × (entry.dns_servers ≡ servers))

module _ (network : Str) (internal : Bool) where
  module _ (ip : IpAddr) (servers : Option (List IpAddr)) where
    -- What `ip` holds comes from before or from an entry of this file.
    abbrev Holds : Tables → Type 0
    Holds t = get t.ctr_dns_server ip ≡ some servers

    ip_back :
        (entry : CtrEntry) (t : Tables) (x : IpAddr)
        → Holds (add_ip network internal entry t x)
        → Holds t ⊎ ((internal ≡ false) × ((ip ≡ x) × (entry.dns_servers ≡ servers)))
    unfolding add_ip
    ip_back entry t x h = elim (Bool-cases internal) [
      | inl marked ↦ inl (rw marked at h)
      | inr outside ↦
          elim (insert_back t.ctr_dns_server x ip entry.dns_servers servers (rw outside at h)) [
            | inl old ↦ inl old
            | inr (e, same) ↦ inr (outside, (sym e, same))
          ]
    ]

    ips_back :
        (entry : CtrEntry) (t : Tables) (ips : List IpAddr)
        → Holds (add_ips network internal entry t ips)
        → Holds t ⊎ ((internal ≡ false) × (Has ip ips × (entry.dns_servers ≡ servers)))
    unfolding add_ips
    ips_back entry t [] h = inl h
    ips_back entry t (x ∷ ips) h = elim (ips_back entry (add_ip network internal entry t x) ips h) [
      | inr (outside, (m, s)) ↦ inr (outside, (inr m, s))
      | inl now ↦ elim (ip_back entry t x now) [
        | inl old ↦ inl old
        | inr (outside, (e, s)) ↦ inr (outside, (inl e, s))
      ]
    ]

    entries_back :
        (t : Tables) (entries : List CtrEntry)
        → Holds (add_entries network internal t entries)
        → Holds t
          ⊎ ((internal ≡ false)
              × ((entry : CtrEntry) × Has entry entries
                  × Has ip (new_ctr_ips entry)
                  × (entry.dns_servers ≡ servers)))
    unfolding add_entries add_entry
    entries_back t [] h = inl h
    entries_back t (entry ∷ entries) h =
        elim (entries_back (add_entry network internal t entry) entries h) [
          | inr (outside, (e, m, i, s)) ↦ inr (outside, (e, inr m, i, s))
          | inl now ↦ elim (ips_back entry _ (new_ctr_ips entry) now) [
            | inl old ↦ inl old
            | inr (outside, (i, s)) ↦ inr (outside, (entry, inl refl, i, s))
          ]
        ]

    binds_kept :
        (t : Tables) (ips : List IpAddr) → Holds (add_binds network internal t ips) → Holds t
    unfolding add_binds add_bind
    binds_kept t [] h = h
    binds_kept t (v4 a ∷ ips) h = binds_kept (add_bind network internal t (v4 a)) ips h
    binds_kept t (v6 a ∷ ips) h = binds_kept (add_bind network internal t (v6 a)) ips h

    pub Own-add_parsed :
        (t : Tables) (c : ParsedNetworkConfig)
        → Holds (add_parsed network internal t c)
        → Holds t ⊎ Own ip servers internal c
    unfolding add_parsed add_servers
    Own-add_parsed t c h = elim (entries_back _ c.container_entry h) [
      | inl old ↦
          inl
            (binds_kept (add_servers network internal t c.network_dnsservers) c.network_bind_ip old)
      | inr own ↦ inr own
    ]
