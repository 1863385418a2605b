-- ===== src/Config/Contents/Servers/Networks.antt =====
-- What one file of `parse_configs` does to the resolvers of the networks, `network_dns_server`.
use aardvark_dns.Prelude.{◌≡◌, inl, inr, ◌⊎◌, Bool, false, List, [], ◌∷◌, Has, Bool-cases, is_empty}
use aardvark_dns.Prelude.Classes.{◌==◌, ==_iff}
use aardvark_dns.Text.{Str, str_eq}
use aardvark_dns.HashMap.{HashMap, get, insert, found}
use aardvark_dns.HashMap.Laws.{get-insert}
use aardvark_dns.Net.Addr.{IpAddr, v4, v6, ip_eq}
use aardvark_dns.Config.Entry.{CtrEntry, ParsedNetworkConfig}
use aardvark_dns.Config.Directory.{
  Tables, new_ctr_ips, add_ip, add_ips, add_entry, add_entries, add_bind, add_binds, add_servers,
  add_parsed,
}

module _ (network : Str) (internal : Bool) (net : Str) (a : IpAddr) where
  abbrev Serves : Tables → Type 0
  Serves t = Has a (found (get t.network_dns_server net))

  ips_kept :
      (entry : CtrEntry) (t : Tables) (ips : List IpAddr)
      → Serves (add_ips network internal entry t ips)
      → Serves t
  unfolding add_ips add_ip
  ips_kept entry t [] h = h
  ips_kept entry t (x ∷ ips) h = ips_kept entry (add_ip network internal entry t x) ips h

  entries_kept :
      (t : Tables) (entries : List CtrEntry)
      → Serves (add_entries network internal t entries)
      → Serves t
  unfolding add_entries add_entry
  entries_kept t [] h = h
  entries_kept t (entry ∷ entries) h =
      ips_kept entry _ (new_ctr_ips entry)
        (entries_kept (add_entry network internal t entry) entries h)

  binds_serve :
      (t : Tables) (ips : List IpAddr) → Serves (add_binds network internal t ips) → Serves t
  unfolding add_binds add_bind
  binds_serve t [] h = h
  binds_serve t (v4 x ∷ ips) h = binds_serve (add_bind network internal t (v4 x)) ips h
  binds_serve t (v6 x ∷ ips) h = binds_serve (add_bind network internal t (v6 x)) ips h

  -- The value of `net` is old or that of this file.
  stored_back :
      (m : HashMap Str (List IpAddr)) (servers : List IpAddr)
      → Has a (found (get (insert m network servers) net))
      → Has a (found (get m net)) ⊎ ((network ≡ net) × Has a servers)
  stored_back m servers h = elim (Bool-cases (network == net)) [
    | inl same ↦ inr ((==_iff network net).0 same, rw (get-insert m network net servers, same) at h)
    | inr differs ↦ inl (rw (get-insert m network net servers, differs) at h)
  ]

  servers_back :
      (t : Tables) (servers : List IpAddr)
      → Serves (add_servers network internal t servers)
      → Serves t ⊎ ((network ≡ net) × ((internal ≡ false) × Has a servers))
  unfolding add_servers
  servers_back t servers h = elim (Bool-cases internal) [
    | inl marked ↦ elim (stored_back t.network_dns_server [] (rw marked at h)) [
      | inl old ↦ inl old
      | inr (e, m) ↦ absurd m
    ]
    | inr outside ↦ elim (Bool-cases (is_empty servers)) [
      | inl empty ↦ inl (rw (outside, empty) at h)
      | inr some_given ↦
          elim (stored_back t.network_dns_server servers (rw (outside, some_given) at h)) [
            | inl old ↦ inl old
            | inr (e, m) ↦ inr (e, (outside, m))
          ]
    ]
  ]

  pub network_back :
      (t : Tables) (c : ParsedNetworkConfig)
      → Serves (add_parsed network internal t c)
      → Serves t ⊎ ((network ≡ net) × ((internal ≡ false) × Has a c.network_dnsservers))
  unfolding add_parsed
  network_back t c h =
      let served = add_servers network internal t c.network_dnsservers in
      servers_back t c.network_dnsservers (
        binds_serve served c.network_bind_ip
          (entries_kept (add_binds network internal served c.network_bind_ip) c.container_entry h))
