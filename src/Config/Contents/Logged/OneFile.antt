-- ===== src/Config/Contents/Logged/OneFile.antt =====
-- What one parsed file of `parse_configs` logs.
use aardvark_dns.Prelude.{◌≡◌, refl, ◌∙◌, Bool, List, [], ◌∷◌}
use aardvark_dns.Text.{Str}
use aardvark_dns.Net.Addr.{IpAddr, v4, v6}
use aardvark_dns.Config.Entry.{CtrEntry, ParsedNetworkConfig}
use aardvark_dns.Config.Directory.{
  Tables, new_ctr_ips, add_ip, add_ips, add_entry, add_entries, add_bind, add_binds, add_servers,
  add_parsed,
}

-- A file that is parsed logs nothing.
module _ (network : Str) (internal : Bool) where
  ips_log :
      (entry : CtrEntry) (t : Tables) (ips : List IpAddr)
      → (add_ips network internal entry t ips).log ≡ t.log
  unfolding add_ips add_ip
  ips_log entry t [] = refl
  ips_log entry t (ip ∷ ips) = ips_log entry (add_ip network internal entry t ip) ips

  entries_log :
      (t : Tables) (entries : List CtrEntry) → (add_entries network internal t entries).log ≡ t.log
  unfolding add_entries add_entry
  entries_log t [] = refl
  entries_log t (entry ∷ entries) =
      entries_log (add_entry network internal t entry) entries ∙ ips_log entry _ (new_ctr_ips entry)

  binds_log : (t : Tables) (ips : List IpAddr) → (add_binds network internal t ips).log ≡ t.log
  unfolding add_binds add_bind
  binds_log t [] = refl
  binds_log t (v4 a ∷ ips) = binds_log (add_bind network internal t (v4 a)) ips
  binds_log t (v6 a ∷ ips) = binds_log (add_bind network internal t (v6 a)) ips

  pub parsed_log :
      (t : Tables) (c : ParsedNetworkConfig) → (add_parsed network internal t c).log ≡ t.log
  unfolding add_parsed add_servers
  parsed_log t c =
      entries_log _ c.container_entry
      ∙ binds_log (add_servers network internal t c.network_dnsservers) c.network_bind_ip
