-- ===== src/Config/Contents/Internal.antt =====
-- Which networks `parse_configs` records as not internal.
use aardvark_dns.Prelude.{◌≡◌, inl, inr, ◌⊎◌, refl, sym, ap, ◌∙◌, subst, Bool, some, List, [], ◌∷◌}
use aardvark_dns.Text.{Str, str_eq}
use aardvark_dns.Result.{Result, ok}
use aardvark_dns.Error.{IoError}
use aardvark_dns.HashMap.{HashMap, get}
use aardvark_dns.HashMap.Members.{insert_back}
use aardvark_dns.Net.Addr.{IpAddr, v4, v6}
use aardvark_dns.Backend.{new}
use aardvark_dns.Config.Entry.{CtrEntry, ParsedNetworkConfig}
use aardvark_dns.Config.Directory.{
  DirEntry, FileSystem, Tables, Parsed, Order, no_tables, add_entry, add_entries, add_bind,
  add_binds, add_servers, add_parsed, result_of, parse_configs,
}
use aardvark_dns.Config.Sources.{Configures}
use aardvark_dns.Config.Facts.Origin.{files_back}
use aardvark_dns.Config.Contents.Run.{parse_configs-Run}

-- `net` is recorded with `internal`.
abbrev Recorded : Str → Bool → Tables → Type 0
Recorded net internal t = get t.network_is_internal net ≡ some internal

module _ (network : Str) (internal : Bool) where
  binds_kept :
      (t : Tables) (ips : List IpAddr)
      → (add_binds network internal t ips).network_is_internal ≡ t.network_is_internal
  unfolding add_binds add_bind
  binds_kept t [] = refl
  binds_kept t (v4 a ∷ ips) = binds_kept (add_bind network internal t (v4 a)) ips
  binds_kept t (v6 a ∷ ips) = binds_kept (add_bind network internal t (v6 a)) ips

  entries_back :
      (net : Str) (b : Bool) (t : Tables) (entries : List CtrEntry)
      → Recorded net b (add_entries network internal t entries)
      → Recorded net b t ⊎ ((network ≡ net) × (internal ≡ b))
  unfolding add_entries add_entry
  entries_back net b t [] h = inl h
  entries_back net b t (entry ∷ entries) h =
      elim (entries_back net b (add_entry network internal t entry) entries h) [
        | inl now ↦ insert_back t.network_is_internal network net internal b now
        | inr e ↦ inr e
      ]

  parsed_back :
      (net : Str) (b : Bool) (t : Tables) (c : ParsedNetworkConfig)
      → Recorded net b (add_parsed network internal t c)
      → Recorded net b t ⊎ ((network ≡ net) × (internal ≡ b))
  unfolding add_parsed add_servers
  parsed_back net b t c h = elim (entries_back net b _ c.container_entry h) [
    | inl old ↦ inl (
        ap (λ (m : HashMap Str Bool). get m net)
          (sym (binds_kept (add_servers network internal t c.network_dnsservers) c.network_bind_ip))
        ∙ old)
    | inr e ↦ inr e
  ]

module _ (unicode : Str → Str) (order : Order) (domain : Str) (fs : FileSystem) (dir : Str)
    (r : Parsed) (configs : List (Result DirEntry IoError)) (listing : fs.read_dir dir ≡ ok configs)
    (h : parse_configs unicode order domain fs dir ≡ ok r) where
  -- A network is recorded as internal or not only by a file of it with that mark in its name.
  pub parse_configs-internal :
      (net : Str) (b : Bool)
      → get r.backend.network_is_internal net ≡ some b
      → (c : ParsedNetworkConfig) × (d : Configures unicode fs.read_to_string configs net c)
        × (d.source.internal ≡ b)
  unfolding result_of new get
  parse_configs-internal net b known =
      let run = parse_configs-Run unicode order domain fs dir configs r listing h in
      let table : r.backend.network_is_internal ≡ run.tables.network_is_internal =
        ap (λ (p : Parsed). p.backend.network_is_internal) run.result in
      elim (files_back (Recorded net b) (λ n i c. (n ≡ net) × (i ≡ b)) (λ t lines x. x)
        (λ n i t c. parsed_back n i net b t c) unicode fs.read_to_string configs no_tables
        run.tables run.loop (ap (λ (m : HashMap Str Bool). get m net) (sym table) ∙ known)) [
          | inl none_yet ↦ cc none_yet
          | inr (n, c, d, (e, i)) ↦
              let (file, mark) =
                subst
                  (λ k.
                    (f : Configures unicode fs.read_to_string configs k c) × (f.source.internal
                      ≡ b))
                  e (d, i) in
              (c, file, mark)
        ]
