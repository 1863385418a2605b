-- ===== src/Config/Facts/Entries.antt =====
-- The loops of `parse_configs` over a kind of fact that the entries of the files add.
use aardvark_dns.Prelude.{◌≡◌, ◌↔◌, ◌⊎◌, inl, inr, refl, subst, Bool, List, [], ◌∷◌, Has}
use aardvark_dns.Text.{Str}
use aardvark_dns.Result.{Result, ok}
use aardvark_dns.Error.{IoError}
use aardvark_dns.Config.Entry.{CtrEntry, ParsedNetworkConfig}
use aardvark_dns.Config.Directory.{
  DirEntry, Tables, no_tables, add_entry, add_entries, add_binds, add_servers, add_parsed,
  add_configs,
}
use aardvark_dns.Config.Sources.{Declares}
use aardvark_dns.Config.Facts.{files_step}
use aardvark_dns.Config.Facts.Same.{SameIndex, SameIndex-sym, log-SameIndex, add_head-SameIndex}

module _ (Fact : Tables → Type 0) (Adds : Str → CtrEntry → Type 0)
    (same : (t u : Tables) → SameIndex t u → Fact t → Fact u)
    (entry_step : (network : Str) (internal : Bool) (t : Tables) (entry : CtrEntry)
      → Fact (add_entry network internal t entry) ↔ (Fact t ⊎ Adds network entry)) where
  entries_step :
      (network : Str) (internal : Bool) (t : Tables) (entries : List CtrEntry)
      → Fact (add_entries network internal t entries)
        ↔ (Fact t ⊎ ((entry : CtrEntry) × Has entry entries × Adds network entry))
  unfolding add_entries
  entries_step network internal t [] =
      (λ h. inl h, λ h. elim h [ inl f ↦ f | inr (e, m, a) ↦ absurd m ])
  entries_step network internal t (entry ∷ entries) =
      let later = entries_step network internal (add_entry network internal t entry) entries in
      let now = entry_step network internal t entry in
      (
        λ h. elim (later.0 h) [
          | inl f ↦ elim (now.0 f) [ inl g ↦ inl g | inr a ↦ inr (entry, inl refl, a) ]
          | inr (e, m, a) ↦ inr (e, inr m, a)
        ],
        λ h. elim h [
          | inl f ↦ later.1 (inl (now.1 (inl f)))
          | inr (e, inl eq, a) ↦ later.1 (inl (now.1 (inr (subst (Adds network) eq a))))
          | inr (e, inr m, a) ↦ later.1 (inr (e, m, a))
        ],
      )

  entries_of_step :
      (network : Str) (internal : Bool) (t : Tables) (c : ParsedNetworkConfig)
      → Fact (add_parsed network internal t c)
        ↔ (Fact t ⊎ ((entry : CtrEntry) × Has entry c.container_entry × Adds network entry))
  unfolding add_parsed
  entries_of_step network internal t c =
      let u =
        add_binds network internal (add_servers network internal t c.network_dnsservers)
          c.network_bind_ip in
      let kept = add_head-SameIndex network internal t c.network_dnsservers c.network_bind_ip in
      let step = entries_step network internal u c.container_entry in
      (
        λ h. elim (step.0 h) [ inl f ↦ inl (same u t (SameIndex-sym t u kept) f) | inr r ↦ inr r ],
        λ h. elim h [ inl f ↦ step.1 (inl (same t u kept f)) | inr r ↦ step.1 (inr r) ],
      )

  -- The whole loop.
  pub configs_step :
      (unicode : Str → Str) (read : Str → Result Str IoError)
      (configs : List (Result DirEntry IoError)) (t t' : Tables)
      → add_configs unicode read t configs ≡ ok t'
      → Fact t' ↔ (
          Fact t
          ⊎ ((net : Str) × (entry : CtrEntry) × Declares unicode read configs net entry
              × Adds net entry))
  configs_step unicode read configs t t' h =
      let step =
        files_step Fact (λ net c. (entry : CtrEntry) × Has entry c.container_entry × Adds net entry)
          (λ t lines. (
            same t (record t { log = lines }) (log-SameIndex t lines),
            same (record t { log = lines }) t
                (SameIndex-sym t (record t { log = lines }) (log-SameIndex t lines)),
          ))
          entries_of_step unicode read configs t t' h in
      (
        λ f. elim (step.0 f) [
          | inl old ↦ inl old
          | inr (net, c, d, (entry, m, a)) ↦
              inr (net, entry, record { config = c; file = d; present = m }, a)
        ],
        λ r. elim r [
          | inl old ↦ step.1 (inl old)
          | inr (net, entry, d, a) ↦ step.1 (inr (net, d.config, d.file, (entry, d.present, a)))
        ],
      )

-- A kind of fact about one network.
module _ (Fact : Tables → Type 0) (net : Str) (Adds : CtrEntry → Type 0)
    (same : (t u : Tables) → SameIndex t u → Fact t → Fact u)
    (entry_step : (network : Str) (internal : Bool) (t : Tables) (entry : CtrEntry)
      → Fact (add_entry network internal t entry) ↔ (Fact t ⊎ ((network ≡ net) × Adds entry)))
    (none_yet : Fact no_tables → ⊥) where
  -- It holds in the end exactly when a file of the network declares an entry that adds it.
  pub network_step :
      (unicode : Str → Str) (read : Str → Result Str IoError)
      (configs : List (Result DirEntry IoError)) (t : Tables)
      → add_configs unicode read no_tables configs ≡ ok t
      → Fact t ↔ ((entry : CtrEntry) × Declares unicode read configs net entry × Adds entry)
  network_step unicode read configs t loop =
      let step =
        configs_step Fact (λ n entry. (n ≡ net) × Adds entry) same entry_step unicode read configs
          no_tables t loop in
      (
        λ h. elim (step.0 h) [
          | inl f ↦ absurd (none_yet f)
          | inr (n, entry, d, (e, a)) ↦
              (entry, subst (λ k. Declares unicode read configs k entry) e d, a)
        ],
        λ (entry, d, a). step.1 (inr (net, entry, d, (refl, a))),
      )
