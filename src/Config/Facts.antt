-- ===== src/Config/Facts.antt =====
-- The loop of `parse_configs` over the files, for one kind of fact: it holds in the end exactly if
-- it held before or a file of the directory adds it.
pub mod Same
pub mod Entries
pub mod Binds
pub mod Origin
use aardvark_dns.Prelude.{
  ◌≡◌, ◌↔◌, ◌⊎◌, inl, inr, refl, subst, sym, ap, ◌∙◌, Bool, false, List, [], ◌∷◌, Has, Bool-cases,
}
use aardvark_dns.Text.{Str}
use aardvark_dns.Result.{Result, ok, err, Result-cases, >>=-eq-ok, ok-injective}
use aardvark_dns.Error.{IoError}
use aardvark_dns.Config.Entry.{ParsedNetworkConfig}
use aardvark_dns.Config.File.{parse_config}
use aardvark_dns.Config.Directory.{
  DirEntry, Tables, LogLine, add_parsed, network_of, is_pid_file, add_config, add_configs,
}
use aardvark_dns.Config.Cases.{logged, added, add_config-Step}
use aardvark_dns.Config.Sources.{Source, Configures, Configures-later}

module _ (Fact : Tables → Type 0) (Adds : Str → ParsedNetworkConfig → Type 0)
    (log_iff : (t : Tables) (lines : List LogLine) → Fact t ↔ Fact (record t { log = lines }))
    (parsed_step : (network : Str) (internal : Bool) (t : Tables) (c : ParsedNetworkConfig)
      → Fact (add_parsed network internal t c) ↔ (Fact t ⊎ Adds network c))
    (unicode : Str → Str) (read : Str → Result Str IoError) where
  -- What one directory entry adds.
  abbrev FileAdds : Result DirEntry IoError → Type 0
  FileAdds config =
      (net : Str) × (c : ParsedNetworkConfig) × (cfg : DirEntry) × (ok cfg ≡ config)
      × Source unicode read net c cfg
      × Adds net c

  config_step :
      (t t' : Tables) (config : Result DirEntry IoError)
      → add_config unicode read t config ≡ ok t'
      → Fact t' ↔ (Fact t ⊎ FileAdds config)
  config_step t t' config h = elim (add_config-Step unicode read t t' config h) [
    | logged lines same nothing ↦
        subst (λ u. Fact u ↔ (Fact t ⊎ FileAdds config)) (sym same)
          (
            λ f. inl ((log_iff t lines).1 f),
            λ r. elim r [
              | inl f ↦ (log_iff t lines).0 f
              | inr (net, c, cfg, eq, s, a) ↦ absurd (nothing net c cfg eq s)
            ],
          )
    | added cfg net c eq s same ↦
        let step = parsed_step net s.internal t c in
        subst (λ u. Fact u ↔ (Fact t ⊎ FileAdds config)) (sym same)
          (
            λ f. elim (step.0 f) [ inl old ↦ inl old | inr a ↦ inr (net, c, cfg, eq, s, a) ],
            λ r. elim r [
              | inl old ↦ step.1 (inl old)
              | inr (n, k, d, eq', src, a) ↦
                  let z = subst (Source unicode read n k) (ok-injective (eq' ∙ sym eq)) src in
                  let same_config : k ≡ c = ok-injective (sym z.parsed ∙ s.parsed) in
                  let same_net : n ≡ net =
                    ap (λ (p : Str × Bool). p.0) (ok-injective (sym z.named ∙ s.named)) in
                  step.1 (inr (subst (λ m. Adds m c) same_net (subst (Adds n) same_config a)))
            ],
          )
  ]

  -- The whole loop.
  pub files_step :
      (configs : List (Result DirEntry IoError)) (t t' : Tables)
      → add_configs unicode read t configs ≡ ok t'
      → Fact t' ↔ (
          Fact t
          ⊎ ((net : Str) × (c : ParsedNetworkConfig) × Configures unicode read configs net c
              × Adds net c))
  unfolding add_configs
  files_step [] t t' h =
      subst
        (λ u. Fact u ↔ (
          Fact t
          ⊎ ((net : Str) × (c : ParsedNetworkConfig) × Configures unicode read [] net c
              × Adds net c)))
        (ok-injective h)
        (λ f. inl f, λ r. elim r [ inl f ↦ f | inr (net, c, d, a) ↦ absurd d.listed ])
  files_step (config ∷ configs) t t' h =
      let (u, first, rest) =
        >>=-eq-ok (add_config unicode read t config) (λ u. add_configs unicode read u configs) h in
      let now = config_step t u config first in
      let later = files_step configs u t' rest in
      (
        λ f. elim (later.0 f) [
          | inl g ↦ elim (now.0 g) [
            | inl old ↦ inl old
            | inr (net, c, cfg, eq, s, a) ↦
                inr (net, c, record { cfg = cfg; listed = inl eq; source = s }, a)
          ]
          | inr (net, c, d, a) ↦ inr (net, c, Configures-later unicode read config configs d, a)
        ],
        λ r. elim r [
          | inl old ↦ later.1 (inl (now.1 (inl old)))
          | inr (net, c, d, a) ↦ elim d.listed [
            | inl eq ↦ later.1 (inl (now.1 (inr (net, c, d.cfg, eq, d.source, a))))
            | inr m ↦
                later.1 (inr (net, c, record { cfg = d.cfg; listed = m; source = d.source }, a))
          ]
        ],
      )
