-- ===== src/Config/Facts/Origin.antt =====
-- The loop of `parse_configs` over the files, for a fact that a later file may undo: if it holds in
-- the end, it held before or some file of the directory adds it.
use aardvark_dns.Prelude.{◌≡◌, ◌⊎◌, inl, inr, sym, subst, Bool, List, [], ◌∷◌}
use aardvark_dns.Text.{Str}
use aardvark_dns.Result.{Result, ok, >>=-eq-ok, ok-injective}
use aardvark_dns.Error.{IoError}
use aardvark_dns.Config.Entry.{ParsedNetworkConfig}
use aardvark_dns.Config.Directory.{DirEntry, Tables, LogLine, add_parsed, add_config, add_configs}
use aardvark_dns.Config.Cases.{logged, added, add_config-Step}
use aardvark_dns.Config.Sources.{Configures}

module _ (Fact : Tables → Type 0) (Adds : Str → Bool → ParsedNetworkConfig → Type 0)
    (log_back : (t : Tables) (lines : List LogLine) → Fact (record t { log = lines }) → Fact t)
    (parsed_back : (network : Str) (internal : Bool) (t : Tables) (c : ParsedNetworkConfig)
      → Fact (add_parsed network internal t c)
      → Fact t ⊎ Adds network internal c)
    (unicode : Str → Str) (read : Str → Result Str IoError) where
  -- A file of the directory adds the fact.
  abbrev pub Added : List (Result DirEntry IoError) → Type 0
  Added configs =
      (net : Str) × (c : ParsedNetworkConfig) × (d : Configures unicode read configs net c) × Adds
        net d.source.internal c

  config_back :
      (t t' : Tables) (config : Result DirEntry IoError) (configs : List (Result DirEntry IoError))
      → add_config unicode read t config ≡ ok t'
      → Fact t'
      → Fact t ⊎ Added (config ∷ configs)
  config_back t t' config configs h f = elim (add_config-Step unicode read t t' config h) [
    | logged lines same nothing ↦ inl (log_back t lines (subst Fact same f))
    | added cfg net c eq s same ↦ elim (parsed_back net s.internal t c (subst Fact same f)) [
      | inl old ↦ inl old
      | inr a ↦ inr (net, c, record { cfg = cfg; listed = inl eq; source = s }, a)
    ]
  ]

  pub files_back :
      (configs : List (Result DirEntry IoError)) (t t' : Tables)
      → add_configs unicode read t configs ≡ ok t'
      → Fact t'
      → Fact t ⊎ Added configs
  unfolding add_configs
  files_back [] t t' h f = inl (subst Fact (sym (ok-injective h)) f)
  files_back (config ∷ configs) t t' h f =
      let (u, first, rest) =
        >>=-eq-ok (add_config unicode read t config) (λ u. add_configs unicode read u configs) h in
      elim (files_back configs u t' rest f) [
        | inl now ↦ config_back t u config configs first now
        | inr (net, c, d, a) ↦
            inr (net, c, record { cfg = d.cfg; listed = inr d.listed; source = d.source }, a)
      ]
