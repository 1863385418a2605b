-- ===== src/Config/Cases.antt =====
-- One directory entry in `parse_configs`: either nothing but the log changes, or a file is added.
use aardvark_dns.Prelude.{◌≡◌, inl, inr, refl, sym, ◌∙◌, subst, List, Bool-cases}
use aardvark_dns.Text.{Str}
use aardvark_dns.Result.{Result, ok, err, Result-cases, ok-injective}
use aardvark_dns.Error.{IoError}
use aardvark_dns.Config.Entry.{ParsedNetworkConfig}
use aardvark_dns.Config.File.{parse_config}
use aardvark_dns.Config.Directory.{
  DirEntry, Tables, LogLine, add_parsed, network_of, is_pid_file, add_config,
}
use aardvark_dns.Config.Branches.{
  add_config_unlisted, add_config_pid, add_config_failed, add_config_parsed, add_config_unnamed,
}
use aardvark_dns.Config.Sources.{Source}

module _ (unicode : Str → Str) (read : Str → Result Str IoError) where
  -- The entry is no file of a network.
  abbrev pub NoSource : Result DirEntry IoError → Type 0
  NoSource config =
      (net : Str) (c : ParsedNetworkConfig) (cfg : DirEntry)
      → ok cfg ≡ config
      → Source unicode read net c cfg
      → ⊥

  pub data Step (t t' : Tables) (config : Result DirEntry IoError) : Type 0 where
    logged :
        (lines : List LogLine) → t' ≡ record t { log = lines } → NoSource config → Step t t' config
    added :
        (cfg : DirEntry) (net : Str) (c : ParsedNetworkConfig)
        → ok cfg ≡ config
        → (s : Source unicode read net c cfg) → t' ≡ add_parsed net s.internal t c
        → Step t t' config

  no_source :
      (cfg : DirEntry)
      → ((net : Str) (c : ParsedNetworkConfig) → Source unicode read net c cfg → ⊥)
      → NoSource (ok cfg)
  no_source cfg none_here net c d eq src =
      none_here net c (subst (Source unicode read net c) (ok-injective eq) src)

  pub add_config-Step :
      (t t' : Tables) (config : Result DirEntry IoError)
      → add_config unicode read t config ≡ ok t'
      → Step t t' config
  add_config-Step t t' (err e) h =
      logged _ (ok-injective (sym h ∙ add_config_unlisted unicode read t e))
        (λ net c cfg eq s. cc eq)
  add_config-Step t t' (ok cfg) h = elim (Bool-cases (is_pid_file cfg.file_name)) [
    | inl pid ↦
        logged t.log (ok-injective (sym h ∙ add_config_pid unicode read t cfg pid))
          (no_source cfg (λ net c s. cc (s.not_pid, pid)))
    | inr not_pid ↦ elim (Result-cases (parse_config unicode cfg.path (read cfg.path))) [
      | inr (e, failed) ↦
          logged _ (ok-injective (sym h ∙ add_config_failed unicode read t cfg not_pid failed))
            (no_source cfg (λ net c s. cc (s.parsed, failed)))
      | inl (c, parsed) ↦ elim (Result-cases (network_of cfg.path cfg.file_name)) [
        | inr (e, unnamed) ↦
            absurd (cc (h, add_config_unnamed unicode read t cfg not_pid parsed unnamed))
        | inl ((net, internal), named) ↦
            added cfg net c refl
              (record { not_pid = not_pid; parsed = parsed; internal = internal; named = named })
              (ok-injective (sym h ∙ add_config_parsed unicode read t cfg not_pid parsed named))
      ]
    ]
  ]
