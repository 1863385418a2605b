-- ===== src/Config/Contents/Total.antt =====
-- `parse_configs` fails only where the directory cannot be listed or a file has no proper name.
use aardvark_dns.Prelude.{◌≡◌, refl, inl, inr, true, some, Bool-cases, List, [], ◌∷◌, Has}
use aardvark_dns.Text.{Str}
use aardvark_dns.Result.{Result, ok, err, Result-cases}
use aardvark_dns.Error.{IoError}
use aardvark_dns.Config.File.{parse_config}
use aardvark_dns.Config.Directory.{
  DirEntry, utf8, FileSystem, Tables, no_tables, Parsed, Order, split_internal, network_of,
  is_pid_file, add_config, add_configs, result_of, finish_tables, parse_configs,
}
use aardvark_dns.Config.Branches.{
  add_config_unlisted, add_config_pid, add_config_failed, add_config_parsed,
}
use aardvark_dns.Config.Contents.Run.{VisitsAll}
use aardvark_dns.Config.Contents.Networks.{build-ok}

-- Every listed entry has a file name in UTF-8.
abbrev pub HasNames : List (Result DirEntry IoError) → Type 0
HasNames configs =
    (cfg : DirEntry) → Has (ok cfg) configs → (name : Str) × (cfg.file_name ≡ some (utf8 name))

module _ (unicode : Str → Str) (read : Str → Result Str IoError) where
  network_of-utf8 :
      (cfg : DirEntry) {name : Str}
      → cfg.file_name ≡ some (utf8 name)
      → network_of cfg.path cfg.file_name ≡ ok (split_internal name)
  unfolding network_of
  network_of-utf8 cfg named = rw named refl

  add_config-ok :
      (t : Tables) (cfg : DirEntry) {name : Str}
      → cfg.file_name ≡ some (utf8 name)
      → (t' : Tables) × (add_config unicode read t (ok cfg) ≡ ok t')
  add_config-ok t cfg {name} named = elim (Bool-cases (is_pid_file cfg.file_name)) [
    | inl pid ↦ (t, add_config_pid unicode read t cfg pid)
    | inr not_pid ↦ elim (Result-cases (parse_config unicode cfg.path (read cfg.path))) [
      | inl (c, parsed) ↦
          (_, add_config_parsed unicode read t cfg not_pid parsed (network_of-utf8 cfg named))
      | inr (e, failed) ↦ (_, add_config_failed unicode read t cfg not_pid failed)
    ]
  ]

  add_configs_step :
      (t t' t'' : Tables) (config : Result DirEntry IoError)
      (configs : List (Result DirEntry IoError))
      → add_config unicode read t config ≡ ok t'
      → add_configs unicode read t' configs ≡ ok t''
      → add_configs unicode read t (config ∷ configs) ≡ ok t''
  unfolding add_configs
  add_configs_step t t' t'' config configs now later = rw now later

  add_configs-ok :
      (configs : List (Result DirEntry IoError)) (t : Tables)
      → HasNames configs
      → (t' : Tables) × (add_configs unicode read t configs ≡ ok t')
  add_configs-ok [] t names = (t, unfold add_configs in refl)
  add_configs-ok (err e ∷ configs) t names =
      let (t', later) = add_configs-ok configs _ (λ cfg m. names cfg (inr m)) in
      (t', add_configs_step t _ t' (err e) configs (add_config_unlisted unicode read t e) later)
  add_configs-ok (ok cfg ∷ configs) t names =
      let (name, named) = names cfg (inl refl) in
      let (u, now) = add_config-ok t cfg named in
      let (t', later) = add_configs-ok configs u (λ d m. names d (inr m)) in
      (t', add_configs_step t u t' (ok cfg) configs now later)

module _ (unicode : Str → Str) (order : Order) (domain : Str) (fs : FileSystem) (dir : Str)
    (configs : List (Result DirEntry IoError)) where
  -- A directory that can be listed, in which every entry has a file name in UTF-8, is read without
  -- an error: files that do not parse and entries that vanish do not stop the reading, and no
  -- container lacks its list of networks, in whatever order the containers are visited.
  pub parse_configs-ok :
      VisitsAll order
      → fs.is_dir dir ≡ ok true
      → fs.read_dir dir ≡ ok configs
      → HasNames configs
      → (r : Parsed) × (parse_configs unicode order domain fs dir ≡ ok r)
  unfolding parse_configs finish_tables
  parse_configs-ok all is_dir listing names =
      let (t, loop) = add_configs-ok unicode fs.read_to_string configs no_tables names in
      let (ctrs, built) = build-ok unicode fs configs t loop order all in
      (result_of domain t ctrs, rw (is_dir, listing, loop, built) refl)
