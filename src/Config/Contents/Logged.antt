-- ===== src/Config/Contents/Logged.antt =====
-- What `parse_configs` logs.
mod OneFile
use aardvark_dns.Prelude.{
  ◌≡◌, ◌↔◌, ◌⊎◌, inl, inr, refl, sym, ap, ◌∙◌, subst, Bool, false, List, [], ◌∷◌, ◌++◌, Has,
  Bool-cases, Has-append_left, Has-append_right, Has-append_split,
}
use aardvark_dns.Text.{Str}
use aardvark_dns.Result.{Result, ok, err, Result-cases, >>=-eq-ok, ok-injective, err-injective}
use aardvark_dns.Error.{
  AardvarkError, message, io_error, chain, list, addr_parse_error, IoError, ErrorKind, not_found,
  other,
}
use aardvark_dns.Net.Addr.{IpAddr, v4, v6}
use aardvark_dns.Config.Entry.{CtrEntry, ParsedNetworkConfig}
use aardvark_dns.Config.File.{parse_config}
use aardvark_dns.Config.Directory.{
  DirEntry, FileSystem, Tables, LogLine, read_failed, list_failed, no_tables, Parsed, Order,
  new_ctr_ips, add_ip, add_ips, add_entry, add_entries, add_bind, add_binds, add_servers,
  add_parsed, network_of, is_pid_file, log_read, log_list, add_config, add_configs, result_of,
  parse_configs,
}
use aardvark_dns.Config.Branches.{
  add_config_unlisted, add_config_pid, add_config_failed, add_config_parsed, add_config_unnamed,
}
use aardvark_dns.Config.Contents.Run.{parse_configs-Run}
use aardvark_dns.Config.Log.{OtherIo}
use aardvark_dns.Config.Contents.Logged.OneFile.{parsed_log}

only : (line l : LogLine) → Has line (l ∷ []) ↔ ((line ≡ l) × (⊥ → ⊥))
only line l = (λ h. elim h [ inl e ↦ (e, λ x. x) | inr x ↦ absurd x ], λ (e, _). inl e)

io_line :
    (line : LogLine) (path text : Str) (kind : ErrorKind)
    → Has line (log_read path (io_error (record { kind = kind; text = text }))) ↔ (
        (line ≡ read_failed path (io_error (record { kind = kind; text = text })))
        × (kind ≡ other → ⊥))
unfolding log_read
io_line line path text not_found =
    (λ h. elim h [ inl e ↦ (e, λ x. cc) | inr x ↦ absurd x ], λ (e, _). inl e)
io_line line path text other = (λ h. absurd h, λ (e, loud). absurd (loud refl))

log_read_line :
    (line : LogLine) (path : Str) (e : AardvarkError)
    → Has line (log_read path e) ↔ ((line ≡ read_failed path e) × (OtherIo e → ⊥))
unfolding log_read
log_read_line line path (io_error e) = io_line line path e.text e.kind
log_read_line line path (message s) = only line (read_failed path (message s))
log_read_line line path (chain s e) = only line (read_failed path (chain s e))
log_read_line line path (list l) = only line (read_failed path (list l))
log_read_line line path (addr_parse_error e) = only line (read_failed path (addr_parse_error e))

list_line :
    (line : LogLine) (text : Str) (kind : ErrorKind)
    → Has line (log_list (record { kind = kind; text = text }))
      ↔ ((line ≡ list_failed (record { kind = kind; text = text })) × (kind ≡ other))
unfolding log_list
list_line line text not_found = (λ h. absurd h, λ (e, k). cc)
list_line line text other = (λ h. elim h [ inl e ↦ (e, refl) | inr x ↦ absurd x ], λ (e, k). inl e)

module _ (unicode : Str → Str) (read : Str → Result Str IoError) (line : LogLine) where
  -- The line says that a file could not be read: not for an I/O error other than `NotFound`.
  abbrev pub ReadFails : Result DirEntry IoError → Type 0
  ReadFails config =
      (cfg : DirEntry) × (e : AardvarkError) × (ok cfg ≡ config)
      × (line ≡ read_failed cfg.path e)
      × (is_pid_file cfg.file_name ≡ false)
      × (parse_config unicode cfg.path (read cfg.path) ≡ err e)
      × (OtherIo e → ⊥)

  -- The line says that an entry could not be listed: not if it is gone.
  abbrev pub ListFails : Result DirEntry IoError → Type 0
  ListFails config = (e : IoError) × (err e ≡ config) × (line ≡ list_failed e) × (e.kind ≡ other)

  abbrev pub Logs : Result DirEntry IoError → Type 0
  Logs config = ReadFails config ⊎ ListFails config

  -- An entry that logs nothing.
  silent :
      (t t' : Tables) (config : Result DirEntry IoError)
      → t'.log ≡ t.log
      → (Logs config → ⊥)
      → Has line t'.log ↔ (Has line t.log ⊎ Logs config)
  silent t t' config same nothing = (
    λ h. inl (subst (Has line) same h),
    λ h. elim h [ inl old ↦ subst (Has line) (sym same) old | inr l ↦ absurd (nothing l) ],
  )

  -- An entry that logs `lines`.
  loud :
      (t t' : Tables) (config : Result DirEntry IoError) (lines : List LogLine)
      → t'.log ≡ t.log ++ lines
      → Has line lines ↔ Logs config
      → Has line t'.log ↔ (Has line t.log ⊎ Logs config)
  loud t t' config lines appended says = (
    λ h. elim (Has-append_split line t.log lines (subst (Has line) appended h)) [
      | inl old ↦ inl old
      | inr new ↦ inr (says.0 new)
    ],
    λ h. subst (Has line) (sym appended) (elim h [
      | inl old ↦ Has-append_left line t.log lines old
      | inr l ↦ Has-append_right line t.log lines (says.1 l)
    ]),
  )

  -- What a file says that it logs.
  abbrev FileFails : DirEntry → Type 0
  FileFails cfg =
      (e : AardvarkError) × (line ≡ read_failed cfg.path e)
      × (is_pid_file cfg.file_name ≡ false)
      × (parse_config unicode cfg.path (read cfg.path) ≡ err e)
      × (OtherIo e → ⊥)

  file_fails : (cfg : DirEntry) → Logs (ok cfg) → FileFails cfg
  file_fails cfg (inr (why, eq, _, _)) = cc eq
  file_fails cfg (inl (d, e, eq, same, not_pid, failed, heard)) =
      subst FileFails (ok-injective eq) (e, same, not_pid, failed, heard)

  config_step :
      (t t' : Tables) (config : Result DirEntry IoError)
      → add_config unicode read t config ≡ ok t'
      → Has line t'.log ↔ (Has line t.log ⊎ Logs config)
  config_step t t' (err e) h =
      let says = list_line line e.text e.kind in
      loud t t' (err e) (log_list e)
        (ap (λ (x : Tables). x.log) (ok-injective (sym h ∙ add_config_unlisted unicode read t e)))
        (
          (λ m. let (same, k) = says.0 m in inr (e, refl, same, k)),
          (λ l. elim l [
            | inl (cfg, why, eq, _, _, _, _) ↦ cc eq
            | inr (why, eq, same, k) ↦
                let e_same : why ≡ e = err-injective eq in
                says.1
                  (same ∙ ap list_failed e_same, subst (λ (x : IoError). x.kind ≡ other) e_same k)
          ]),
        )
  config_step t t' (ok cfg) h = elim (Bool-cases (is_pid_file cfg.file_name)) [
    | inl pid ↦
        silent t t' (ok cfg)
          (ap (λ (x : Tables). x.log)
            (ok-injective (sym h ∙ add_config_pid unicode read t cfg pid)))
          (λ l. let (e, same, not_pid, failed, heard) = file_fails cfg l in cc (pid, not_pid))
    | inr not_pid ↦ elim (Result-cases (parse_config unicode cfg.path (read cfg.path))) [
      | inr (e, failed) ↦
          let says = log_read_line line cfg.path e in
          loud t t' (ok cfg) (log_read cfg.path e)
            (ap (λ (x : Tables). x.log)
              (ok-injective (sym h ∙ add_config_failed unicode read t cfg not_pid failed)))
            (
              (λ m.
                  let (same, heard) = says.0 m in inl (cfg, e, refl, same, not_pid, failed, heard)),
              (λ l.
                  let (why, same, _, failed', heard) = file_fails cfg l in
                  let one : why ≡ e = err-injective (sym failed' ∙ failed) in
                  says.1
                    (same ∙ ap (read_failed cfg.path) one, subst (λ x. OtherIo x → ⊥) one heard)),
            )
      | inl (c, parsed) ↦ elim (Result-cases (network_of cfg.path cfg.file_name)) [
        | inr (e, unnamed) ↦
            absurd (cc (h, add_config_unnamed unicode read t cfg not_pid parsed unnamed))
        | inl ((net, internal), named) ↦
            silent t t' (ok cfg)
              (ap (λ (x : Tables). x.log)
                  (ok-injective (sym h ∙ add_config_parsed unicode read t cfg not_pid parsed named))
                ∙ parsed_log net internal t c)
              (λ l. let (e, same, _, failed, heard) = file_fails cfg l in cc (parsed, failed))
      ]
    ]
  ]

  -- The whole loop.
  configs_log :
      (configs : List (Result DirEntry IoError)) (t t' : Tables)
      → add_configs unicode read t configs ≡ ok t'
      → Has line t'.log
        ↔ (Has line t.log ⊎ ((config : Result DirEntry IoError) × Has config configs × Logs config))
  unfolding add_configs
  configs_log [] t t' h =
      subst
        (λ u.
          Has line u.log
          ↔ (Has line t.log ⊎ ((config : Result DirEntry IoError) × Has config [] × Logs config)))
        (ok-injective h) (λ f. inl f, λ r. elim r [ inl f ↦ f | inr (config, m, _) ↦ absurd m ])
  configs_log (config ∷ configs) t t' h =
      let (u, first, rest) =
        >>=-eq-ok (add_config unicode read t config) (λ u. add_configs unicode read u configs) h in
      let now = config_step t u config first in
      let later = configs_log configs u t' rest in
      (
        λ f. elim (later.0 f) [
          | inl g ↦ elim (now.0 g) [ inl old ↦ inl old | inr l ↦ inr (config, inl refl, l) ]
          | inr (other_config, m, l) ↦ inr (other_config, inr m, l)
        ],
        λ r. elim r [
          | inl old ↦ later.1 (inl (now.1 (inl old)))
          | inr (c, inl eq, l) ↦ later.1 (inl (now.1 (inr (subst Logs eq l))))
          | inr (c, inr m, l) ↦ later.1 (inr (c, m, l))
        ],
      )

module _ (unicode : Str → Str) (order : Order) (domain : Str) (fs : FileSystem) (dir : Str)
    (r : Parsed) (configs : List (Result DirEntry IoError)) (listing : fs.read_dir dir ≡ ok configs)
    (h : parse_configs unicode order domain fs dir ≡ ok r) where
  -- When the directory is read without an error, a line stands in the log exactly when it names a
  -- file, other than the pid file, that could not be read, for any reason but an I/O error other
  -- than `NotFound`, or an entry that could not be listed, for any reason but `NotFound`.
  pub parse_configs-log :
      (line : LogLine)
      → Has line r.log ↔ (
          (config : Result DirEntry IoError) × Has config configs
          × Logs unicode fs.read_to_string line config)
  unfolding result_of
  parse_configs-log line =
      let run = parse_configs-Run unicode order domain fs dir configs r listing h in
      let at_run =
        configs_log unicode fs.read_to_string line configs no_tables run.tables run.loop in
      let lines = ap (λ (p : Parsed). p.log) run.result in
      (
        (λ m. elim (at_run.0 (subst (Has line) lines m)) [
          | inl none_yet ↦ absurd none_yet
          | inr l ↦ l
        ]),
        (λ l. subst (Has line) (sym lines) (at_run.1 (inr l))),
      )
