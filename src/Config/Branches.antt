-- ===== src/Config/Branches.antt =====
-- One directory entry in `parse_configs`: what happens on each branch.
use aardvark_dns.Prelude.{◌≡◌, refl, Bool, true, false, ◌++◌}
use aardvark_dns.Text.{Str}
use aardvark_dns.Result.{Result, ok, err}
use aardvark_dns.Error.{AardvarkError, IoError}
use aardvark_dns.Config.Entry.{ParsedNetworkConfig}
use aardvark_dns.Config.File.{parse_config}
use aardvark_dns.Config.Directory.{
  DirEntry, Tables, add_parsed, network_of, is_pid_file, add_config, log_read, log_list,
}

module _ (unicode : Str → Str) (read : Str → Result Str IoError) (t : Tables) where
  pub add_config_unlisted :
      (e : IoError)
      → add_config unicode read t (err e) ≡ ok (record t { log = t.log ++ log_list e })
  unfolding add_config
  add_config_unlisted e = refl

  module _ (cfg : DirEntry) where
    pub add_config_pid :
        is_pid_file cfg.file_name ≡ true → add_config unicode read t (ok cfg) ≡ ok t
    unfolding add_config
    add_config_pid pid = rw pid refl

    pub add_config_failed :
        {e : AardvarkError}
        → is_pid_file cfg.file_name ≡ false
        → parse_config unicode cfg.path (read cfg.path) ≡ err e
        → add_config unicode read t (ok cfg) ≡ ok (record t { log = t.log ++ log_read cfg.path e })
    unfolding add_config
    add_config_failed not_pid failed = rw (not_pid, failed) refl

    pub add_config_parsed :
        {c : ParsedNetworkConfig} {net : Str} {internal : Bool}
        → is_pid_file cfg.file_name ≡ false
        → parse_config unicode cfg.path (read cfg.path) ≡ ok c
        → network_of cfg.path cfg.file_name ≡ ok (net, internal)
        → add_config unicode read t (ok cfg) ≡ ok (add_parsed net internal t c)
    unfolding add_config
    add_config_parsed not_pid parsed named = rw (not_pid, parsed, named) refl

    pub add_config_unnamed :
        {c : ParsedNetworkConfig} {e : AardvarkError}
        → is_pid_file cfg.file_name ≡ false
        → parse_config unicode cfg.path (read cfg.path) ≡ ok c
        → network_of cfg.path cfg.file_name ≡ err e
        → add_config unicode read t (ok cfg) ≡ err e
    unfolding add_config
    add_config_unnamed not_pid parsed unnamed = rw (not_pid, parsed, unnamed) refl
