-- ===== src/Config/Tests.antt =====
-- Runs of the reader on the sample directory, and the theorems at concrete inputs.
use aardvark_dns.Prelude.{
  String, ap, ◌≡◌, ◌↔◌, inl, inr, Has, false, refl, List, [], ◌∷◌, Option, some, none,
}
use aardvark_dns.Text.{Str, codes}
use aardvark_dns.Text.Case.{is_ascii, to_lowercase}
use aardvark_dns.HashMap.{found, get}
use aardvark_dns.Result.{Result, ok, ok-injective, ◌>>=◌}
use aardvark_dns.Error.{IoError, io_error, AardvarkResult}
use aardvark_dns.Net.Addr.{ip_eq, IpAddr, v4, v6}
use aardvark_dns.Backend.{close_domain, lookup_key, lookup, trim_end}
use aardvark_dns.Config.Directory.{read_failed, DirEntry, utf8, Parsed, parse_configs}
use aardvark_dns.Config.Samples.{sample_fs, entries, file, gone}
use aardvark_dns.Config.Contents.Logged.{Logs, parse_configs-log}
use aardvark_dns.Config.Contents.Names.{
  Declared, HasName, HasReverse, parse_configs-names, parse_configs-reverse,
}
use aardvark_dns.Config.Contents.Networks.{Joined, parse_configs-networks}
use aardvark_dns.Config.Contents.Total.{HasNames, parse_configs-ok}
use aardvark_dns.Text.Split.{split}
use aardvark_dns.Config.File.{parse_config}
use aardvark_dns.Config.File.Accepts.{Succeeds, IsFile, used, parse_config-accepts}
use aardvark_dns.Config.File.Valid.{IsLower, IsValidConfig, parse_config-IsValidConfig}
use aardvark_dns.Config.Isolation.{lookup-Declared}
use aardvark_dns.Config.Samples.Run.{
  unicode_id, visit, sample_outcome, sample_parsed, parse_configs_run, visit-VisitsAll, db_entry,
  podman_config, podman_parsed, db_declared,
}

-- The container db looks up a name of its network.
lookup-Declared_example :
    Has
      (v4 0x0a580002)
      (found (lookup unicode_id sample_parsed.backend (v4 0x0a580003) (codes "priv") (codes "ab.")))
    ↔ ((net : Str) × Joined unicode_id sample_fs entries (v4 0x0a580003) net
        × Declared unicode_id sample_fs entries net
            (lookup_key unicode_id (close_domain (codes "dns.podman")) (codes "ab."))
            (v4 0x0a580002))
lookup-Declared_example =
    lookup-Declared unicode_id visit (codes "dns.podman") sample_fs (codes "/run") sample_parsed
      entries visit-VisitsAll refl parse_configs_run (v4 0x0a580003) (v4 0x0a580002) (codes "priv")
      (codes "ab.") (codes "podman") db_entry db_declared (inl refl)

parse_configs-names_example :
    HasName sample_parsed.backend (codes "priv") (codes "hello") (v4 0x0a590002)
    ↔ Declared unicode_id sample_fs entries (codes "priv") (codes "hello") (v4 0x0a590002)
parse_configs-names_example =
    parse_configs-names unicode_id visit (codes "dns.podman") sample_fs (codes "/run") sample_parsed
      entries refl parse_configs_run (codes "priv") (codes "hello") (v4 0x0a590002)

parse_configs-reverse_example :
    HasReverse sample_parsed.backend (codes "priv") (codes "hello") (v4 0x0a590002)
    ↔ HasName sample_parsed.backend (codes "priv") (codes "hello") (v4 0x0a590002)
parse_configs-reverse_example =
    parse_configs-reverse unicode_id visit (codes "dns.podman") sample_fs (codes "/run")
      sample_parsed entries refl parse_configs_run (codes "priv") (codes "hello") (v4 0x0a590002)

parse_configs-networks_example :
    Has (codes "priv") (found (get sample_parsed.backend.ip_mappings (v4 0x0a580002)))
    ↔ Joined unicode_id sample_fs entries (v4 0x0a580002) (codes "priv")
parse_configs-networks_example =
    parse_configs-networks unicode_id visit (codes "dns.podman") sample_fs (codes "/run")
      sample_parsed entries visit-VisitsAll refl parse_configs_run (v4 0x0a580002) (codes "priv")

file-HasNames :
    (name : String) (cfg : DirEntry)
    → ◌≡◌ {A = Result DirEntry IoError} (ok cfg) (ok (file name))
    → (x : Str) × (cfg.file_name ≡ some (utf8 x))
file-HasNames name cfg h = (codes name, ap (λ (d : DirEntry). d.file_name) (ok-injective h))

entries-HasNames : HasNames entries
entries-HasNames cfg (inl h) = file-HasNames "podman" cfg h
entries-HasNames cfg (inr (inl h)) = file-HasNames "aardvark.pid" cfg h
entries-HasNames cfg (inr (inr (inl h))) = cc
entries-HasNames cfg (inr (inr (inr (inl h)))) = file-HasNames "priv%int" cfg h
entries-HasNames cfg (inr (inr (inr (inr (inl h))))) = file-HasNames "lost" cfg h
entries-HasNames cfg (inr (inr (inr (inr (inr x))))) = absurd x

parse_configs-ok_example :
    (r : Parsed) × (parse_configs unicode_id visit (codes "dns.podman") sample_fs (codes "/run")
      ≡ ok r)
parse_configs-ok_example =
    parse_configs-ok unicode_id visit (codes "dns.podman") sample_fs (codes "/run") entries
      visit-VisitsAll refl refl entries-HasNames

IsLower-same : (s : Str) → is_ascii s ≡ false → IsLower unicode_id (unicode_id s)
unfolding to_lowercase
IsLower-same s h = rw h refl

parse_config-accepts_example :
    Succeeds (parse_config unicode_id (codes "podman") (sample_fs.read_to_string (codes "podman")))
    ↔ ((text : Str) × (sample_fs.read_to_string (codes "podman") ≡ ok text)
        × IsFile (used (split b'\n' text)))
parse_config-accepts_example =
    parse_config-accepts unicode_id (codes "podman") (sample_fs.read_to_string (codes "podman"))

parse_config-IsValidConfig_example : IsValidConfig unicode_id podman_config
parse_config-IsValidConfig_example =
    parse_config-IsValidConfig unicode_id IsLower-same (λ k s low wide h. h) (codes "podman")
      (sample_fs.read_to_string (codes "podman")) podman_config podman_parsed

abbrev answers : String → IpAddr → AardvarkResult (Option (List IpAddr))
answers name requester = do
  r ← sample_outcome
  ok (lookup unicode_id r.backend requester (codes "podman") (codes name))

answers_lem :
    (answers "helloworld." (v4 0x0a580003)
      ≡ ok (some (v4 0x0a580002 ∷ v6 0xfdfd0000000000000000000000000002 ∷ [])))
    × (answers "hello" (v4 0x0a580003) ≡ ok none)
    × (answers "HELLOdns.podman." (v4 0x0a580002) ≡ ok (some (v4 0x0a590002 ∷ [])))
unfolding sample_outcome lookup lookup_key trim_end
answers_lem = (refl, refl, refl)

-- The file `lost` is listed and gone.
parse_configs-log_example : Has (read_failed (codes "lost") (io_error gone)) sample_parsed.log ↔ (
    (config : Result DirEntry IoError) × Has config entries
    × Logs unicode_id sample_fs.read_to_string (read_failed (codes "lost") (io_error gone)) config)
parse_configs-log_example =
    parse_configs-log unicode_id visit (codes "dns.podman") sample_fs (codes "/run") sample_parsed
      entries refl parse_configs_run (read_failed (codes "lost") (io_error gone))
