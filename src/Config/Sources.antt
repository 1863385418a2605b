-- ===== src/Config/Sources.antt =====
-- Where a fact in the tables of `parse_configs` comes from: a file of the directory, or an entry of
-- one.
use aardvark_dns.Prelude.{◌≡◌, inr, Bool, false, List, ◌∷◌, Has}
use aardvark_dns.Text.{Str}
use aardvark_dns.Result.{Result, ok}
use aardvark_dns.Error.{IoError}
use aardvark_dns.Config.Entry.{CtrEntry, ParsedNetworkConfig}
use aardvark_dns.Config.File.{parse_config}
use aardvark_dns.Config.Directory.{DirEntry, network_of, is_pid_file}

module _ (unicode : Str → Str) (read : Str → Result Str IoError) where
  -- The directory entry `cfg` is a file of the network `net` that parses to `c`.
  pub record Source (net : Str) (c : ParsedNetworkConfig) (cfg : DirEntry) : Type 0 where
    pub not_pid : is_pid_file cfg.file_name ≡ false
    pub parsed : parse_config unicode cfg.path (read cfg.path) ≡ ok c
    pub internal : Bool
    pub named : network_of cfg.path cfg.file_name ≡ ok (net, internal)

  -- Some file of the directory is one of the network `net` that parses to `c`.
  pub record Configures (configs : List (Result DirEntry IoError)) (net : Str)
      (c : ParsedNetworkConfig) : Type 0 where
    pub cfg : DirEntry
    pub listed : Has (ok cfg) configs
    pub source : Source net c cfg

  pub Configures-later :
      (config : Result DirEntry IoError) (configs : List (Result DirEntry IoError)) {net : Str}
      {c : ParsedNetworkConfig}
      → Configures configs net c
      → Configures (config ∷ configs) net c
  Configures-later config configs d = record {
    cfg = d.cfg;
    listed = inr d.listed;
    source = d.source;
  }

  -- Some file of the directory declares `entry` for the network `net`.
  pub record Declares (configs : List (Result DirEntry IoError)) (net : Str) (entry : CtrEntry)
      : Type 0 where
    pub config : ParsedNetworkConfig
    pub file : Configures configs net config
    pub present : Has entry config.container_entry
