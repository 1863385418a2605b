-- ===== src/Server/Reload/Served.antt =====
-- From the files of the directory to the handles of tasks: what a reload brings about.
use aardvark_dns.Prelude.{ℕ, ◌≡◌, ◌↔◌, List, Option, some}
use aardvark_dns.Prelude.Classes.{nat_eq, pair_eq}
use aardvark_dns.Text.{Str, str_eq}
use aardvark_dns.Result.{Result, ok}
use aardvark_dns.Error.{IoError}
use aardvark_dns.HashMap.{get}
use aardvark_dns.Net.Addr.{IpAddr, v4, v6}
use aardvark_dns.Config.Directory.{DirEntry}
use aardvark_dns.Config.Contents.Listens.{Binds, parse_configs-listens}
use aardvark_dns.Server.Threads.Outcome.{IsVisit}
use aardvark_dns.Server.Reload.{Setup, World, Server, returned, read_config_and_spawn}
use aardvark_dns.Server.Reload.Reading.{IsWellFormed}
use aardvark_dns.Server.Reload.Success.{read_config_and_spawn-Serving}

-- The handle that the table has for the listen address of the network `net`.
abbrev pub handle_of : Server → Str → IpAddr → Option ℕ
handle_of s net (v4 a) = get s.handles_v4.handles (net, a)
handle_of s net (v6 a) = get s.handles_v6.handles (net, a)

-- A listen address has a handle exactly when a file binds it, and keeps the one that it had.
abbrev pub HandleFollows : Server → Server → Str → IpAddr → Type 0 → Type 0
HandleFollows s s' net a binds =
    (((handle : ℕ) × (handle_of s' net a ≡ some handle)) ↔ binds)
    × ((handle : ℕ) → binds → handle_of s net a ≡ some handle → handle_of s' net a ≡ some handle)

module _ (setup : Setup) (world : World) (IsVisit-v4 : IsVisit setup.visit_v4)
    (IsVisit-v6 : IsVisit setup.visit_v6) (s s' : Server)
    (configs : List (Result DirEntry IoError)) where
  -- From distinct keys, when a reload returns `Ok`, the table of tasks has a handle for an address
  -- and a network exactly when some file of that network in the directory binds the address, and
  -- such an address keeps the handle that it had before.
  pub read_config_and_spawn-Binds :
      IsWellFormed s
      → world.files.read_dir setup.config_path ≡ ok configs
      → read_config_and_spawn setup world s ≡ returned s' (ok tt)
      → (net : Str) (a : IpAddr)
      → HandleFollows s s' net a (Binds setup.unicode world.files configs net a)
  read_config_and_spawn-Binds w listing h net a =
      let serving = read_config_and_spawn-Serving setup world IsVisit-v4 IsVisit-v6 s s' w h in
      let listens =
        parse_configs-listens setup.unicode setup.order setup.filter_search_domain world.files
          setup.config_path serving.parsed configs listing serving.read net in
      elim a as (λ x. HandleFollows s s' net x (Binds setup.unicode world.files configs net x)) [
        | v4 x ↦
            let runs = serving.runs_v4 (net, x) in
            let bound = listens (v4 x) in
            (
              ((λ t. bound.0 (runs.0 t)), (λ b. runs.1 (bound.1 b))),
              (λ handle b. serving.stays_v4 (net, x) handle (bound.1 b)),
            )
        | v6 x ↦
            let runs = serving.runs_v6 (net, x) in
            let bound = listens (v6 x) in
            (
              ((λ t. bound.0 (runs.0 t)), (λ b. runs.1 (bound.1 b))),
              (λ handle b. serving.stays_v6 (net, x) handle (bound.1 b)),
            )
      ]
