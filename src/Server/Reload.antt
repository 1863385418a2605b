-- ===== src/Server/Reload.antt =====
-- src/server/serve.rs: `read_config_and_spawn`, the steps of `serve`, and the state that they share.
-- IPv4 and IPv6 have a table of tasks each, with their own events.
pub mod Tables
pub mod Reading
pub mod Success
pub mod Served
pub mod Steps
mod Tests
use aardvark_dns.Prelude.{
  Bool, true, false, ◌&&◌, ℕ, List, [], ◌∷◌, Option, none, some, if◌then◌else◌, is_empty,
}
use aardvark_dns.Prelude.Classes.{nat_eq}
use aardvark_dns.Text.{Str, codes}
use aardvark_dns.Result.{Result, ok, err}
use aardvark_dns.Error.{
  into_same, AardvarkError, AardvarkErrorList, AardvarkResult, nil, chain, IoError, push, wrap,
}
use aardvark_dns.Net.Addr.{Ipv4Addr, Ipv6Addr, v4, v6, SocketAddr}
use aardvark_dns.Backend.{DnsBackend}
use aardvark_dns.Config.Directory.{Order, FileSystem, Parsed, parse_configs}
use aardvark_dns.Server.Resolv.{get_upstream_resolvers}
use aardvark_dns.Server.Threads.{Binder, Threads, outcome, stop_threads, stop_and_start_threads}

-- What the program is started with, and what does not change while it runs.
pub record Setup : Type 0 where
  pub config_path : Str
  pub port : ℕ
  pub filter_search_domain : Str
  pub unicode : Str → Str
  pub order : Order
  pub if_nametoindex : Str → Result ℕ IoError
  pub display : SocketAddr → Str
  pub visit_v4 : List (Str × Ipv4Addr) → List (Str × Ipv4Addr)
  pub visit_v6 : List (Str × Ipv6Addr) → List (Str × Ipv6Addr)

-- What one reload finds: the files, resolv.conf, the sockets, and whether the pid file can go.
pub record World : Type 0 where
  pub files : FileSystem
  pub resolv_conf : Result (Result Str IoError) IoError
  pub remove_pid_file : Result (Unit {0}) IoError
  pub binder_v4 : Binder
  pub binder_v6 : Binder

-- The store of the answers, the host's resolvers, and the tasks.
pub record Server : Type 0 where
  pub backend : Option DnsBackend
  pub nameservers : List SocketAddr
  pub handles_v4 : Threads Ipv4Addr
  pub handles_v6 : Threads Ipv6Addr

-- How a call ends: it returns, `process::exit` ends the process, or `unwrap` panics.
pub data Ending : Type 0 where
  returned : Server → AardvarkResult (Unit {0}) → Ending
  exit : ℕ → Server → Ending
  panic : Ending

-- The host's resolvers, none and an error if they cannot be read.
abbrev pub resolvers_or : AardvarkResult (List SocketAddr) → List SocketAddr × AardvarkErrorList
resolvers_or (ok ns) = (ns, nil)
resolvers_or (err e) = (
  [],
  push nil (chain (codes "failed to get upstream nameservers, dns forwarding will not work") e),
)

-- `if let Err(err) = … { errors.push(err) }`
abbrev pub push_error : AardvarkErrorList → AardvarkResult (Unit {0}) → AardvarkErrorList
push_error errors (ok _) = errors
push_error errors (err e) = push errors e

module _ (setup : Setup) (world : World) where
  -- No listen address: the pid file is removed and all tasks are stopped.
  unfoldable pub stop_server : Server → Ending
  stop_server s = elim world.remove_pid_file [
    | err e ↦ exit 1 s
    | ok _ ↦ elim (stop_threads v4 s.handles_v4 none) [
      | none ↦ panic
      | some t4 ↦ elim (stop_threads v6 s.handles_v6 none) [
        | none ↦ panic
        | some t6 ↦ exit 0 (record s { handles_v4 = t4; handles_v6 = t6 })
      ]
    ]
  ]

  -- The tasks of both families, IPv4 first; the errors of both are collected.
  unfoldable pub spawn_all : Parsed → Server → AardvarkErrorList → Ending
  spawn_all parsed s errors =
      elim (stop_and_start_threads v4 setup.display world.binder_v4 setup.port setup.visit_v4
        parsed.listen_4 s.handles_v4) [
          | none ↦ panic
          | some (t4, r4) ↦
              elim (stop_and_start_threads v6 setup.display world.binder_v6 setup.port
                setup.visit_v6 parsed.listen_6 s.handles_v6) [
                  | none ↦ panic
                  | some (t6, r6) ↦
                      returned (record s { handles_v4 = t4; handles_v6 = t6 })
                        (outcome (push_error (push_error errors r4) r6))
                ]
        ]

  -- What follows a successful parse; the store is replaced first.
  unfoldable pub use_config : Parsed → Server → Ending
  unfolding stop_server spawn_all
  use_config parsed s =
      let stored = record s { backend = some parsed.backend } in
      if is_empty parsed.listen_4 && is_empty parsed.listen_6
      then stop_server stored
      else (let (ns, errors) =
            resolvers_or (get_upstream_resolvers setup.if_nametoindex world.resolv_conf) in
          spawn_all parsed (record stored { nameservers = ns }) errors)

  unfoldable pub read_config_and_spawn : Server → Ending
  unfolding use_config
  read_config_and_spawn s =
      elim (wrap
        (parse_configs setup.unicode setup.order setup.filter_search_domain world.files
          setup.config_path)
        (codes "unable to parse config")) [
          | err e ↦ returned s (err e)
          | ok parsed ↦ use_config parsed s
        ]

  -- The arm of `serve` for a change of resolv.conf: an error leaves the resolvers as they are.
  unfoldable pub reload_nameservers : Server → Server
  reload_nameservers s = elim (get_upstream_resolvers setup.if_nametoindex world.resolv_conf) [
    | ok ns ↦ record s { nameservers = ns }
    | err e ↦ s
  ]
