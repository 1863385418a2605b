-- ===== src/Server/Serve.antt =====
-- src/server/serve.rs: `serve`, from its start to the loop over signals and changes of resolv.conf,
-- and the calls of the system that it makes by their results.
pub mod Starts
pub mod Loop
pub mod Spec
mod Tests
use aardvark_dns.Prelude.{
  ℕ, Bool, true, false, not, ◌&&◌, ◌++◌, List, [], ◌∷◌, if◌then◌else◌, String,
}
use aardvark_dns.Text.{Str, codes}
use aardvark_dns.Result.{Result, ok, err}
use aardvark_dns.Error.{AardvarkError, AardvarkResult, io_error, IoError}
use aardvark_dns.Server.Reload.{
  Setup, World, Server, Ending, returned, exit, panic, read_config_and_spawn, reload_nameservers,
}
use aardvark_dns.Server.Reload.Steps.{no_tasks}

-- The results of the system's calls at the start: the handler for SIGHUP, `open` of /dev/null, the
-- write to the pipe of the parent, and the three steps to a stream of changes of resolv.conf.
pub record Host : Type 0 where
  pub signal : Result (Unit {0}) IoError
  pub open_dev_null : Result (Unit {0}) IoError
  pub write_ready : Result (Unit {0}) IoError
  pub inotify_init : Result (Unit {0}) IoError
  pub add_watch : Result (Unit {0}) IoError
  pub into_event_stream : Result (Unit {0}) IoError

-- What the loop waits for, with what the reload finds.
pub data Wake : Type 0 where
  sighup resolv_conf : World → Wake

-- Where `serve` is after what it has waited for: it has returned an error, the process has ended,
-- or it waits again.
pub data Served : Type 0 where
  failed : AardvarkError → Served
  exited : ℕ → Server → Served
  panicked : Served
  waiting : Server → Served

-- The number of bytes in the pipe of the parent, and how it goes on.
pub record Serve : Type 0 where
  pub ready : ℕ
  pub served : Served

-- The result of opening /dev/null; `setsid` and `dup2` may fail.
abbrev pub daemonize : Host → Result (Unit {0}) IoError
daemonize host = elim host.open_dev_null [
  | ok _ ↦ ok tt
  | err e ↦ err (record { kind = e.kind; text = codes "/dev/null: " ++ e.text })
]

abbrev no_updates : String → IoError → List Str
no_updates what e =
    (codes what ++ (codes " Nameservers will not be updated on resolv.conf change: " ++ e.text))
    ∷ []

-- Whether there is a stream of changes, and what is logged.
unfoldable pub get_inotify_event_stream : Host → Bool × List Str
get_inotify_event_stream host = elim host.inotify_init [
  | err e ↦ (false, no_updates "Failed to initialize inotify." e)
  | ok _ ↦ elim host.add_watch [
    | err e ↦ (false, no_updates "Failed to add watch on /etc/resolv.conf." e)
    | ok _ ↦ elim host.into_event_stream [
      | err e ↦ (false, no_updates "Failed to stream inotify events." e)
      | ok _ ↦ (true, [])
    ]
  ]
]

-- `eager`: `select!` evaluates the expression of an arm whose condition is false, as the
-- documentation of tokio says; without a stream that expression is an `unwrap` of `None`.
module _ (setup : Setup) (eager stream : Bool) where
  abbrev pub select_panics : Bool
  select_panics = eager && not stream

  unfoldable pub serve_loop : List Wake → Server → Served
  serve_loop [] s = if select_panics then panicked else waiting s
  serve_loop (sighup world ∷ wakes) s =
      if select_panics then panicked else (elim (read_config_and_spawn setup world s) [
        | returned s' r ↦ serve_loop wakes s'
        | exit code s' ↦ exited code s'
        | panic ↦ panicked
      ])
  serve_loop (resolv_conf world ∷ wakes) s =
      if select_panics
      then panicked
      else if stream
      then serve_loop wakes (reload_nameservers setup world s)
      else serve_loop wakes s

module _ (setup : Setup) (eager : Bool) (host : Host) (wakes : List Wake) where
  -- What follows the first reload.
  abbrev pub announce : Server → Serve
  announce s = elim (daemonize host) [
    | err e ↦ record { ready = 0; served = failed (io_error e) }
    | ok _ ↦ elim host.write_ready [
      | err e ↦ record { ready = 0; served = failed (io_error e) }
      | ok _ ↦ record {
        ready = 1;
        served = serve_loop setup eager (get_inotify_event_stream host).0 wakes s;
      }
    ]
  ]

  abbrev pub first_reload : Ending → Serve
  first_reload (returned s (err e)) = record { ready = 0; served = failed e }
  first_reload (returned s (ok _)) = announce s
  first_reload (exit code s) = record { ready = 0; served = exited code s }
  first_reload panic = record { ready = 0; served = panicked }

  unfoldable pub serve : World → Serve
  unfolding serve_loop get_inotify_event_stream
  serve world = elim host.signal [
    | err e ↦ record { ready = 0; served = failed (io_error e) }
    | ok _ ↦ first_reload (read_config_and_spawn setup world no_tasks)
  ]
