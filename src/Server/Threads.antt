-- ===== src/Server/Threads.antt =====
-- src/server/serve.rs: `stop_threads` and `stop_and_start_threads`, the tasks that serve the listen
-- addresses. An environment that sees what happened so far decides the socket calls; what happens
-- is a list of events. The panic of `unwrap` is `none`.
pub mod Stop
pub mod Start
pub mod Expected
pub mod Outcome
use aardvark_dns.Prelude.{
  ℕ, Bool, true, false, not, List, [], ◌∷◌, ◌++◌, Option, none, some, map, length,
}
use aardvark_dns.Prelude.Classes.{Eq, pair_eq}
use aardvark_dns.Text.{Str, str_eq, codes}
use aardvark_dns.HashMap.{HashMap, get, insert, remove, keys, contains_key}
use aardvark_dns.HashSet
use aardvark_dns.HashSet.{HashSet, contains, filter}
use aardvark_dns.Result.{Result, ok, err}
use aardvark_dns.Error.{
  AardvarkError, AardvarkErrorList, AardvarkResult, nil, cons, chain, list, io_error, IoError, push,
}
use aardvark_dns.Net.Addr.{IpAddr, SocketAddr, socket_addr}

-- The two listeners of a server.
pub data Transport : Type 0 where
  udp tcp : Transport

-- What happens, in order: a socket is asked for, a task is started, a task is told to stop, and
-- the end of a task is awaited.
pub data Event : Type 0 where
  bind : Transport → SocketAddr → Event
  spawn : Str → IpAddr → Event
  shut_down : Str → IpAddr → Event
  await : Str → IpAddr → Event

-- `UdpSocket::bind` and `TcpListener::bind`, which depend on what happened so far.
abbrev pub Binder : Type 0
Binder = List Event → Transport → SocketAddr → Result (Unit {0}) IoError

module _ (Ip : Type 0) where
  -- A task is named by the network and the listen address that it serves.
  abbrev pub Key : Type 0
  Key = Str × Ip

  -- The handles of the tasks that were started and not stopped, each with its number, and the
  -- events. A handle stays when its task ends by itself, so it is not a sign that the task runs.
  pub record Threads : Type 0 where
    pub handles : HashMap (Str × Ip) ℕ
    pub events : List Event

-- Where a loop over keys that starts tasks is: the tasks, and the errors so far.
pub record Starting (Ip : Type 0) : Type 0 where
  pub threads : Threads Ip
  pub errors : AardvarkErrorList

module _ {Ip : Type 0} ⦃e : Eq Ip⦄ (into : Ip → IpAddr) where
  -- The first loop of `stop_threads`; a key that is not there is a panic.
  unfoldable pub shut_down_all : List (Str × Ip) → Threads Ip → Option (Threads Ip)
  shut_down_all [] t = some t
  shut_down_all (key ∷ more) t = elim (get t.handles key) [
    | none ↦ none
    | some handle ↦ shut_down_all more (record {
      handles = remove t.handles key;
      events = t.events ++ shut_down key.0 (into key.1) ∷ [];
    })
  ]

  -- The second loop: the tasks that were told to stop are awaited.
  abbrev pub awaits : List (Str × Ip) → List Event
  awaits = map (λ key. await key.0 (into key.1))

  abbrev pub await_all : List (Str × Ip) → Option (Threads Ip) → Option (Threads Ip)
  await_all keys_stopped none = none
  await_all keys_stopped (some t) = some (record t { events = t.events ++ awaits keys_stopped })

  -- `filter.unwrap_or_else(all keys)`
  abbrev pub to_stop : Threads Ip → Option (List (Str × Ip)) → List (Str × Ip)
  to_stop t none = keys t.handles
  to_stop t (some filtered) = filtered

  unfoldable pub stop_threads : Threads Ip → Option (List (Str × Ip)) → Option (Threads Ip)
  unfolding shut_down_all
  stop_threads t filtered = await_all (to_stop t filtered) (shut_down_all (to_stop t filtered) t)

-- The two loops that collect the expected tasks.
module _ {Ip : Type 0} ⦃e : Eq Ip⦄ where
  unfoldable pub expect_all : HashSet (Str × Ip) → Str → List Ip → HashSet (Str × Ip)
  expect_all set network [] = set
  expect_all set network (ip ∷ ips) = expect_all (HashSet.insert set (network, ip)) network ips

  unfoldable pub expected_threads : HashSet (Str × Ip) → HashMap Str (List Ip) → HashSet (Str × Ip)
  unfolding expect_all
  expected_threads set [] = set
  expected_threads set ((network, ips) ∷ more) = expected_threads (expect_all set network ips) more

abbrev pub bind_error : (SocketAddr → Str) → Transport → SocketAddr → IoError → AardvarkError
bind_error display udp addr e =
    chain (codes "failed to bind udp listener on " ++ display addr) (io_error e)
bind_error display tcp addr e =
    chain (codes "failed to bind tcp listener on " ++ display addr) (io_error e)

-- The result behind the loop.
abbrev pub outcome : AardvarkErrorList → AardvarkResult (Unit {0})
outcome nil = ok tt
outcome (cons x xs) = err (list (cons x xs))

-- `display` is the text of a socket address.
module _ {Ip : Type 0} ⦃e : Eq Ip⦄ (into : Ip → IpAddr) (display : SocketAddr → Str)
    (binder : Binder) (port : ℕ) where
  abbrev pub failed_bind : Starting Ip → Transport → SocketAddr → List Event → IoError → Starting Ip
  failed_bind s transport addr events why = record {
    threads = record { handles = s.threads.handles; events = events };
    errors = push s.errors (bind_error display transport addr why);
  }

  -- One round of the loop over `to_start`.
  unfoldable pub start_thread : Starting Ip → Str × Ip → Starting Ip
  start_thread s key =
      let addr = socket_addr (into key.1) port in
      let asked_udp = s.threads.events ++ bind udp addr ∷ [] in
      let asked_tcp = asked_udp ++ bind tcp addr ∷ [] in
      elim (binder s.threads.events udp addr) [
        | err why ↦ failed_bind s udp addr asked_udp why
        | ok _ ↦ elim (binder asked_udp tcp addr) [
          | err why ↦ failed_bind s tcp addr asked_tcp why
          | ok _ ↦ record s {
            threads = record {
              handles = insert s.threads.handles key (length asked_tcp);
              events = asked_tcp ++ spawn key.0 (into key.1) ∷ [];
            };
          }
        ]
      ]

  unfoldable pub start_threads : Starting Ip → List (Str × Ip) → Starting Ip
  start_threads s [] = s
  start_threads s (key ∷ more) = start_threads (start_thread s key) more

  abbrev pub start_expected :
      (List (Str × Ip) → List (Str × Ip))
      → HashSet (Str × Ip)
      → Option (Threads Ip)
      → Option (Threads Ip × AardvarkResult (Unit {0}))
  start_expected visit expected none = none
  start_expected visit expected (some t) =
      let to_start = filter (λ key. not (contains_key t.handles key)) (visit expected) in
      let done = start_threads (record { threads = t; errors = nil }) to_start in
      some (done.threads, outcome done.errors)

  -- `visit` is the order in which a map's keys or a set are visited.
  unfoldable pub stop_and_start_threads :
      (List (Str × Ip) → List (Str × Ip))
      → HashMap Str (List Ip)
      → Threads Ip
      → Option (Threads Ip × AardvarkResult (Unit {0}))
  stop_and_start_threads visit listen_ips t =
      let expected = expected_threads [] listen_ips in
      let to_shut_down = filter (λ key. not (contains expected key)) (visit (keys t.handles)) in
      start_expected visit expected (stop_threads into t (some to_shut_down))
