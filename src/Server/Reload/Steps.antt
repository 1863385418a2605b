-- ===== src/Server/Reload/Steps.antt =====
-- src/server/serve.rs: `serve` as a step relation, one step for each arm of its `select!`.
use aardvark_dns.Prelude.{◌≡◌, ◌≢◌, subst, [], none, inl, inr}
use aardvark_dns.Result.{ok, Result-cases}
use aardvark_dns.Error.{AardvarkResult}
use aardvark_dns.Server.Resolv.{get_upstream_resolvers}
use aardvark_dns.Server.Threads.Outcome.{IsVisit}
use aardvark_dns.Server.Reload.{
  Setup, World, Server, returned, panic, read_config_and_spawn, reload_nameservers,
}
use aardvark_dns.Server.Reload.Reading.{IsWellFormed}
use aardvark_dns.Server.Reload.Success.{Kept, read_config_and_spawn-IsWellFormed}

-- The state in front of the first reload.
abbrev pub no_tasks : Server
no_tasks = record {
  backend = none;
  nameservers = [];
  handles_v4 = record { handles = []; events = [] };
  handles_v6 = record { handles = []; events = [] };
}

pub no_tasks-IsWellFormed : IsWellFormed no_tasks
no_tasks-IsWellFormed = record { v4 = tt; v6 = tt }

module _ (setup : Setup) where
  -- A hang-up signal, whose reload may end in an error that is only logged, and a change of
  -- resolv.conf.
  pub data Step (s : Server) : Server → Type 0 where
    hangup :
        (world : World) (s' : Server) (r : AardvarkResult (Unit {0}))
        → read_config_and_spawn setup world s ≡ returned s' r
        → Step s s'
    resolv_changed : (world : World) → Step s (reload_nameservers setup world s)

  -- The states of a running server: its first reload had no error.
  pub data Reachable : Server → Type 0 where
    started :
        (world : World) (s : Server)
        → read_config_and_spawn setup world no_tasks ≡ returned s (ok tt)
        → Reachable s
    next : (s s' : Server) → Reachable s → Step s s' → Reachable s'

  module _ (IsVisit-v4 : IsVisit setup.visit_v4) (IsVisit-v6 : IsVisit setup.visit_v6) where
    well_formed :
        (world : World) (s s' : Server) (r : AardvarkResult (Unit {0}))
        → IsWellFormed s
        → read_config_and_spawn setup world s ≡ returned s' r
        → IsWellFormed s'
    well_formed world s s' r w h =
        subst (Kept setup world IsVisit-v4 IsVisit-v6) h
          (read_config_and_spawn-IsWellFormed setup world IsVisit-v4 IsVisit-v6 s w)

    nameservers_only :
        (world : World) (s : Server)
        → IsWellFormed s
        → IsWellFormed (reload_nameservers setup world s)
    unfolding reload_nameservers
    nameservers_only world s w =
        elim (Result-cases (get_upstream_resolvers setup.if_nametoindex world.resolv_conf)) [
          | inl (ns, read) ↦ rw (read, reload_nameservers) (record { v4 = w.v4; v6 = w.v6 })
          | inr (e, failed) ↦ rw (failed, reload_nameservers) w
        ]

    pub Reachable-IsWellFormed : (s : Server) → Reachable s → IsWellFormed s
    Reachable-IsWellFormed s (started world _ h) =
        well_formed world no_tasks s (ok tt) no_tasks-IsWellFormed h
    Reachable-IsWellFormed s' (next s _ before (hangup world _ r h)) =
        well_formed world s s' r (Reachable-IsWellFormed s before) h
    Reachable-IsWellFormed _ (next s _ before (resolv_changed world)) =
        nameservers_only world s (Reachable-IsWellFormed s before)

    -- A running server never panics in a reload.
    pub Reachable-no_panic :
        (s : Server) (world : World) → Reachable s → read_config_and_spawn setup world s ≢ panic
    Reachable-no_panic s world before h = subst (Kept setup world IsVisit-v4 IsVisit-v6) h (
        read_config_and_spawn-IsWellFormed setup world IsVisit-v4 IsVisit-v6 s
          (Reachable-IsWellFormed s before))
