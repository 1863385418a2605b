-- ===== src/Server/Serve/Tests.antt =====
-- Starts of the server on the sample directory, with and without a stream of changes.
use mathlib.Core.List.{foldl}
use aardvark_dns.Prelude.{ap, inr, ◌≡◌, ◌↔◌, true, refl, [], ◌∷◌}
use aardvark_dns.Result.{err}
use aardvark_dns.Config.Samples.{denied}
use aardvark_dns.Server.Samples.{
  setup, world, empty_world, host, server_of, visits_v4, visits_v6, first_reload, started_here,
}
use aardvark_dns.Server.Reload.{Server, reload_nameservers}
use aardvark_dns.Server.Serve.{
  get_inotify_event_stream, serve_loop, Serve, waiting, Host, sighup, resolv_conf, panicked, serve,
}
use aardvark_dns.Server.Serve.Spec.{nothing, promised, Shows, serve-Shows}
use aardvark_dns.Server.Serve.Starts.{Starts-serve, Starts}
use aardvark_dns.Server.Serve.Loop.{Goes, HasStream, serve-Goes, serve-panics}

-- No more inotify instances.
abbrev no_inotify : Host
no_inotify = record host { inotify_init = err denied }

host-Starts : Starts setup host world (server_of first_reload)
host-Starts = record { signal = refl; reload = started_here; dev_null = refl; write = refl }

serve-Goes_example :
    Goes setup
      (serve setup true host
        (resolv_conf world ∷ sighup world ∷ sighup empty_world ∷ [])
        world).served
serve-Goes_example =
    serve-Goes setup visits_v4 visits_v6 true host
      (resolv_conf world ∷ sighup world ∷ sighup empty_world ∷ []) world (server_of first_reload)
      host-Starts (inr (refl, refl, refl))

serve-panics_example : ((serve setup true no_inotify [] world).served ≡ panicked) ↔ (
    ((s : Server) × Starts setup no_inotify world s) × (true ≡ true) × (HasStream no_inotify → ⊥))
serve-panics_example = serve-panics setup visits_v4 visits_v6 true no_inotify [] world

-- One change of resolv.conf.
abbrev changed : Server
changed = reload_nameservers setup world (server_of first_reload)

waits_changed : (serve setup true host (resolv_conf world ∷ []) world).served ≡ waiting changed
unfolding serve_loop get_inotify_event_stream
waits_changed =
    ap (λ (x : Serve). x.served)
      (Starts-serve setup true host (resolv_conf world ∷ []) world (server_of first_reload)
        host-Starts)

serve-Shows_example : Shows setup changed (
    foldl
      (promised setup (get_inotify_event_stream host).0)
      nothing
      (sighup world ∷ resolv_conf world ∷ []))
serve-Shows_example =
    serve-Shows setup visits_v4 visits_v6 true host (resolv_conf world ∷ []) world changed
      waits_changed
