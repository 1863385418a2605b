-- ===== src/Server/Reload/Tests.antt =====
-- A start, a reload and a stop of the server on the sample directory.
use aardvark_dns.Prelude.{refl}
use aardvark_dns.Text.{codes}
use aardvark_dns.Config.Samples.{sample_fs, entries}
use aardvark_dns.Server.Reload.{Ending, read_config_and_spawn}
use aardvark_dns.Server.Reload.Success.{Serving, read_config_and_spawn-Serving}
use aardvark_dns.Net.Addr.{v4}
use aardvark_dns.Config.Contents.Listens.{Binds}
use aardvark_dns.Server.Reload.Served.{HandleFollows, read_config_and_spawn-Binds}
use aardvark_dns.Server.Reload.Steps.{no_tasks}
use aardvark_dns.Server.Samples.{
  setup, world, empty_world, server_of, visits_v4, visits_v6, no_keys, first_reload, started_here,
}

read_config_and_spawn-Serving_example :
    Serving setup world visits_v4 visits_v6 no_tasks (server_of first_reload)
read_config_and_spawn-Serving_example =
    read_config_and_spawn-Serving setup world visits_v4 visits_v6 no_tasks (server_of first_reload)
      no_keys started_here

read_config_and_spawn-Binds_example :
    HandleFollows no_tasks
      (server_of first_reload)
      (codes "podman")
      (v4 0x0a580001)
      (Binds setup.unicode sample_fs entries (codes "podman") (v4 0x0a580001))
read_config_and_spawn-Binds_example =
    read_config_and_spawn-Binds setup world visits_v4 visits_v6 no_tasks (server_of first_reload)
      entries no_keys refl started_here (codes "podman") (v4 0x0a580001)

unfoldable last_reload : Ending
unfolding read_config_and_spawn
last_reload = read_config_and_spawn setup empty_world no_tasks
