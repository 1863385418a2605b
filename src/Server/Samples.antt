-- ===== src/Server/Samples.antt =====
-- A start of the server on the sample directory.
use aardvark_dns.Prelude.{◌≡◌, refl, []}
use aardvark_dns.Text.{codes}
use aardvark_dns.Result.{ok, err}
use aardvark_dns.Error.{wrap, push}
use aardvark_dns.Config.Directory.{parse_configs, FileSystem}
use aardvark_dns.Text.{strip_suffix, ends_with}
use aardvark_dns.Text.Split.{split, split_once, split_whitespace}
use aardvark_dns.Text.Case.{to_lowercase}
use aardvark_dns.HashMap.{get, insert, entry_or}
use aardvark_dns.HashSet
use aardvark_dns.HashSet.{contains, filter}
use aardvark_dns.Net.Parser.{parse_ip, parse_ipv4, parse_ipv6}
use aardvark_dns.Config.File.{
  parse_config, parse_network, parse_entry, parse_line, parse_lines, parse_column, parse_dns,
  collect,
}
use aardvark_dns.Backend.{new}
use aardvark_dns.Server.Resolv.{
  get_upstream_resolvers, parse_resolv_conf, add_lines, add_words, strip_comment, parse_nameserver,
}
use aardvark_dns.Config.Samples.{sample_fs, denied}
use aardvark_dns.Server.Threads.{
  Binder, stop_and_start_threads, stop_threads, expected_threads, start_threads, start_thread,
}
use aardvark_dns.Server.Threads.Outcome.{IsVisit}
use aardvark_dns.Server.Serve.{Host}
use aardvark_dns.Server.Reload.{
  Setup, World, Server, Ending, returned, exit, panic, read_config_and_spawn,
}
use aardvark_dns.Server.Reload.Reading.{IsWellFormed}
use aardvark_dns.Server.Reload.Steps.{no_tasks}

abbrev pub setup : Setup
setup = record {
  config_path = codes "/run";
  port = 53;
  filter_search_domain = codes "dns.podman";
  unicode = λ s. s;
  order = λ m. m;
  if_nametoindex = λ name. err denied;
  display = λ addr. codes "address";
  visit_v4 = λ l. l;
  visit_v6 = λ l. l;
}

abbrev pub all_bound : Binder
all_bound events transport addr = ok tt

abbrev pub world_of : FileSystem → World
world_of files = record {
  files = files;
  resolv_conf = ok (ok (codes "nameserver 10.0.0.1"));
  remove_pid_file = ok tt;
  binder_v4 = all_bound;
  binder_v6 = all_bound;
}

abbrev pub world : World
world = world_of sample_fs

abbrev pub empty_world : World
empty_world = world_of (record sample_fs { read_dir = λ dir. ok [] })

abbrev pub server_of : Ending → Server
server_of (returned s r) = s
server_of (exit code s) = s
server_of panic = no_tasks

pub visits_v4 : IsVisit setup.visit_v4
visits_v4 = (λ l a. (λ h. h, λ h. h), λ l d. d)

pub visits_v6 : IsVisit setup.visit_v6
visits_v6 = (λ l a. (λ h. h, λ h. h), λ l d. d)

pub no_keys : IsWellFormed no_tasks
no_keys = record { v4 = tt; v6 = tt }

unfoldable pub first_reload : Ending
unfolding read_config_and_spawn
first_reload = read_config_and_spawn setup world no_tasks

pub started_here :
    read_config_and_spawn setup world no_tasks ≡ returned (server_of first_reload) (ok tt)
unfolding first_reload wrap parse_configs parse_config parse_lines split parse_line parse_network
    collect parse_ip parse_entry parse_column parse_ipv4 parse_ipv6 parse_dns entry_or to_lowercase
    get insert strip_suffix ends_with new contains filter get_upstream_resolvers parse_resolv_conf
    add_lines add_words split_whitespace strip_comment split_once parse_nameserver
    stop_and_start_threads stop_threads expected_threads start_threads start_thread push
    HashSet.insert
started_here = refl

-- Every call of the start succeeds.
abbrev pub host : Host
host = record {
  signal = ok tt;
  open_dev_null = ok tt;
  write_ready = ok tt;
  inotify_init = ok tt;
  add_watch = ok tt;
  into_event_stream = ok tt;
}
