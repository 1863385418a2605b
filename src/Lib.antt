-- ===== src/Lib.antt =====
-- A model of aardvark-dns, the DNS server for the containers of podman's networks, and theorems
-- about it.
--
-- The program reads a directory of configuration files, one for each network, into a store
-- (`DnsBackend`) and the addresses to listen on; runs one task for each listen address, which
-- answers the names of containers from the store and passes other requests on; and reads all of
-- it again when it is told to. Each part is a file with child modules for its proofs:
--
--   * Config: src/config/mod.rs and constants.rs. Config/File is `parse_config`, one file;
--     Config/Directory is `parse_configs`: the maps of its loop are the record `Tables`, one
--     function stands for each of its loops, and its calls of `error!` are the list `log`.
--   * Backend: src/backend/mod.rs. The record `DnsBackend` and its five operations.
--   * Server: src/server/serve.rs. Server/Resolv is `parse_resolv_conf` and
--     `get_upstream_resolvers`; Server/Threads is `stop_threads` and `stop_and_start_threads` over
--     the table of handles and a list of events (binds, starts, stops, awaits), where `none` is
--     the panic of `unwrap`. Server/Reload is `read_config_and_spawn`, over the store, the host's
--     resolvers and the tables of both families; what a reload finds outside the program is a
--     `World`. Server/Reload/Steps has the states of a running server as a step relation, a step
--     for each arm of the `select!` of `serve`; Server/Serve is `serve` itself, from its start,
--     with `daemonize` and `get_inotify_event_stream`, to its loop, and Server/Serve/Spec is
--     what it promises of its store and its resolvers. Server/Answers, Server/Isolated and
--     Server/Upstream put the listeners, the store and the handler of a message together.
--   * Dns: src/dns/coredns.rs. Dns/Message has `reply` and `parse_dns_msg`, Dns/Answer `reply_ip`
--     and `reply_ptr`, Dns/Process `process_message`, whose effects are a list, Dns/Forward
--     `forward_to_servers`, and Dns/Listen the loops of `run` and `process_tcp_stream` on the list
--     of what they wait for, where each message comes with the store of that moment.
--   * Commands: src/commands/run.rs, `Run::exec` on both sides of its fork, and `create_pid`;
--     Commands/Start puts them together with `serve`. Commands/Version: src/commands/version.rs.
--   * Main: src/main.rs, from the log level to the exit code. BuildScript: build.rs.
--   * Error: src/error.rs. The error type, the wrapping of errors and their text.
--   * Text, HashMap, HashSet, Net and Result are what the sources use of Rust's standard library:
--     strings as lists of chars, maps as association lists, and the parsers of IP addresses.
--   * Prelude: names from the libraries, lists and tests on numbers.
--
-- Parameters of the model, since their code is not in the repository: the file system as one run
-- finds it (`FileSystem`); the order in which Rust visits a map (`order`, `visit`); the lower-case
-- table for text that is not ASCII (`unicode`); the interface table (`if_nametoindex`); the
-- sockets (`Binder`, decided by the events so far); the text of a socket address (`display`); DNS
-- names and messages (`Hickory`); the clients for upstream servers (`Upstream`); the other calls
-- of the system by their results (`Host`, `ForkResult`, `LogEnv`, `BuildEnv`); and whether
-- `select!` evaluates the expression of an arm whose condition is false (`eager`), as the
-- documentation of tokio says.
--
-- Every loop of the modelled code runs over a list that is there when it starts, so the model is
-- by structural recursion and there is no fuel. Addresses are the numbers that they stand for.
--
-- Not modelled: the order in which the tasks of one process take turns, a failure to read the
-- local address of a socket in `run`, the closing of inherited descriptors in `main`, logging
-- other than in `parse_configs` and of a stream of changes that cannot be set up, the parser of
-- the options, and time other than that of requests to upstream servers.
pub mod Backend
pub mod BuildScript
pub mod Commands
pub mod Config
pub mod Dns
pub mod Error
pub mod HashMap
pub mod HashSet
pub mod Main
pub mod Net
pub mod Prelude
pub mod Result
pub mod Server
pub mod Text
