-- ===== src/Server/Upstream.antt =====
-- From the files of the directory to the messages of the listeners: which servers a request is
-- passed on to.
mod Tests
use mathlib.Core.List.{flat_map}
use mathlib.Core.Option
use aardvark_dns.Prelude.{
  ℕ, ◌≡◌, inl, inr, ◌⊎◌, refl, sym, ap, ◌∙◌, subst, Bool, true, false, Option, some, none, List, [],
  ◌∷◌, ◌++◌, map, Has, Bool-cases, Option-cases, is_empty, Has-append_split, some-injective,
}
use aardvark_dns.Text.{Str, str_eq}
use aardvark_dns.Result.{Result, ok}
use aardvark_dns.Error.{IoError}
use aardvark_dns.HashMap.{get, found}
use aardvark_dns.Net.Addr.{IpAddr, ip_eq, SocketAddr, socket_addr, ip_of}
use aardvark_dns.Backend.{DnsBackend, get_network_scoped_resolvers}
use aardvark_dns.Backend.Internal.{get_network_scoped_resolvers_lem}
use aardvark_dns.Config.Entry.{ParsedNetworkConfig}
use aardvark_dns.Config.Directory.{DirEntry, FileSystem, Parsed, Order, parse_configs}
use aardvark_dns.Config.Sources.{Configures}
use aardvark_dns.Config.Contents.Run.{VisitsAll}
use aardvark_dns.Config.Contents.Networks.{Joined, parse_configs-networks}
use aardvark_dns.Config.Contents.Servers.{Own, Supplied, parse_configs-Own, parse_configs-servers}
use aardvark_dns.Server.Resolv.{dns_port}
use aardvark_dns.Dns.Message.{Hickory, Protocol, forward}
use aardvark_dns.Dns.Process.{
  CoreDnsData, on_dns_port, custom_servers, upstream_servers, process_message,
}
use aardvark_dns.Dns.Process.Guards.{process_message-MayForward}

Has-on_dns_port :
    (server : SocketAddr) (ips : List IpAddr)
    → Has server (on_dns_port ips)
    → (a : IpAddr) × Has a ips × (server ≡ socket_addr a dns_port)
Has-on_dns_port server [] h = absurd h
Has-on_dns_port server (a ∷ ips) (inl e) = (a, inl refl, e)
Has-on_dns_port server (a ∷ ips) (inr m) =
    let (b, n, e) = Has-on_dns_port server ips m in (b, inr n, e)

Has-flat_map :
    (a : IpAddr) (f : Str → List IpAddr) (nets : List Str)
    → Has a (flat_map f nets)
    → (net : Str) × Has net nets × Has a (f net)
unfolding flat_map
Has-flat_map a f [] h = absurd h
Has-flat_map a f (net ∷ nets) h = elim (Has-append_split a (f net) (flat_map f nets) h) [
  | inl here ↦ (net, inl refl, here)
  | inr m ↦ let (n, k, b) = Has-flat_map a f nets m in (n, inr k, b)
]

-- The resolvers of the container itself, or those of its networks.
custom_servers_split :
    (server : SocketAddr) (own : Option (Option (List IpAddr))) (networks : Option (List IpAddr))
    → Has server (custom_servers own networks)
    → ((servers : List IpAddr) × (own ≡ some (some servers)) × Has server (on_dns_port servers))
      ⊎ ((servers : List IpAddr) × (networks ≡ some servers) × Has server (on_dns_port servers))
custom_servers_split server (some (some servers)) networks h = inl (servers, refl, h)
custom_servers_split server (some none) (some servers) h = inr (servers, refl, h)
custom_servers_split server (some none) none h = absurd h
custom_servers_split server none (some servers) h = inr (servers, refl, h)
custom_servers_split server none none h = absurd h

module _ (core : CoreDnsData) (ip : IpAddr) (server : SocketAddr) where
  -- The host's resolvers, or others.
  upstream_servers_split :
      Has server (upstream_servers core ip)
      → Has server core.nameservers
        ⊎ Has server (
            custom_servers
              (get core.backend.ctr_dns_server ip)
              (get_network_scoped_resolvers core.backend ip))
  unfolding upstream_servers
  upstream_servers_split h =
      elim (Bool-cases (
        is_empty (
          custom_servers (get core.backend.ctr_dns_server ip)
            (get_network_scoped_resolvers core.backend ip)))) [
              | inl nothing ↦ inl (rw (nothing, upstream_servers) at h)
              | inr custom ↦ inr (rw (custom, upstream_servers) at h)
            ]

module _ (unicode : Str → Str) (fs : FileSystem) (configs : List (Result DirEntry IoError)) where
  -- A resolver of an entry of the client's address.
  abbrev pub OfContainer : IpAddr → IpAddr → Type 0
  OfContainer client a =
      (net : Str) × (c : ParsedNetworkConfig) × (d : Configures unicode fs.read_to_string configs
        net c)
      × (servers : List IpAddr) × Own client (some servers) d.source.internal c
      × Has a servers

  -- A resolver of a network that the client's container is in.
  abbrev pub OfNetwork : IpAddr → IpAddr → Type 0
  OfNetwork client a =
      (net : Str) × Joined unicode fs configs client net
      × Supplied unicode fs.read_to_string configs net a

module _ (unicode : Str → Str) (order : Order) (domain : Str) (fs : FileSystem) (dir : Str)
    (r : Parsed) (configs : List (Result DirEntry IoError)) (all : VisitsAll order)
    (listing : fs.read_dir dir ≡ ok configs)
    (h : parse_configs unicode order domain fs dir ≡ ok r) where
  scoped_lem :
      (client a : IpAddr) (servers : List IpAddr)
      → get_network_scoped_resolvers r.backend client ≡ some servers
      → Has a servers
      → OfNetwork unicode fs configs client a
  scoped_lem client a servers known m = elim (Option-cases (get r.backend.ip_mappings client)) [
    | inl unknown ↦ cc (rw (get_network_scoped_resolvers_lem r.backend client, unknown) at known)
    | inr (nets, joined) ↦
        let servers_of = λ (net : Str). found (get r.backend.network_dns_server net) in
        let same =
          some-injective _ _
            (rw (get_network_scoped_resolvers_lem r.backend client, joined) at known) in
        let (net, n, b) = Has-flat_map a servers_of nets (subst (Has a) (sym same) m) in
        let here : found (get r.backend.ip_mappings client) ≡ nets = rw joined refl in
        let supplied =
          parse_configs-servers unicode order domain fs dir r configs listing h net a b in
        (
          net,
          (parse_configs-networks unicode order domain fs dir r configs all listing h client net).0
              (subst (Has net) (sym here) n),
          supplied,
        )
  ]

  from_custom :
      (server : SocketAddr) (client : IpAddr)
      → Has server (
          custom_servers
            (get r.backend.ctr_dns_server client)
            (get_network_scoped_resolvers r.backend client))
      → (a : IpAddr) × (server ≡ socket_addr a dns_port)
        × (OfContainer unicode fs configs client a ⊎ OfNetwork unicode fs configs client a)
  from_custom server client m =
      elim (custom_servers_split server (get r.backend.ctr_dns_server client)
        (get_network_scoped_resolvers r.backend client) m) [
          | inl (servers, known, k) ↦
              let (a, n, e) = Has-on_dns_port server servers k in
              let (net, c, d, own) =
                parse_configs-Own unicode order domain fs dir r configs listing h client
                  (some servers) known in
              (a, e, inl (net, c, d, servers, own, n))
          | inr (servers, known, k) ↦
              let (a, n, e) = Has-on_dns_port server servers k in
              (a, e, inr (scoped_lem client a servers known n))
        ]

  -- When the directory was read without an error, a request is passed on to nothing but the DNS
  -- port of resolvers that the files give to an entry of the client's address or to a network that
  -- the client's container is in, in a file that is not internal, and the resolvers of the host.
  pub process_message-upstream :
      {Name Message : Type 0} (hickory : Hickory Name Message) (core : CoreDnsData)
      (src_address : SocketAddr) (proto : Protocol) (msg : List ℕ)
      → core.backend ≡ r.backend
      → (nameservers : List SocketAddr) (request : Message) (by : Protocol)
      → Has
          (forward nameservers request by)
          (process_message hickory unicode core src_address proto msg)
      → (server : SocketAddr) → Has server nameservers
      → Has server core.nameservers
        ⊎ ((a : IpAddr) × (server ≡ socket_addr a dns_port)
            × (OfContainer unicode fs configs (ip_of src_address) a
                ⊎ OfNetwork unicode fs configs (ip_of src_address) a))
  process_message-upstream hickory core src_address proto msg store nameservers request by passed
        server m =
      let client = ip_of src_address in
      let may =
        (process_message-MayForward hickory unicode core src_address proto msg nameservers request
            by).0
          passed in
      elim (upstream_servers_split core client server (subst (Has server) may.servers m)) [
        | inl host ↦ inl host
        | inr custom ↦ inr (
            from_custom server client (
              subst
                (λ (b : DnsBackend). Has server (
                  custom_servers (get b.ctr_dns_server client)
                    (get_network_scoped_resolvers b client)))
                store custom))
      ]
