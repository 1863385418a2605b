-- ===== src/Server/Resolv.antt =====
-- src/server/serve.rs: `parse_resolv_conf` and `get_upstream_resolvers`. `if_nametoindex` is the
-- system's table of interfaces.
pub mod Lines
use aardvark_dns.Prelude.{
  ℕ, Bool, true, false, ◌||◌, List, [], ◌∷◌, ◌++◌, Option, none, some, if◌then◌else◌, nat_beq, take,
}
use aardvark_dns.Prelude.Classes.{◌==◌}
use aardvark_dns.Text.{Str, str_eq, codes}
use aardvark_dns.Text.Split.{split, split_once, split_whitespace}
use aardvark_dns.Result.{Result, ok, err, map_err, ◌>>=◌}
use aardvark_dns.Error.{
  into_io, into_addr_parse, AardvarkResult, message, addr_parse_error, IoError, from_io, wrap,
}
use aardvark_dns.Net.Addr.{IpAddr, v4, v6, SocketAddr, socket_v4, socket_v6}
use aardvark_dns.Net.Parser.{parse_ip, parse_u32}

-- src/dns/coredns.rs: `DNS_PORT`
abbrev pub dns_port : ℕ
dns_port = 53

abbrev pub is_percent : ℕ → Bool
is_percent c = nat_beq c b'%'

abbrev pub is_comment : ℕ → Bool
is_comment c = nat_beq c b'#' || nat_beq c b';'

-- The address with its scope; an IPv4 address takes none.
unfoldable pub scoped : Option ℕ → IpAddr → AardvarkResult SocketAddr
scoped none (v4 ip) = ok (socket_v4 ip dns_port)
scoped (some id) (v4 ip) = err (message (codes "scope id not supported for ipv4 address"))
scoped none (v6 ip) = ok (socket_v6 ip dns_port 0 0)
scoped (some id) (v6 ip) = ok (socket_v6 ip dns_port 0 id)

unfoldable pub read_address : Option ℕ → Str → AardvarkResult SocketAddr
unfolding scoped
read_address scope text = do ip ← wrap (parse_ip text) text; scoped scope ip

-- The part of a line in front of a comment.
unfoldable pub strip_comment : Str → Str
strip_comment line = elim (split_once is_comment line) [ none ↦ line | some (text, _) ↦ text ]

abbrev pub nameserver_word : Str
nameserver_word = codes "nameserver"

module _ (if_nametoindex : Str → Result ℕ IoError) where
  -- A scope is a number, or the name of an interface.
  unfoldable pub scope_id : Str → AardvarkResult ℕ
  scope_id name = elim (parse_u32 name) [
    | some id ↦ ok id
    | none ↦ wrap (if_nametoindex name) (codes "resolve scope id")
  ]

  -- The word behind `nameserver`.
  unfoldable pub parse_nameserver : Str → AardvarkResult SocketAddr
  unfolding read_address scope_id
  parse_nameserver word = elim (split_once is_percent word) [
    | none ↦ read_address none word
    | some (text, scope) ↦ scope_id scope >>= λ id. read_address (some id) text
  ]

  -- The words of a line.
  unfoldable pub add_words : List SocketAddr → List Str → AardvarkResult (List SocketAddr)
  add_words nameservers (first ∷ word ∷ more) =
      if first == nameserver_word
      then (do addr ← parse_nameserver word; ok (nameservers ++ addr ∷ []))
      else ok nameservers
  add_words nameservers _ = ok nameservers

  unfoldable pub add_lines : List SocketAddr → List Str → AardvarkResult (List SocketAddr)
  add_lines nameservers [] = ok nameservers
  add_lines nameservers (line ∷ lines) = do
    more ← add_words nameservers (split_whitespace (strip_comment line))
    add_lines more lines

  -- Only the first three are used.
  unfoldable pub parse_resolv_conf : Str → AardvarkResult (List SocketAddr)
  parse_resolv_conf content = do
    nameservers ← add_lines [] (split b'\n' content)
    ok (take 3 nameservers)

  -- The file is opened, then read; each may fail.
  unfoldable pub get_upstream_resolvers :
      Result (Result Str IoError) IoError → AardvarkResult (List SocketAddr)
  get_upstream_resolvers file = do
    opened ← wrap file (codes "open resolv.conf")
    content ← wrap opened (codes "read resolv.conf")
    parse_resolv_conf content
