-- ===== src/Server/Resolv/Lines.antt =====
-- `parse_resolv_conf` against the words behind `nameserver`.
use aardvark_dns.Prelude.{
  ℕ, zero, suc, ◌≤◌, subst, inl, inr, Option-cases, ◌≡◌, refl, ap, sym, ◌∙◌, List, [], ◌∷◌, ◌++◌,
  Option, none, some, if◌then◌else◌, arith, take, length, length-take-le, All, append-nil,
  append_assoc,
}
use aardvark_dns.Prelude.Classes.{◌==◌}
use aardvark_dns.Text.{Str, str_eq}
use aardvark_dns.Text.Split.{split, split_once, split_whitespace}
use aardvark_dns.Result.{Result, ok, err, ◌>>=◌, >>=-eq-ok, ok-injective, Result-cases}
use aardvark_dns.Error.{into_addr_parse, AardvarkResult, IoError, wrap}
use aardvark_dns.Net.Parser.{parse_ip}
use aardvark_dns.Net.Addr.{IpAddr, v4, v6, SocketAddr, socket_v4, socket_v6}
use aardvark_dns.Config.File.{collect}
use aardvark_dns.Server.Resolv.{
  dns_port, is_percent, scope_id, scoped, read_address, strip_comment, nameserver_word,
  parse_nameserver, add_words, add_lines, parse_resolv_conf,
}

-- The word that a line names as a server.
abbrev pub named_by : List Str → List Str
named_by (first ∷ word ∷ more) = if first == nameserver_word then word ∷ [] else []
named_by _ = []

-- The words behind `nameserver`, line by line.
abbrev pub nameserver_words : List Str → List Str
nameserver_words [] = []
nameserver_words (line ∷ lines) =
    named_by (split_whitespace (strip_comment line)) ++ nameserver_words lines

-- The port is the DNS port.
abbrev pub HasDnsPort : SocketAddr → Type 0
HasDnsPort (socket_v4 ip port) = port ≡ dns_port
HasDnsPort (socket_v6 ip port flow scope) = port ≡ dns_port

-- The items behind those that are there.
abbrev append_ok :
    List SocketAddr → AardvarkResult (List SocketAddr) → AardvarkResult (List SocketAddr)
append_ok before r = r >>= λ more. ok (before ++ more)

regroup :
    (nameservers before : List SocketAddr) (r : AardvarkResult (List SocketAddr))
    → append_ok (nameservers ++ before) r ≡ append_ok nameservers (append_ok before r)
regroup nameservers before (ok more) = ap ok (append_assoc nameservers before more)
regroup nameservers before (err e) = refl

All-take : (n : ℕ) (ns : List SocketAddr) → All HasDnsPort ns → All HasDnsPort (take n ns)
All-take zero ns h = tt
All-take (suc n) [] h = tt
All-take (suc n) (a ∷ ns) (p, h) = (p, All-take n ns h)

module _ (if_nametoindex : Str → Result ℕ IoError) where
  add_words_lem :
      (nameservers : List SocketAddr) (words : List Str)
      → add_words if_nametoindex nameservers words
        ≡ append_ok nameservers (collect (parse_nameserver if_nametoindex) (named_by words))
  unfolding add_words collect
  add_words_lem nameservers [] = ap ok (sym (append-nil nameservers))
  add_words_lem nameservers (first ∷ []) = ap ok (sym (append-nil nameservers))
  add_words_lem nameservers (first ∷ word ∷ more) = ground (arith, append-nil nameservers)

  collect-append :
      (xs ys : List Str)
      → collect (parse_nameserver if_nametoindex) (xs ++ ys) ≡ (
          collect (parse_nameserver if_nametoindex) xs >>= λ before.
          append_ok before (collect (parse_nameserver if_nametoindex) ys))
  unfolding collect
  collect-append [] ys = ground arith
  collect-append (x ∷ xs) ys = rw (collect-append xs ys) (ground arith)

  add_lines_lem :
      (lines : List Str) (nameservers : List SocketAddr)
      → add_lines if_nametoindex nameservers lines
        ≡ append_ok nameservers (collect (parse_nameserver if_nametoindex) (nameserver_words lines))
  unfolding add_lines collect
  add_lines_lem [] nameservers = ap ok (sym (append-nil nameservers))
  add_lines_lem (line ∷ lines) nameservers =
      let here = named_by (split_whitespace (strip_comment line)) in
      rw
        (
          add_words_lem nameservers (split_whitespace (strip_comment line)),
          collect-append here (nameserver_words lines),
        )
        (elim (Result-cases (collect (parse_nameserver if_nametoindex) here)) [
          | inr (e, failed) ↦ rw failed refl
          | inl (before, read) ↦ rw read (
              rw (add_lines_lem lines (nameservers ++ before)) (
                regroup nameservers before
                  (collect (parse_nameserver if_nametoindex) (nameserver_words lines))))
        ])

  -- The file is read as the words that stand behind `nameserver` in its lines, comments removed:
  -- each is parsed, the first error among all of them is the result, and the first three addresses
  -- are kept.
  pub parse_resolv_conf-collect :
      (content : Str)
      → parse_resolv_conf if_nametoindex content ≡ (
          collect (parse_nameserver if_nametoindex) (nameserver_words (split b'\n' content))
          >>= λ nameservers. ok (take 3 nameservers))
  unfolding parse_resolv_conf
  parse_resolv_conf-collect content = rw (add_lines_lem (split b'\n' content) []) (ground arith)

  scoped_port :
      (scope : Option ℕ) (ip : IpAddr) (a : SocketAddr) → scoped scope ip ≡ ok a → HasDnsPort a
  unfolding scoped
  scoped_port none (v4 ip) a h = subst HasDnsPort (ok-injective h) refl
  scoped_port (some id) (v4 ip) a h = cc
  scoped_port none (v6 ip) a h = subst HasDnsPort (ok-injective h) refl
  scoped_port (some id) (v6 ip) a h = subst HasDnsPort (ok-injective h) refl

  read_address_port :
      (scope : Option ℕ) (text : Str) (a : SocketAddr)
      → read_address scope text ≡ ok a
      → HasDnsPort a
  unfolding read_address
  read_address_port scope text a h =
      let (ip, _, rest) = >>=-eq-ok (wrap (parse_ip text) text) (λ ip. scoped scope ip) h in
      scoped_port scope ip a rest

  parse_nameserver_port :
      (word : Str) (a : SocketAddr) → parse_nameserver if_nametoindex word ≡ ok a → HasDnsPort a
  unfolding parse_nameserver
  parse_nameserver_port word a h = elim (Option-cases (split_once is_percent word)) [
    | inl plain ↦ read_address_port none word a (rw (plain, parse_nameserver) at h)
    | inr ((text, scope), cut) ↦
        let (id, _, rest) =
          >>=-eq-ok (scope_id if_nametoindex scope) (λ id. read_address (some id) text)
            (rw (cut, parse_nameserver) at h) in
        read_address_port (some id) text a rest
  ]

  collect_ports :
      (words : List Str) (nameservers : List SocketAddr)
      → collect (parse_nameserver if_nametoindex) words ≡ ok nameservers
      → All HasDnsPort nameservers
  unfolding collect
  collect_ports [] nameservers h = subst (All HasDnsPort) (ok-injective h) tt
  collect_ports (w ∷ words) nameservers h =
      let (a, first, rest) =
        >>=-eq-ok (parse_nameserver if_nametoindex w)
          (λ a. collect (parse_nameserver if_nametoindex) words >>= λ more. ok (a ∷ more)) h in
      let (more, later, done) =
        >>=-eq-ok (collect (parse_nameserver if_nametoindex) words) (λ more. ok (a ∷ more)) rest in
      subst (All HasDnsPort) (ok-injective done)
        (parse_nameserver_port w a first, collect_ports words more later)

  -- At most three servers are returned, all on the DNS port.
  pub parse_resolv_conf_bounds :
      (content : Str) (nameservers : List SocketAddr)
      → parse_resolv_conf if_nametoindex content ≡ ok nameservers
      → (length nameservers ≤ 3) × All HasDnsPort nameservers
  parse_resolv_conf_bounds content nameservers h =
      let words = nameserver_words (split b'\n' content) in
      let (read, parsed, done) =
        >>=-eq-ok (collect (parse_nameserver if_nametoindex) words) (λ ns. ok (take 3 ns))
          (sym (parse_resolv_conf-collect content) ∙ h) in
      let kept = ok-injective done in
      (
        subst (λ ns. length ns ≤ 3) kept (length-take-le 3 read),
        subst (All HasDnsPort) kept (All-take 3 read (collect_ports words read parsed)),
      )
