-- ===== src/Config/Isolation.antt =====
-- From the files of the directory to the answers of `lookup`: which names a container can resolve.
use aardvark_dns.Prelude.{
  ◌≡◌, ◌↔◌, ◌⊎◌, refl, sym, subst, ap, inl, inr, none, some, Option, Option-cases, List, Has,
}
use aardvark_dns.Text.{Str, str_eq}
use aardvark_dns.Result.{Result, ok}
use aardvark_dns.Error.{IoError}
use aardvark_dns.HashMap.{HashMap, get, found}
use aardvark_dns.Net.Addr.{IpAddr, ip_eq}
use aardvark_dns.Backend.{new, close_domain, lookup_key, names_in, lookup}
use aardvark_dns.Backend.Answers.{visible_nets, lookup-Resolves}
use aardvark_dns.Config.Entry.{CtrEntry}
use aardvark_dns.Config.Directory.{
  DirEntry, FileSystem, Parsed, Order, new_ctr_ips, result_of, parse_configs,
}
use aardvark_dns.Config.Sources.{Declares}
use aardvark_dns.Config.Contents.Run.{VisitsAll, parse_configs-Run}
use aardvark_dns.Config.Contents.Names.{Declared, parse_configs-names}
use aardvark_dns.Config.Contents.Networks.{Joined, parse_configs-networks, parse_configs-known}

names_in-found :
    (o : Option (HashMap Str (List IpAddr))) (name : Str)
    → names_in o name ≡ found (get (found o) name)
unfolding get
names_in-found none name = refl
names_in-found (some names) name = refl

-- The requester sees the networks that its container is in; if it is in none, the one that it asked
-- on.
abbrev pub Sees :
    (Str → Str) → FileSystem → List (Result DirEntry IoError) → IpAddr → Str → Str → Type 0
Sees unicode fs configs requester network net =
    Joined unicode fs configs requester net
    ⊎ ((net ≡ network) × ((n : Str) → ¬ Joined unicode fs configs requester n))

module _ (unicode : Str → Str) (order : Order) (domain : Str) (fs : FileSystem) (dir : Str)
    (r : Parsed) (configs : List (Result DirEntry IoError)) (all : VisitsAll order)
    (listing : fs.read_dir dir ≡ ok configs)
    (h : parse_configs unicode order domain fs dir ≡ ok r) where
  domain_lem : r.backend.search_domain ≡ close_domain domain
  unfolding result_of new
  domain_lem =
      ap (λ (p : Parsed). p.backend.search_domain)
        (parse_configs-Run unicode order domain fs dir configs r listing h).result

  visible_nets_iff :
      (requester : IpAddr) (network net : Str)
      → Has net (visible_nets r.backend network requester)
        ↔ Sees unicode fs configs requester network net
  visible_nets_iff requester network net =
      let networks = parse_configs-networks unicode order domain fs dir r configs all listing h in
      elim (Option-cases (get r.backend.ip_mappings requester)) [
        | inl unknown ↦ rw unknown (
          λ x. elim x [
            | inl e ↦ inr (e, λ n j. rw unknown at ((networks requester n).1 j))
            | inr m ↦ absurd m
          ],
          λ x. elim x [
            | inl j ↦ absurd (rw unknown at ((networks requester net).1 j))
            | inr (e, _) ↦ inl e
          ],
        )
        | inr (nets, known) ↦
            let (n, j) =
              parse_configs-known unicode order domain fs dir r configs all listing h requester nets
                known in
            let same : found (get r.backend.ip_mappings requester) ≡ nets = rw known refl in
            rw known (
              λ m. inl ((networks requester net).0 (subst (Has net) (sym same) m)),
              λ x. elim x [
                | inl k ↦ subst (Has net) same ((networks requester net).1 k)
                | inr (_, none_joined) ↦ absurd (none_joined n j)
              ],
            )
      ]

  -- `lookup` answers with an address exactly when a file declares that address under the name's key
  -- for a network that the requester sees.
  pub lookup-Sees :
      (requester ip : IpAddr) (network name : Str)
      → Has ip (found (lookup unicode r.backend requester network name)) ↔ (
          (net : Str) × Sees unicode fs configs requester network net
          × Declared unicode fs configs net (lookup_key unicode (close_domain domain) name) ip)
  lookup-Sees requester ip network name =
      let names = parse_configs-names unicode order domain fs dir r configs listing h in
      let key = lookup_key unicode r.backend.search_domain name in
      let answer = lookup-Resolves unicode r.backend requester network name ip in
      subst
        (λ d. Has ip (found (lookup unicode r.backend requester network name)) ↔ (
          (net : Str) × Sees unicode fs configs requester network net
          × Declared unicode fs configs net (lookup_key unicode d name) ip))
        domain_lem
        (
          (λ x.
              let (net, m, a) = answer.0 x in
              (
                net,
                (visible_nets_iff requester network net).0 m,
                (names net key ip).0
                    (subst (Has ip) (names_in-found (get r.backend.name_mappings net) key) a),
              )),
          (λ (net, s, d). answer.1 (
            net,
            (visible_nets_iff requester network net).1 s,
            subst (Has ip) (sym (names_in-found (get r.backend.name_mappings net) key))
                ((names net key ip).1 d),
          )),
        )

  -- For a requester whose address some file declares, `lookup` answers with an address exactly when
  -- a file declares that address under the name's key for a network that the requester's container
  -- is in. So a container resolves the names of its own networks, and no others, whatever network
  -- the request came in on.
  pub lookup-Declared :
      (requester ip : IpAddr) (network name home : Str) (self : CtrEntry)
      → Declares unicode fs.read_to_string configs home self
      → Has requester (new_ctr_ips self)
      → Has ip (found (lookup unicode r.backend requester network name)) ↔ (
          (net : Str) × Joined unicode fs configs requester net
          × Declared unicode fs configs net (lookup_key unicode (close_domain domain) name) ip)
  lookup-Declared requester ip network name home self declared owned =
      let answer = lookup-Sees requester ip network name in
      (
        λ x.
            let (net, s, d) = answer.0 x in
            (
              net,
              elim s [
                | inl j ↦ j
                | inr (_, none_joined) ↦
                    absurd (none_joined home (home, self, declared, owned, self, declared, refl))
              ],
              d,
            ),
        λ (net, j, d). answer.1 (net, inl j, d),
      )
