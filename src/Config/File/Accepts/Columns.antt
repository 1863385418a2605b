-- ===== src/Config/File/Accepts/Columns.antt =====
-- Which columns `parse_config` accepts.
use aardvark_dns.Prelude.{
  ◌≡◌, ◌≢◌, ◌↔◌, ◌⊎◌, inl, inr, refl, subst, Bool-cases, nat_beq, List, [], ◌∷◌, All, none, some,
  map,
}
use aardvark_dns.Text.{Str, codes}
use aardvark_dns.Text.Split.{split, add_head}
use aardvark_dns.Text.Case.{to_lowercase}
use aardvark_dns.Result.{Result, ok, err, map_err, ◌>>=◌, >>=-eq-ok, ok-injective}
use aardvark_dns.Error.{AddrParseError}
use aardvark_dns.Net.Addr.{IpAddr}
use aardvark_dns.Net.Parser.{parse_ip, parse_ipv4, parse_ipv6}
use aardvark_dns.Config.File.{
  collect, parse_failed, parse_named, parse_network, parse_column, parse_dns, check_names,
  parse_entry,
}

abbrev pub Succeeds : {A E : Type 0} → Result A E → Type 0
Succeeds {A} r = (a : A) × (r ≡ ok a)

map_err-Succeeds :
    {A E F : Type 0} (f : E → F) (r : Result A E) → Succeeds (map_err f r) ↔ Succeeds r
map_err-Succeeds f (ok a) = (λ h. (a, refl), λ h. (a, refl))
map_err-Succeeds f (err e) = (λ (a, h). cc, λ (a, h). cc)

module _ {A E : Type 0} (parse : Str → Result A E) where
  collect-Succeeds :
      (ss : List Str) → Succeeds (collect parse ss) ↔ All (λ s. Succeeds (parse s)) ss
  unfolding collect
  collect-Succeeds [] = (λ h. tt, λ h. ([], refl))
  collect-Succeeds (s ∷ ss) =
      let later = collect-Succeeds ss in
      (
        λ (l, h).
            let (a, first, rest) =
              >>=-eq-ok (parse s) (λ a. collect parse ss >>= λ more. ok (a ∷ more)) h in
            let (more, others, _) = >>=-eq-ok (collect parse ss) (λ more. ok (a ∷ more)) rest in
            ((a, first), later.0 (more, others)),
        λ ((a, first), rest).
            let (more, others) = later.1 rest in (a ∷ more, rw (first, others) refl),
      )

  collect-some : (ss : List Str) (l : List A) → ss ≢ [] → collect parse ss ≡ ok l → l ≢ []
  unfolding collect
  collect-some [] l some_text h = absurd (some_text refl)
  collect-some (s ∷ ss) l some_text h =
      let (a, first, rest) =
        >>=-eq-ok (parse s) (λ a. collect parse ss >>= λ more. ok (a ∷ more)) h in
      let (more, others, same) = >>=-eq-ok (collect parse ss) (λ more. ok (a ∷ more)) rest in
      rw (← ok-injective same) (cc)

split-some : (sep : _) (s : Str) → split sep s ≢ []
unfolding split
split-some sep [] = cc
split-some sep (c ∷ s) = elim (Bool-cases (nat_beq c sep)) [
  | inl same ↦ rw same (cc)
  | inr differs ↦ rw differs (added (split sep s))
]
  where
    added : (ps : List Str) → add_head c ps ≢ []
    added [] = cc
    added (p ∷ ps) = cc

All_iff : {P Q : Str → Type 0} (ss : List Str) → ((s : Str) → P s ↔ Q s) → All P ss ↔ All Q ss
All_iff [] each = (λ h. h, λ h. h)
All_iff (s ∷ ss) each =
    let later = All_iff ss each in
    (λ h. ((each s).0 h.0, later.0 h.1), λ h. ((each s).1 h.0, later.1 h.1))

-- Items with a comma between them that the parser accepts.
abbrev pub IsList : {A E : Type 0} → (Str → Result A E) → Str → Type 0
IsList parse column = All (λ s. Succeeds (parse s)) (split b',' column)

-- A column of addresses may be empty.
abbrev pub IsColumn : {A : Type 0} → (Str → Result A AddrParseError) → Str → Type 0
IsColumn parse column = (column ≡ []) ⊎ IsList parse column

-- The bind addresses and, if there is a second column, the servers of the network.
abbrev pub IsFirstLine : List Str → Type 0
IsFirstLine [] = ⊥
IsFirstLine (bind ∷ []) = IsList parse_ip bind
IsFirstLine (bind ∷ servers ∷ more) = IsList parse_ip bind × IsList parse_ip servers

-- The fifth column counts only if it is the last one.
abbrev pub IsRest : List Str → Type 0
IsRest (column ∷ []) = IsColumn parse_ip column
IsRest _ = Unit

-- At least four columns; nothing is asked of the id and of the names.
abbrev pub IsEntryLine : List Str → Type 0
IsEntryLine (id ∷ v4_column ∷ v6_column ∷ names ∷ more) =
    IsColumn parse_ipv4 v4_column × IsColumn parse_ipv6 v6_column × IsRest more
IsEntryLine _ = ⊥

named-IsList :
    (what column : Str)
    → Succeeds (collect (parse_named what) (split b',' column)) ↔ IsList parse_ip column
named-IsList what column =
    let all = collect-Succeeds (parse_named what) (split b',' column) in
    let plain =
      All_iff (split b',' column) (λ s. map_err-Succeeds (parse_failed what s) (parse_ip s)) in
    (λ h. plain.0 (all.0 h), λ h. all.1 (plain.1 h))

module _ {A : Type 0} (what : Str) (parse : Str → Result A AddrParseError) where
  parse_column-IsColumn :
      (column : Str) → Succeeds (parse_column what parse column) ↔ IsColumn parse column
  unfolding parse_column
  parse_column-IsColumn [] = (λ h. inl refl, λ h. (none, refl))
  parse_column-IsColumn (c ∷ column) =
      let items = collect parse (split b',' (c ∷ column)) in
      let all = collect-Succeeds parse (split b',' (c ∷ column)) in
      let kept = map_err-Succeeds (parse_failed what (c ∷ column)) (items >>= λ l. ok (some l)) in
      (
        λ h.
            let (v, e) = kept.0 h in
            let (l, read, _) = >>=-eq-ok items (λ l. ok (some l)) e in inr (all.0 (l, read)),
        λ h. elim h [
          | inl empty ↦ cc empty
          | inr each ↦ let (l, read) = all.1 each in kept.1 (some l, rw read refl)
        ],
      )

parse_dns-IsRest : (more : List Str) → Succeeds (parse_dns more) ↔ IsRest more
unfolding parse_dns
parse_dns-IsRest [] = (λ h. tt, λ h. (none, refl))
parse_dns-IsRest (column ∷ []) =
    parse_column-IsColumn (codes "error parsing DNS server address ") parse_ip column
parse_dns-IsRest (a ∷ b ∷ more) = (λ h. tt, λ h. (none, refl))

module _ (path : Str) where
  pub parse_network-IsFirstLine :
      (columns : List Str) → Succeeds (parse_network path columns) ↔ IsFirstLine columns
  unfolding parse_network
  parse_network-IsFirstLine [] = (λ (b, h). cc, λ h. absurd h)
  parse_network-IsFirstLine (bind ∷ []) =
      let what = codes "error parsing ip address " in
      let binds = collect (parse_named what) (split b',' bind) in
      let all = named-IsList what bind in
      (
        λ (b, h). let (l, read, _) = >>=-eq-ok binds (λ l. ok (l, [])) h in all.0 (l, read),
        λ h. let (l, read) = all.1 h in ((l, []), rw read refl),
      )
  parse_network-IsFirstLine (bind ∷ servers ∷ more) =
      let what = codes "error parsing ip address " in
      let what_dns = codes "error parsing network dns address " in
      let binds = collect (parse_named what) (split b',' bind) in
      let dns = collect (parse_named what_dns) (split b',' servers) in
      let all = named-IsList what bind in
      let all_dns = named-IsList what_dns servers in
      (
        λ (b, h).
            let (l, read, rest) = >>=-eq-ok binds (λ l. dns >>= λ d. ok (l, d)) h in
            let (d, read_dns, _) = >>=-eq-ok dns (λ d. ok (l, d)) rest in
            (all.0 (l, read), all_dns.0 (d, read_dns)),
        λ (h, k).
            let (l, read) = all.1 h in
            let (d, read_dns) = all_dns.1 k in ((l, d), rw (read, read_dns) refl),
      )

  pub parse_network-some :
      (columns : List Str) (b : List IpAddr × List IpAddr)
      → parse_network path columns ≡ ok b
      → b.0 ≢ []
  unfolding parse_network
  parse_network-some [] b h = cc
  parse_network-some (bind ∷ []) b h =
      let what = codes "error parsing ip address " in
      let binds = collect (parse_named what) (split b',' bind) in
      let (l, read, same) = >>=-eq-ok binds (λ l. ok (l, [])) h in
      subst (λ (x : List IpAddr × List IpAddr). x.0 ≢ []) (ok-injective same)
        (collect-some (parse_named what) (split b',' bind) l (split-some b',' bind) read)
  parse_network-some (bind ∷ servers ∷ more) b h =
      let what = codes "error parsing ip address " in
      let binds = collect (parse_named what) (split b',' bind) in
      let dns =
        collect (parse_named (codes "error parsing network dns address ")) (split b',' servers) in
      let (l, read, rest) = >>=-eq-ok binds (λ l. dns >>= λ d. ok (l, d)) h in
      let (d, _, same) = >>=-eq-ok dns (λ d. ok (l, d)) rest in
      subst (λ (x : List IpAddr × List IpAddr). x.0 ≢ []) (ok-injective same)
        (collect-some (parse_named what) (split b',' bind) l (split-some b',' bind) read)

-- The check of the names cannot fail, since `split` gives a part at least.
check_names-split :
    (path line : Str) (lower : Str → Str) (names : Str)
    → Succeeds (check_names path line (map lower (split b',' names)))
check_names-split path line lower names = given (split b',' names) (split-some b',' names)
  where
    given : (ss : List Str) → ss ≢ [] → Succeeds (check_names path line (map lower ss))
    given [] some_text = absurd (some_text refl)
    given (s ∷ ss) some_text = (map lower (s ∷ ss), refl)

bind-Succeeds :
    {A B E : Type 0} (r : Result A E) (next : A → Result B E)
    → Succeeds (r >>= next)
    → (a : A) × (r ≡ ok a) × ((b : B) × (next a ≡ ok b))
bind-Succeeds r next (b, h) = let (a, first, rest) = >>=-eq-ok r next h in (a, first, (b, rest))

module _ (unicode : Str → Str) (path line : Str) where
  pub parse_entry-IsEntryLine :
      (columns : List Str) → Succeeds (parse_entry unicode path line columns) ↔ IsEntryLine columns
  unfolding parse_entry
  parse_entry-IsEntryLine (id ∷ v4_column ∷ v6_column ∷ names ∷ more) =
      let what = codes "error parsing IP address " in
      let v4s = parse_column-IsColumn what parse_ipv4 v4_column in
      let v6s = parse_column-IsColumn what parse_ipv6 v6_column in
      let rest = parse_dns-IsRest more in
      (
        λ h.
            let (a, read_a, k) = bind-Succeeds (parse_column what parse_ipv4 v4_column) _ h in
            let (b, read_b, l) = bind-Succeeds (parse_column what parse_ipv6 v6_column) _ k in
            let (n, _, m) =
              bind-Succeeds (check_names path line (map (to_lowercase unicode) (split b',' names)))
                _ l in
            let (d, read_d, _) = bind-Succeeds (parse_dns more) _ m in
            (v4s.0 (a, read_a), v6s.0 (b, read_b), rest.0 (d, read_d)),
        λ (is_a, is_b, is_d).
            let (a, read_a) = v4s.1 is_a in
            let (b, read_b) = v6s.1 is_b in
            let (n, read_n) = check_names-split path line (to_lowercase unicode) names in
            let (d, read_d) = rest.1 is_d in
            (
              record { id = to_lowercase unicode id; v4 = a; v6 = b; aliases = n; dns_servers = d },
              rw (read_a, read_b, read_n, read_d) refl,
            ),
      )
  parse_entry-IsEntryLine _ = (λ (e, h). cc, λ h. absurd h)
