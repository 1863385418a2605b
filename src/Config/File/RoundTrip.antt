-- ===== src/Config/File/RoundTrip.antt =====
-- `parse_config` reads back every file that is printed in the format of config.md.
use aardvark_dns.Prelude.{
  ℕ, ◌≡◌, ◌≢◌, refl, ap, sym, false, [], ◌∷◌, ◌++◌, List, map, All, is_empty, arith, append_assoc,
  append-nil,
}
use aardvark_dns.Text.{Str, codes}
use aardvark_dns.Text.Split.{split, join}
use aardvark_dns.Text.Join.{Lacks, split-join, Lacks-join}
use aardvark_dns.Result.{ok, ◌>>=◌, >>=-eq-ok, ok-injective}
use aardvark_dns.Net.Addr.{IpAddr}
use aardvark_dns.Net.Parser.{parse_ip}
use aardvark_dns.Config.Entry.{CtrEntry, ParsedNetworkConfig}
use aardvark_dns.Config.File.{
  collect, parse_named, parse_network, Lines, parse_line, parse_lines, parse_config,
}
use aardvark_dns.Config.File.Columns.{
  IsPlain-items, no_spaces, no_newlines, split-print_list, print_list-some, entry_lem, line_lem,
  first_lem,
}
use aardvark_dns.Config.File.Format.{
  EntryText, FileText, print_list, optional_column, entry_columns, print_entry, first_columns,
  print_file, IsPlain, IsItem, SpellsEntry, SpellsAll, SpellsFirst,
}

collect_named :
    (what : Str) (ss : List Str) {items : List IpAddr}
    → collect parse_ip ss ≡ ok items
    → collect (parse_named what) ss ≡ ok items
unfolding collect
collect_named what [] h = ap ok (ok-injective h)
collect_named what (s ∷ ss) {items} h =
    let (a, first, rest) =
      >>=-eq-ok (parse_ip s) (λ a. collect parse_ip ss >>= λ as'. ok (a ∷ as')) h in
    let (as', later, done) = >>=-eq-ok (collect parse_ip ss) (λ as'. ok (a ∷ as')) rest in
    rw (first, collect_named what ss later) (ap ok (ok-injective done))

collect-some :
    (ss : List Str) {items : List IpAddr}
    → ss ≢ []
    → collect parse_ip ss ≡ ok items
    → is_empty items ≡ false
unfolding collect
collect-some [] ne h = absurd (ne refl)
collect-some (s ∷ ss) {items} ne h =
    let (a, _, rest) =
      >>=-eq-ok (parse_ip s) (λ a. collect parse_ip ss >>= λ as'. ok (a ∷ as')) h in
    let (as', _, done) = >>=-eq-ok (collect parse_ip ss) (λ as'. ok (a ∷ as')) rest in
    ap is_empty (sym (ok-injective done))

columns_lem :
    (path : Str) (bs ss : List Str) {binds servers : List IpAddr}
    → bs ≢ []
    → All IsPlain bs
    → All IsPlain ss
    → collect parse_ip bs ≡ ok binds
    → collect parse_ip ss ≡ ok servers
    → parse_network path (print_list bs ∷ optional_column ss) ≡ ok (binds, servers)
unfolding parse_network collect
columns_lem path [] ss ne pb ps hb hs = absurd (ne refl)
columns_lem path (b ∷ bs) [] {binds = bound} ne pb ps hb hs =
    rw (split-print_list b bs pb, collect_named (codes "error parsing ip address ") (b ∷ bs) hb)
      (ap (λ (x : List IpAddr). ok (bound, x)) (ok-injective hs))
columns_lem path (b ∷ bs) (s ∷ ss) ne pb ps hb hs =
    rw
      (
        split-print_list b bs pb,
        collect_named (codes "error parsing ip address ") (b ∷ bs) hb,
        split-print_list s ss ps,
        collect_named (codes "error parsing network dns address ") (s ∷ ss) hs,
      )
      refl

network_lem :
    (path : Str) (f : FileText) {binds servers : List IpAddr}
    → SpellsFirst f binds servers
    → parse_network path (first_columns f) ≡ ok (binds, servers)
network_lem path f s =
    columns_lem path f.binds f.servers s.some_bind (IsPlain-items f.binds s.plain_binds)
      (IsPlain-items f.servers s.plain_servers) s.binds_read s.servers_read

-- A separator that is not the comma stands in no printed column.
module _ (c : ℕ) (no_comma : b',' ≢ c)
    (lacks : (ss : List Str) → All IsPlain ss → All (Lacks c) ss) where
  print_list-Lacks : (ss : List Str) → All IsPlain ss → Lacks c (print_list ss)
  print_list-Lacks ss h = Lacks-join c b',' ss no_comma (lacks ss h)

  optional_column-Lacks : (ss : List Str) → All IsPlain ss → All (Lacks c) (optional_column ss)
  optional_column-Lacks [] h = tt
  optional_column-Lacks (s ∷ ss) h = (print_list-Lacks (s ∷ ss) h, tt)

  entry_columns-Lacks :
      (unicode : Str → Str) (e : EntryText) (entry : CtrEntry)
      → SpellsEntry unicode e entry
      → All (Lacks c) (entry_columns e)
  entry_columns-Lacks unicode e entry s = (
    (lacks (e.id ∷ []) (s.plain_id, tt)).0,
    (
      print_list-Lacks e.v4 (IsPlain-items e.v4 s.plain_v4),
      (
        print_list-Lacks e.v6 (IsPlain-items e.v6 s.plain_v6),
        (
          print_list-Lacks e.names s.plain_names,
          optional_column-Lacks e.dns (IsPlain-items e.dns s.plain_dns),
        ),
      ),
    ),
  )

  first_columns-Lacks :
      (f : FileText) {binds servers : List IpAddr}
      → SpellsFirst f binds servers
      → All (Lacks c) (first_columns f)
  first_columns-Lacks f s = (
    print_list-Lacks f.binds (IsPlain-items f.binds s.plain_binds),
    optional_column-Lacks f.servers (IsPlain-items f.servers s.plain_servers),
  )

-- Two texts around a separator are not empty.
joined-ne-nil : (s : Str) (c : ℕ) (t : Str) → s ++ c ∷ t ≢ []
joined-ne-nil [] c t h = cc
joined-ne-nil (x ∷ s) c t h = cc

join-ne-nil : (c : ℕ) (s t : Str) (ss : List Str) → join (c ∷ []) (s ∷ t ∷ ss) ≢ []
unfolding join
join-ne-nil c s t ss = joined-ne-nil s c (join (c ∷ []) (t ∷ ss))

single : (b : Str) (bs : List Str) → b ≢ [] → join (b' ' ∷ []) (print_list (b ∷ bs) ∷ []) ≢ []
unfolding join
single b bs ne e = cc (print_list-some b bs ne)

first_line-ne-nil :
    (f : FileText) {binds servers : List IpAddr}
    → SpellsFirst f binds servers
    → join (b' ' ∷ []) (first_columns f) ≢ []
first_line-ne-nil f s = columns-ne-nil f.binds f.servers s.some_bind s.plain_binds
  where
    columns-ne-nil :
        (bs ss : List Str)
        → bs ≢ []
        → All IsItem bs
        → join (b' ' ∷ []) (print_list bs ∷ optional_column ss) ≢ []
    columns-ne-nil [] ss ne h = absurd (ne refl)
    columns-ne-nil (b ∷ bs) [] ne (i, h) = single b bs i.some_text
    columns-ne-nil (b ∷ bs) (t ∷ ss) ne h =
        join-ne-nil b' ' (print_list (b ∷ bs)) (print_list (t ∷ ss)) []

module _ (unicode : Str → Str) (path : Str) where
  print_entry-read :
      (st : Lines) (e : EntryText) (entry : CtrEntry)
      → st.is_first ≡ false
      → SpellsEntry unicode e entry
      → parse_line unicode path st (print_entry e) ≡ ok (record st { ctrs = st.ctrs ++ entry ∷ [] })
  print_entry-read st e entry later s =
      line_lem unicode path st (print_entry e) entry later
        (join-ne-nil b' ' e.id (print_list e.v4) _)
        (rw
          (split-join b' ' (entry_columns e) (cc)
            (entry_columns-Lacks b' ' (omega arith) no_spaces unicode e entry s))
          (entry_lem unicode path (print_entry e) e entry s))

  entries_lem :
      (es : List EntryText) (entries : List CtrEntry) (st : Lines)
      → st.is_first ≡ false
      → SpellsAll unicode es entries
      → parse_lines unicode path st (map print_entry es)
        ≡ ok (record st { ctrs = st.ctrs ++ entries })
  unfolding parse_lines
  entries_lem [] [] st later h = rw append-nil refl
  entries_lem [] (entry ∷ entries) st later h = absurd h
  entries_lem (e ∷ es) [] st later h = absurd h
  entries_lem (e ∷ es) (entry ∷ entries) st later (s, h) =
      rw
        (
          print_entry-read st e entry later s,
          entries_lem es entries (record st { ctrs = st.ctrs ++ entry ∷ [] }) later h,
          append_assoc,
        )
        refl

  lines-Lacks :
      (es : List EntryText) (entries : List CtrEntry)
      → SpellsAll unicode es entries
      → All (Lacks b'\n') (map print_entry es)
  lines-Lacks [] entries h = tt
  lines-Lacks (e ∷ es) [] h = absurd h
  lines-Lacks (e ∷ es) (entry ∷ entries) (s, h) = (
    Lacks-join b'\n' b' ' (entry_columns e) (omega arith)
        (entry_columns-Lacks b'\n' (omega arith) no_newlines unicode e entry s),
    lines-Lacks es entries h,
  )

  -- A file printed in the format of config.md, from items without separators whose addresses are
  -- valid, is read back as what it spells: the bind addresses, the servers of the network, and the
  -- entries in order, with ids and names in lower case.
  pub parse_config-print_file :
      (f : FileText) (c : ParsedNetworkConfig)
      → SpellsFirst f c.network_bind_ip c.network_dnsservers
      → SpellsAll unicode f.entries c.container_entry
      → parse_config unicode path (ok (print_file f)) ≡ ok c
  unfolding parse_config parse_lines
  parse_config-print_file f c first all =
      let line = join (b' ' ∷ []) (first_columns f) in
      let no_break =
        Lacks-join b'\n' b' ' (first_columns f) (omega arith)
          (first_columns-Lacks b'\n' (omega arith) no_newlines f first) in
      let header : parse_network path (split b' ' line)
          ≡ ok (c.network_bind_ip, c.network_dnsservers) =
        rw
          (split-join b' ' (first_columns f) (cc)
            (first_columns-Lacks b' ' (omega arith) no_spaces f first))
          (network_lem path f first) in
      rw
        (
          split-join b'\n' (line ∷ map print_entry f.entries) (cc)
              (no_break, lines-Lacks f.entries c.container_entry all),
          first_lem unicode path line (first_line-ne-nil f first) header,
          entries_lem f.entries c.container_entry
              (record {
                is_first = false;
                bind_addrs = c.network_bind_ip;
                network_dns_servers = c.network_dnsservers;
                ctrs = [];
              })
              refl all,
          collect-some f.binds first.some_bind first.binds_read,
        )
        refl
