-- ===== src/Config/File/Columns.antt =====
-- Printed columns and lines, read by `parse_entry` and `parse_line`.
use aardvark_dns.Prelude.{
  ◌≡◌, ◌≢◌, refl, ap, sym, false, [], ◌∷◌, ◌++◌, List, map, All, is_empty, arith,
}
use aardvark_dns.Text.{Str, codes}
use aardvark_dns.Text.Split.{split, join}
use aardvark_dns.Text.Case.{to_lowercase}
use aardvark_dns.Text.Join.{Lacks, split-join}
use aardvark_dns.Result.{Result, ok}
use aardvark_dns.Error.{AddrParseError}
use aardvark_dns.Net.Addr.{IpAddr}
use aardvark_dns.Net.Parser.{parse_ip, parse_ipv4, parse_ipv6}
use aardvark_dns.Config.Entry.{CtrEntry}
use aardvark_dns.Config.File.{
  collect, parse_column, parse_dns, check_names, parse_entry, parse_network, Lines, no_lines,
  parse_line,
}
use aardvark_dns.Config.File.Format.{
  EntryText, print_list, optional_column, entry_columns, IsPlain, IsItem, optional, SpellsEntry,
}

pub IsPlain-items : (ss : List Str) → All IsItem ss → All IsPlain ss
IsPlain-items [] h = tt
IsPlain-items (s ∷ ss) (i, h) = (i.plain, IsPlain-items ss h)

pub no_commas : (ss : List Str) → All IsPlain ss → All (Lacks b',') ss
no_commas [] h = tt
no_commas (s ∷ ss) (p, h) = (p.no_comma, no_commas ss h)

pub no_spaces : (ss : List Str) → All IsPlain ss → All (Lacks b' ') ss
no_spaces [] h = tt
no_spaces (s ∷ ss) (p, h) = (p.no_space, no_spaces ss h)

pub no_newlines : (ss : List Str) → All IsPlain ss → All (Lacks b'\n') ss
no_newlines [] h = tt
no_newlines (s ∷ ss) (p, h) = (p.no_newline, no_newlines ss h)

-- A printed column is read as its items.
pub split-print_list :
    (s : Str) (ss : List Str) → All IsPlain (s ∷ ss) → split b',' (print_list (s ∷ ss)) ≡ s ∷ ss
split-print_list s ss h = split-join b',' (s ∷ ss) (cc) (no_commas (s ∷ ss) h)

pub print_list-some : (s : Str) (ss : List Str) → s ≢ [] → is_empty (print_list (s ∷ ss)) ≡ false
unfolding join
print_list-some [] ss h = absurd (h refl)
print_list-some (c ∷ s) [] h = refl
print_list-some (c ∷ s) (q ∷ ss) h = refl

column_lem :
    {A : Type 0} (what : Str) (parse : Str → Result A AddrParseError) (ss : List Str)
    {items : List A}
    → All IsItem ss
    → collect parse ss ≡ ok items
    → parse_column what parse (print_list ss) ≡ ok (optional ss items)
unfolding parse_column join
column_lem what parse [] h read = refl
column_lem what parse (s ∷ ss) h read =
    rw
      (print_list-some s ss (h.0).some_text, split-print_list s ss (IsPlain-items (s ∷ ss) h), read)
      refl

dns_lem :
    (ss : List Str) {items : List IpAddr}
    → All IsItem ss
    → collect parse_ip ss ≡ ok items
    → parse_dns (optional_column ss) ≡ ok (optional ss items)
unfolding parse_dns
dns_lem [] h read = refl
dns_lem (s ∷ ss) h read =
    column_lem (codes "error parsing DNS server address ") parse_ip (s ∷ ss) h read

names_lem :
    (unicode : Str → Str) (path line : Str) (ss : List Str)
    → ss ≢ []
    → All IsPlain ss
    → check_names path line (map (to_lowercase unicode) (split b',' (print_list ss)))
      ≡ ok (map (to_lowercase unicode) ss)
names_lem unicode path line [] ne h = absurd (ne refl)
names_lem unicode path line (s ∷ ss) ne h = rw (split-print_list s ss h) refl

module _ (unicode : Str → Str) (path : Str) where
  pub entry_lem :
      (line : Str) (e : EntryText) (entry : CtrEntry)
      → SpellsEntry unicode e entry
      → parse_entry unicode path line (entry_columns e) ≡ ok entry
  unfolding parse_entry
  entry_lem line e entry s =
      rw
        (
          column_lem (codes "error parsing IP address ") parse_ipv4 e.v4 s.plain_v4 s.v4_read,
          column_lem (codes "error parsing IP address ") parse_ipv6 e.v6 s.plain_v6 s.v6_read,
          names_lem unicode path line e.names s.some_name s.plain_names,
          dns_lem e.dns s.plain_dns s.dns_read,
        )
        (ap ok (λ i. record {
          id = sym s.id_is i;
          v4 = sym s.v4_is i;
          v6 = sym s.v6_is i;
          aliases = sym s.aliases_are i;
          dns_servers = sym s.dns_is i;
        }))

  -- A line of an entry, read behind the first line.
  pub line_lem :
      (st : Lines) (line : Str) (entry : CtrEntry)
      → st.is_first ≡ false
      → line ≢ []
      → parse_entry unicode path line (split b' ' line) ≡ ok entry
      → parse_line unicode path st line ≡ ok (record st { ctrs = st.ctrs ++ entry ∷ [] })
  unfolding parse_line
  line_lem st [] entry later ne h = absurd (ne refl)
  line_lem st (c ∷ line) entry later ne h = ground arith

  pub first_lem :
      (line : Str) {binds servers : List IpAddr}
      → line ≢ []
      → parse_network path (split b' ' line) ≡ ok (binds, servers)
      → parse_line unicode path no_lines line
        ≡ ok (record {
          is_first = false;
          bind_addrs = binds;
          network_dns_servers = servers;
          ctrs = [];
        })
  unfolding parse_line
  first_lem [] ne h = absurd (ne refl)
  first_lem (c ∷ line) ne h = rw h refl
