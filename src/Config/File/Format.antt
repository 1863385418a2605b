-- ===== src/Config/File/Format.antt =====
-- The format of a configuration file, as config.md gives it: a printer for the text of a file, and
-- what it means for a text to spell an entry or a first line.
use aardvark_dns.Prelude.{◌≡◌, ◌≢◌, [], ◌∷◌, List, Option, none, some, map, All}
use aardvark_dns.Text.{Str}
use aardvark_dns.Text.Split.{join}
use aardvark_dns.Text.Case.{to_lowercase}
use aardvark_dns.Text.Join.{Lacks}
use aardvark_dns.Result.{ok}
use aardvark_dns.Net.Addr.{IpAddr, Ipv4Addr, Ipv6Addr}
use aardvark_dns.Net.Parser.{parse_ip, parse_ipv4, parse_ipv6}
use aardvark_dns.Config.Entry.{CtrEntry}
use aardvark_dns.Config.File.{collect}

-- A container's line before it is printed: its id and the items of its columns.
pub record EntryText : Type 0 where
  pub id : Str
  pub v4 : List Str
  pub v6 : List Str
  pub names : List Str
  pub dns : List Str

-- A file before it is printed.
pub record FileText : Type 0 where
  pub binds : List Str
  pub servers : List Str
  pub entries : List EntryText

abbrev pub print_list : List Str → Str
print_list = join (b',' ∷ [])

-- A last column that is left out if it is empty.
abbrev pub optional_column : List Str → List Str
optional_column [] = []
optional_column (s ∷ ss) = print_list (s ∷ ss) ∷ []

abbrev pub entry_columns : EntryText → List Str
entry_columns e =
    e.id ∷ print_list e.v4 ∷ print_list e.v6 ∷ print_list e.names ∷ optional_column e.dns

abbrev pub print_entry : EntryText → Str
print_entry e = join (b' ' ∷ []) (entry_columns e)

abbrev pub first_columns : FileText → List Str
first_columns f = print_list f.binds ∷ optional_column f.servers

abbrev pub print_file : FileText → Str
print_file f = join (b'\n' ∷ []) (join (b' ' ∷ []) (first_columns f) ∷ map print_entry f.entries)

-- An item holds no separator.
pub record IsPlain (s : Str) : Type 0 where
  pub no_space : Lacks b' ' s
  pub no_comma : Lacks b',' s
  pub no_newline : Lacks b'\n' s

-- An item of an address column.
pub record IsItem (s : Str) : Type 0 where
  pub plain : IsPlain s
  pub some_text : s ≢ []

abbrev pub optional : {A : Type 0} → List Str → List A → Option (List A)
optional [] items = none
optional (s ∷ ss) items = some items

module _ (unicode : Str → Str) where
  -- The text spells the entry: its items are plain, and each is read as what the entry holds.
  pub record SpellsEntry (e : EntryText) (entry : CtrEntry) : Type 0 where
    pub plain_id : IsPlain e.id
    pub plain_v4 : All IsItem e.v4
    pub plain_v6 : All IsItem e.v6
    pub plain_names : All IsPlain e.names
    pub plain_dns : All IsItem e.dns
    pub some_name : e.names ≢ []
    pub v4_addrs : List Ipv4Addr
    pub v6_addrs : List Ipv6Addr
    pub dns_addrs : List IpAddr
    pub v4_read : collect parse_ipv4 e.v4 ≡ ok v4_addrs
    pub v6_read : collect parse_ipv6 e.v6 ≡ ok v6_addrs
    pub dns_read : collect parse_ip e.dns ≡ ok dns_addrs
    pub id_is : entry.id ≡ to_lowercase unicode e.id
    pub v4_is : entry.v4 ≡ optional e.v4 v4_addrs
    pub v6_is : entry.v6 ≡ optional e.v6 v6_addrs
    pub aliases_are : entry.aliases ≡ map (to_lowercase unicode) e.names
    pub dns_is : entry.dns_servers ≡ optional e.dns dns_addrs

  abbrev pub SpellsAll : List EntryText → List CtrEntry → Type 0
  SpellsAll [] [] = Unit
  SpellsAll (e ∷ es) (entry ∷ entries) = SpellsEntry e entry × SpellsAll es entries
  SpellsAll _ _ = ⊥

-- The first line spells the addresses.
pub record SpellsFirst (f : FileText) (binds servers : List IpAddr) : Type 0 where
  pub plain_binds : All IsItem f.binds
  pub plain_servers : All IsItem f.servers
  pub some_bind : f.binds ≢ []
  pub binds_read : collect parse_ip f.binds ≡ ok binds
  pub servers_read : collect parse_ip f.servers ≡ ok servers
