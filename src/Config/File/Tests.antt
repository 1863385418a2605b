-- ===== src/Config/File/Tests.antt =====
-- A printed file that is read back.
use aardvark_dns.Prelude.{◌≡◌, refl, true, [], ◌∷◌, none, some}
use aardvark_dns.Text.{Str, codes}
use aardvark_dns.Text.Case.{to_lowercase}
use aardvark_dns.Text.Join.{lacks, lacks-Lacks}
use aardvark_dns.Result.{ok}
use aardvark_dns.Net.Addr.{v4}
use aardvark_dns.Net.Parser.{parse_ip, parse_ipv4, parse_ipv6}
use aardvark_dns.Config.Entry.{CtrEntry, ParsedNetworkConfig}
use aardvark_dns.Config.File.{collect, parse_config}
use aardvark_dns.Config.File.Format.{
  EntryText, FileText, print_file, IsPlain, SpellsEntry, SpellsFirst,
}
use aardvark_dns.Config.File.RoundTrip.{parse_config-print_file}

plain : (s : Str) → lacks b' ' s ≡ true → lacks b',' s ≡ true → lacks b'\n' s ≡ true → IsPlain s
plain s a b c = record {
  no_space = lacks-Lacks b' ' s a;
  no_comma = lacks-Lacks b',' s b;
  no_newline = lacks-Lacks b'\n' s c;
}

abbrev same_text : Str → Str
same_text s = s

abbrev web_text : EntryText
web_text = record {
  id = codes "AB12";
  v4 = codes "10.0.0.2" ∷ [];
  v6 = [];
  names = codes "Web" ∷ codes "www" ∷ [];
  dns = [];
}

abbrev file_text : FileText
file_text = record {
  binds = codes "10.0.0.1" ∷ [];
  servers = codes "8.8.8.8" ∷ [];
  entries = web_text ∷ [];
}

abbrev web_entry : CtrEntry
web_entry = record {
  id = codes "ab12";
  v4 = some (0x0a000002 ∷ []);
  v6 = none;
  aliases = codes "web" ∷ codes "www" ∷ [];
  dns_servers = none;
}

abbrev file_config : ParsedNetworkConfig
file_config = record {
  network_bind_ip = v4 0x0a000001 ∷ [];
  container_entry = web_entry ∷ [];
  network_dnsservers = v4 0x08080808 ∷ [];
}

spells_first : SpellsFirst file_text file_config.network_bind_ip file_config.network_dnsservers
unfolding collect parse_ip
spells_first = record {
  plain_binds =
      (record { plain = plain (codes "10.0.0.1") refl refl refl; some_text = λ h. cc }, tt);
  plain_servers =
      (record { plain = plain (codes "8.8.8.8") refl refl refl; some_text = λ h. cc }, tt);
  some_bind = λ h. cc;
  binds_read = refl;
  servers_read = refl;
}

spells_web : SpellsEntry same_text web_text web_entry
unfolding collect parse_ip parse_ipv4 parse_ipv6 to_lowercase
spells_web = record {
  plain_id = plain (codes "AB12") refl refl refl;
  plain_v4 = (record { plain = plain (codes "10.0.0.2") refl refl refl; some_text = λ h. cc }, tt);
  plain_v6 = tt;
  plain_names = (plain (codes "Web") refl refl refl, (plain (codes "www") refl refl refl, tt));
  plain_dns = tt;
  some_name = λ h. cc;
  v4_addrs = 0x0a000002 ∷ [];
  v6_addrs = [];
  dns_addrs = [];
  v4_read = refl;
  v6_read = refl;
  dns_read = refl;
  id_is = refl;
  v4_is = refl;
  v6_is = refl;
  aliases_are = refl;
  dns_is = refl;
}

parse_config-print_file_example :
    parse_config same_text (codes "net") (ok (print_file file_text)) ≡ ok file_config
parse_config-print_file_example =
    parse_config-print_file same_text (codes "net") file_text file_config spells_first
      (spells_web, tt)
