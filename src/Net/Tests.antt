-- ===== src/Net/Tests.antt =====
-- Addresses read from text.
use aardvark_dns.Prelude.{◌≡◌, refl, some, none}
use aardvark_dns.Text.{codes}
use aardvark_dns.Result.{ok, err}
use aardvark_dns.Error.{AddrParseError}
use aardvark_dns.Net.Addr.{v4, v6}
use aardvark_dns.Net.Parser.{parse_ip, parse_ipv4, parse_ipv6, parse_u32}

parses :
    (parse_ip (codes "10.88.0.1") ≡ ok (v4 0x0a580001))
    × (parse_ip (codes "fdfd::1") ≡ ok (v6 0xfdfd0000000000000000000000000001))
    × (parse_ip (codes "::") ≡ ok (v6 0))
    × (parse_ip (codes "::ffff:1.2.3.4") ≡ ok (v6 0xffff01020304))
    × (parse_ip (codes "1:2:3:4:5:6:7:8") ≡ ok (v6 0x00010002000300040005000600070008))
    × (parse_ip (codes "1.2.3.04") ≡ err AddrParseError.ip)
    × (parse_ip (codes "1.2.3.256") ≡ err AddrParseError.ip)
    × (parse_ip (codes "dfdsfds") ≡ err AddrParseError.ip)
    × (parse_ipv4 (codes "1.2.3") ≡ err AddrParseError.ipv4)
    × (parse_ipv6 (codes "1:2:3:4:5:6:7") ≡ err AddrParseError.ipv6)
    × (parse_ipv6 (codes "fd35:fb67:49e1:349::2") ≡ ok 0xfd35fb6749e103490000000000000002)
    × (parse_u32 (codes "4294967296") ≡ none)
    × (parse_u32 (codes "+12") ≡ some 12)
unfolding parse_ip parse_ipv4 parse_ipv6 parse_u32
parses = (refl, refl, refl, refl, refl, refl, refl, refl, refl, refl, refl, refl, refl)
