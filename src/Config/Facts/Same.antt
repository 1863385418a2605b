-- ===== src/Config/Facts/Same.antt =====
-- The tables of `parse_configs` that name containers; what comes before the loop over the entries
-- of a file leaves them.
use aardvark_dns.Prelude.{◌≡◌, refl, sym, Bool, List, [], ◌∷◌}
use aardvark_dns.Text.{Str}
use aardvark_dns.Net.Addr.{IpAddr, v4, v6}
use aardvark_dns.Config.Directory.{Tables, LogLine, add_bind, add_binds, add_servers}

-- The tables that name containers are the same.
pub record SameIndex (t u : Tables) : Type 0 where
  pub members : t.network_membership ≡ u.network_membership
  pub ips : t.container_ips ≡ u.container_ips
  pub names : t.network_names ≡ u.network_names
  pub reverses : t.reverse ≡ u.reverse

pub SameIndex-sym : (t u : Tables) → SameIndex t u → SameIndex u t
SameIndex-sym t u s = record {
  members = sym s.members;
  ips = sym s.ips;
  names = sym s.names;
  reverses = sym s.reverses;
}

pub log-SameIndex : (t : Tables) (lines : List LogLine) → SameIndex t (record t { log = lines })
log-SameIndex t lines = record { members = refl; ips = refl; names = refl; reverses = refl }

SameIndex-trans : (t u w : Tables) → SameIndex t u → SameIndex u w → SameIndex t w
SameIndex-trans t u w p q = record { members = cc; ips = cc; names = cc; reverses = cc }

module _ (network : Str) (internal : Bool) where
  add_bind-SameIndex : (t : Tables) (ip : IpAddr) → SameIndex t (add_bind network internal t ip)
  unfolding add_bind
  add_bind-SameIndex t (v4 a) = record { members = refl; ips = refl; names = refl; reverses = refl }
  add_bind-SameIndex t (v6 a) = record { members = refl; ips = refl; names = refl; reverses = refl }

  add_binds-SameIndex :
      (t : Tables) (ips : List IpAddr) → SameIndex t (add_binds network internal t ips)
  unfolding add_binds
  add_binds-SameIndex t [] = record { members = refl; ips = refl; names = refl; reverses = refl }
  add_binds-SameIndex t (ip ∷ ips) =
      SameIndex-trans t (add_bind network internal t ip) _ (add_bind-SameIndex t ip)
        (add_binds-SameIndex (add_bind network internal t ip) ips)

  add_servers-SameIndex :
      (t : Tables) (servers : List IpAddr) → SameIndex t (add_servers network internal t servers)
  unfolding add_servers
  add_servers-SameIndex t servers = record {
    members = refl;
    ips = refl;
    names = refl;
    reverses = refl;
  }

  pub add_head-SameIndex :
      (t : Tables) (servers ips : List IpAddr)
      → SameIndex t (add_binds network internal (add_servers network internal t servers) ips)
  add_head-SameIndex t servers ips =
      SameIndex-trans t (add_servers network internal t servers) _ (add_servers-SameIndex t servers)
        (add_binds-SameIndex (add_servers network internal t servers) ips)
