-- ===== src/Net/Addr.antt =====
-- Addresses as the numbers that they stand for, in network order.
use aardvark_dns.Prelude.{ℕ, ◌≡◌, ◌↔◌, Bool, true, false, arith, nat_beq}
use aardvark_dns.Prelude.Classes.{Eq}

-- `Ipv4Addr`, below 2 ^ 32, and `Ipv6Addr`, below 2 ^ 128.
abbrev pub Ipv4Addr : Type 0
Ipv4Addr = ℕ

abbrev pub Ipv6Addr : Type 0
Ipv6Addr = ℕ

pub data IpAddr : Type 0 where
  v4 : Ipv4Addr → IpAddr
  v6 : Ipv6Addr → IpAddr

abbrev pub ip_beq : IpAddr → IpAddr → Bool
ip_beq (v4 a) (v4 b) = nat_beq a b
ip_beq (v6 a) (v6 b) = nat_beq a b
ip_beq _ _ = false

pub ip_beq_iff : (a b : IpAddr) → (ip_beq a b ≡ true) ↔ (a ≡ b)
ip_beq_iff (v4 a) (v4 b) = ground arith
ip_beq_iff (v6 a) (v6 b) = ground arith
ip_beq_iff _ _ = ground arith

instance abbrev pub ip_eq : Eq IpAddr
ip_eq = record { equal = ip_beq; equal_iff = ip_beq_iff }

-- `SocketAddr`: address and port; for IPv6 also the flow information and the scope id.
pub data SocketAddr : Type 0 where
  socket_v4 : Ipv4Addr → ℕ → SocketAddr
  socket_v6 : Ipv6Addr → ℕ → ℕ → ℕ → SocketAddr

-- `SocketAddr::new(ip, port)`
abbrev pub socket_addr : IpAddr → ℕ → SocketAddr
socket_addr (v4 a) port = socket_v4 a port
socket_addr (v6 a) port = socket_v6 a port 0 0

-- `addr.ip()`
abbrev pub ip_of : SocketAddr → IpAddr
ip_of (socket_v4 a port) = v4 a
ip_of (socket_v6 a port flow scope) = v6 a
