-- ===== src/Dns/Forward/Time.antt =====
-- `forward_to_servers`: the time that all servers together may take.
use native.Mathlib.Nat.{mul-div-le, mul-le-mul_right}
use aardvark_dns.Prelude.{
  ℕ, ◌≡◌, ◌≤◌, ◌<◌, ◌+◌, ◌*◌, ◌/◌, ◌%◌, ◌^◌, refl, List, [], ◌∷◌, ◌++◌, some, length, arith, inl,
  inr, Option-cases, Bool-cases,
}
use aardvark_dns.Net.Addr.{SocketAddr}
use aardvark_dns.Dns.Message.{Hickory, Protocol, proto_udp, proto_tcp}
use aardvark_dns.Dns.Forward.{
  Upstream, Forwarded, default_timeout, timeout_of, ask, forward_from, forward_to_servers,
}

-- How often a server makes the program wait: TCP waits for the connection and for the response.
abbrev pub waits : Protocol → ℕ
waits proto_udp = 1
waits proto_tcp = 2

-- With fewer than 2 ^ 32 servers all the time-outs together are within the default one.
timeout_of_lem :
    (nameservers : List SocketAddr)
    → length nameservers < 2 ^ 32
    → (t : ℕ) × (timeout_of nameservers ≡ some t) × (length nameservers * t ≤ default_timeout)
unfolding timeout_of
timeout_of_lem [] few = (default_timeout, refl, omega arith)
timeout_of_lem (addr ∷ nameservers) few =
    let n = length (addr ∷ nameservers) in
    let same : n % 2 ^ 32 ≡ n = omega arith in
    (default_timeout / n, rw same refl, mul-div-le default_timeout n)

-- Every client keeps to the time-out that it is given, as the protocol library says of them.
pub record KeepsTimeouts {Message : Type 0} (upstream : Upstream Message) : Type 0 where
  pub connect :
      (asked : List SocketAddr) (addr : SocketAddr) (t : ℕ) → (upstream.connect asked addr t).1 ≤ t
  pub send :
      (asked : List SocketAddr) (addr : SocketAddr) (proto : Protocol) (t : ℕ) (req : Message)
      → (upstream.send asked addr proto t req).1 ≤ t

module _ {Name Message : Type 0} (h : Hickory Name Message) (upstream : Upstream Message)
    (keeps : KeepsTimeouts upstream) (src_address : SocketAddr) (req : Message) where
  ask-le :
      (t : ℕ) (proto : Protocol) (asked : List SocketAddr) (addr : SocketAddr)
      → (ask h upstream t src_address req proto asked addr).1 ≤ waits proto * t
  ask-le t proto_udp asked addr = omega (arith, keeps.send asked addr proto_udp t req)
  ask-le t proto_tcp asked addr =
      let first = keeps.connect asked addr t in
      let second = keeps.send asked addr proto_tcp t req in
      elim (Bool-cases (upstream.connect asked addr t).0) [
        | inl connected ↦ rw connected (omega (arith, first, second))
        | inr refused ↦ rw refused (omega (arith, first))
      ]

  spent-le :
      (t : ℕ) (proto : Protocol) (asked : List SocketAddr) (spent : ℕ)
      (nameservers : List SocketAddr)
      → (forward_from h upstream t src_address req proto asked spent nameservers).spent
        ≤ spent + length nameservers * (waits proto * t)
  unfolding forward_from
  spent-le t proto asked spent [] = omega arith
  spent-le t proto asked spent (addr ∷ nameservers) =
      let here = ask-le t proto asked addr in
      let time = (ask h upstream t src_address req proto asked addr).1 in
      elim (Option-cases (ask h upstream t src_address req proto asked addr).0) [
        | inl lost ↦
            let later = spent-le t proto (asked ++ addr ∷ []) (spent + time) nameservers in
            rw (lost, forward_from) (grind (arith, here, later))
        | inr (effect, replied) ↦ rw (replied, forward_from) (grind (arith, here))
      ]

  -- If the clients keep to the time-outs that they are given, forwarding to fewer than 2 ^ 32
  -- servers returns after at most five seconds over UDP and at most ten seconds over TCP, where a
  -- server can take the time-out twice.
  pub forward_to_servers_bounds :
      (nameservers : List SocketAddr) (proto : Protocol)
      → length nameservers < 2 ^ 32
      → (r : Forwarded Message) × (forward_to_servers h upstream nameservers src_address req proto
          ≡ some r)
        × (r.spent ≤ waits proto * default_timeout)
  unfolding forward_to_servers
  forward_to_servers_bounds nameservers proto few =
      let (t, timed, total) = timeout_of_lem nameservers few in
      let r = forward_from h upstream t src_address req proto [] 0 nameservers in
      let within = spent-le t proto [] 0 nameservers in
      let scaled = mul-le-mul_right (waits proto) total in
      (r, rw (timed, forward_to_servers) refl, grind (arith, within, scaled))
