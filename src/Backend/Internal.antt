-- ===== src/Backend/Internal.antt =====
-- `ctr_is_internal` and `get_network_scoped_resolvers` over the networks of a container.
use mathlib.Core.List.{flat_map}
use mathlib.Core.Option
use aardvark_dns.Prelude.{
  ◌≡◌, ◌≢◌, ◌↔◌, refl, ap, sym, ◌∙◌, true, false, [], ◌∷◌, ◌++◌, List, some, arith, All,
  Option-cases, inl, inr, append_assoc, append-nil,
}
use aardvark_dns.Text.{Str, str_eq}
use aardvark_dns.HashMap.{get, found}
use aardvark_dns.Net.Addr.{IpAddr, ip_eq}
use aardvark_dns.Backend.{
  DnsBackend, all_internal, ctr_is_internal, resolvers_in, get_network_scoped_resolvers,
}

module _ (b : DnsBackend) where
  -- The network is not known to be reachable from outside.
  abbrev pub NotExternal : Str → Type 0
  NotExternal net = get b.network_is_internal net ≢ some false

  all_internal_iff : (nets : List Str) → (all_internal b nets ≡ true) ↔ All NotExternal nets
  unfolding all_internal
  all_internal_iff [] = ground arith
  all_internal_iff (net ∷ nets) = ground (arith, all_internal_iff nets)

  -- A requester counts as internal exactly when it is a known container and none of its networks
  -- is recorded as not internal.
  pub ctr_is_internal_iff :
      (requester : IpAddr)
      → (ctr_is_internal b requester ≡ true)
        ↔ ((nets : List Str) × (get b.ip_mappings requester ≡ some nets) × All NotExternal nets)
  unfolding ctr_is_internal
  ctr_is_internal_iff requester = elim (Option-cases (get b.ip_mappings requester)) [
    | inl unknown ↦ (λ h. cc, λ (nets, known, _). cc)
    | inr (ns, known) ↦ (
      λ h. (ns, known, (all_internal_iff ns).0 (rw (known, ctr_is_internal) at h)),
      λ (nets, also, all).
          rw (known, ctr_is_internal)
            ((all_internal_iff ns).1 (rw (← same ns nets known also) all)),
    )
  ]
    where
      same :
          (ns nets : List Str)
          → get b.ip_mappings requester ≡ some ns
          → get b.ip_mappings requester ≡ some nets
          → nets ≡ ns
      same ns nets p q = cc

  resolvers_in-flat_map :
      (nets : List Str) (results : List IpAddr)
      → resolvers_in b results nets
        ≡ results ++ flat_map (λ net. found (get b.network_dns_server net)) nets
  unfolding resolvers_in flat_map
  resolvers_in-flat_map [] results = sym (append-nil results)
  resolvers_in-flat_map (net ∷ nets) results =
      resolvers_in-flat_map nets (results ++ found (get b.network_dns_server net))
      ∙ append_assoc results _ _

  -- The resolvers of a known container are those of its networks, in the order of the networks;
  -- a requester that is not known has none.
  pub get_network_scoped_resolvers_lem :
      (requester : IpAddr)
      → get_network_scoped_resolvers b requester
        ≡ Option.map
            (flat_map (λ net. found (get b.network_dns_server net)))
            (get b.ip_mappings requester)
  unfolding get_network_scoped_resolvers
  get_network_scoped_resolvers_lem requester = elim (Option-cases (get b.ip_mappings requester)) [
    | inl unknown ↦ rw (unknown, get_network_scoped_resolvers) refl
    | inr (nets, known) ↦
        rw (known, get_network_scoped_resolvers) (ap some (resolvers_in-flat_map nets []))
  ]
