-- ===== src/Config/Contents/Networks.antt =====
-- The networks that `parse_configs` gives to each address; and that it succeeds.
use aardvark_dns.Prelude.{◌≡◌, ◌↔◌, inl, inr, refl, sym, subst, ap, ◌∙◌, [], List, Has, some}
use aardvark_dns.Text.{Str, str_eq}
use aardvark_dns.Result.{Result, ok}
use aardvark_dns.Error.{IoError}
use aardvark_dns.HashMap.{HashMap, get, found}
use aardvark_dns.HashMap.Visits.{Visits}
use aardvark_dns.Net.Addr.{IpAddr, ip_eq}
use aardvark_dns.Backend.{new}
use aardvark_dns.Config.Entry.{CtrEntry}
use aardvark_dns.Config.Directory.{
  DirEntry, FileSystem, Tables, no_tables, Parsed, Order, new_ctr_ips, add_configs, build_ctrs,
  result_of, parse_configs,
}
use aardvark_dns.Config.Sources.{Declares}
use aardvark_dns.Config.Facts.Entries.{configs_step, network_step}
use aardvark_dns.Config.Index.{
  Member, Known, Visited, Member-add_entry, Visits-add_entry, Known-add_entry, Visited-add_entry,
}
use aardvark_dns.Config.Contents.Build.{build_ctrs_step, build_ctrs-ok, build_ctrs-Listed}
use aardvark_dns.Config.Contents.Run.{VisitsAll, parse_configs-Run}

-- Some files declare a container with the address for any network, and one with the same id for
-- the network `net`.
abbrev pub Joined :
    (Str → Str) → FileSystem → List (Result DirEntry IoError) → IpAddr → Str → Type 0
Joined unicode fs configs ip net =
    (other : Str) × (entry : CtrEntry) × Declares unicode fs.read_to_string configs other entry
    × Has ip (new_ctr_ips entry)
    × (joined : CtrEntry) × Declares unicode fs.read_to_string configs net joined
    × (joined.id ≡ entry.id)

module _ (unicode : Str → Str) (fs : FileSystem) (configs : List (Result DirEntry IoError))
    (t : Tables) (loop : add_configs unicode fs.read_to_string no_tables configs ≡ ok t) where
  known_lem : (id : Str) → Visited id t → Known id t
  unfolding get
  known_lem id =
      let seen =
        configs_step (Visited id) (λ n entry. (entry.id ≡ id) × Unit {0})
          (λ t u s h. subst (λ m. Visits (λ _. Unit {0}) m id) s.ips h)
          (λ n internal t entry. Visited-add_entry n internal t entry id) unicode fs.read_to_string
          configs no_tables t loop in
      let known =
        configs_step (Known id) (λ n entry. entry.id ≡ id)
          (λ t u s h. subst (λ m. (ns : List Str) × (get m id ≡ some ns)) s.members h)
          (λ n internal t entry. Known-add_entry n internal t entry id) unicode fs.read_to_string
          configs no_tables t loop in
      λ v. elim (seen.0 v) [
        | inl (_, none_yet, _) ↦ absurd none_yet
        | inr (n, entry, d, (e, _)) ↦ known.1 (inr (n, entry, d, e))
      ]

  -- The last loop succeeds on these tables, in any order of the visit.
  pub build-ok :
      (order : Order)
      → VisitsAll order
      → (ctrs : HashMap IpAddr (List Str)) × (build_ctrs t.network_membership []
            (order t.container_ips)
          ≡ ok ctrs)
  build-ok order all =
      build_ctrs-ok t.network_membership (order t.container_ips) []
        (λ id ips m. known_lem id (ips, (all t.container_ips (id, ips)).0 m, tt))

  -- The facts about one container id.
  module _ (id : Str) where
    visits_lem :
        (ip : IpAddr)
        → Visits (Has ip) t.container_ips id ↔ (
            (entry : CtrEntry) × (net : Str) × Declares unicode fs.read_to_string configs net entry
            × (entry.id ≡ id)
            × Has ip (new_ctr_ips entry))
    visits_lem ip =
        let step =
          configs_step (λ t. Visits (Has ip) t.container_ips id)
            (λ n entry. (entry.id ≡ id) × Has ip (new_ctr_ips entry))
            (λ t u s h. subst (λ m. Visits (Has ip) m id) s.ips h)
            (λ n internal t entry. Visits-add_entry n internal t entry id ip) unicode
            fs.read_to_string configs no_tables t loop in
        (
          λ h. elim (step.0 h) [
            | inl (v, none_yet, _) ↦ absurd none_yet
            | inr (n, entry, d, (e, i)) ↦ (entry, n, d, e, i)
          ],
          λ (entry, n, d, e, i). step.1 (inr (n, entry, d, (e, i))),
        )

    member_lem :
        (net : Str)
        → Member id net t ↔ (
            (entry : CtrEntry) × Declares unicode fs.read_to_string configs net entry
            × (entry.id ≡ id))
    unfolding get
    member_lem net =
        network_step (Member id net) net (λ entry. entry.id ≡ id)
          (λ t u s h. subst (λ m. Has net (found (get m id))) s.members h)
          (λ n internal t entry. Member-add_entry n internal t entry id net) (λ x. x) unicode
          fs.read_to_string configs t loop

module _ (unicode : Str → Str) (order : Order) (domain : Str) (fs : FileSystem) (dir : Str)
    (r : Parsed) (configs : List (Result DirEntry IoError)) where
  -- An address that the backend has a list of networks for is in one of them.
  pub parse_configs-known :
      VisitsAll order
      → fs.read_dir dir ≡ ok configs
      → parse_configs unicode order domain fs dir ≡ ok r
      → (ip : IpAddr) (nets : List Str) → get r.backend.ip_mappings ip ≡ some nets
      → (net : Str) × Joined unicode fs configs ip net
  unfolding result_of new get
  parse_configs-known all listing h ip nets known =
      let run = parse_configs-Run unicode order domain fs dir configs r listing h in
      let t = run.tables in
      let ips : r.backend.ip_mappings ≡ run.ctrs =
        ap (λ (p : Parsed). p.backend.ip_mappings) run.result in
      elim (build_ctrs-Listed t.network_membership (order t.container_ips) [] run.ctrs ip run.built
        (nets, subst (λ m. get m ip ≡ some nets) ips known)) [
          | inl (_, none_yet) ↦ absurd (cc none_yet)
          | inr (id, is, m, i) ↦
              let (entry, net, d, e, j) =
                (visits_lem unicode fs configs t run.loop id ip).0
                  (is, (all t.container_ips (id, is)).0 m, i) in
              (net, (net, entry, d, j, entry, d, refl))
        ]

  -- When the directory is read without an error, whatever the order in which the map of containers
  -- is visited, the backend puts an address into a network exactly when files declare a container
  -- with the address, for any network, and the same container id for that network.
  pub parse_configs-networks :
      VisitsAll order
      → fs.read_dir dir ≡ ok configs
      → parse_configs unicode order domain fs dir ≡ ok r
      → (ip : IpAddr) (net : Str)
      → Has net (found (get r.backend.ip_mappings ip)) ↔ Joined unicode fs configs ip net
  unfolding result_of new get
  parse_configs-networks all listing h ip net =
      let run = parse_configs-Run unicode order domain fs dir configs r listing h in
      let t = run.tables in
      let ips : r.backend.ip_mappings ≡ run.ctrs =
        ap (λ (p : Parsed). p.backend.ip_mappings) run.result in
      let step =
        build_ctrs_step t.network_membership (order t.container_ips) [] run.ctrs ip net run.built in
      subst (λ m. Has net (found (get m ip)) ↔ Joined unicode fs configs ip net) (sym ips)
        (
          (λ x. elim (step.0 x) [
            | inl none_yet ↦ absurd none_yet
            | inr (id, is, m, i, n) ↦
                let (entry, other, d, e, j) =
                  (visits_lem unicode fs configs t run.loop id ip).0
                    (is, (all t.container_ips (id, is)).0 m, i) in
                let (joined, d', e') = (member_lem unicode fs configs t run.loop id net).0 n in
                (other, entry, d, j, joined, d', e' ∙ sym e)
          ]),
          (λ (other, entry, d, j, joined, d', e).
              let (is, m, i) =
                (visits_lem unicode fs configs t run.loop entry.id ip).1
                  (entry, other, d, refl, j) in
              let n = (member_lem unicode fs configs t run.loop entry.id net).1 (joined, d', e) in
              step.1 (inr (entry.id, is, (all t.container_ips (entry.id, is)).1 m, i, n))),
        )
