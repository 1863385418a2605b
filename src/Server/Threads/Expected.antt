-- ===== src/Server/Threads/Expected.antt =====
-- The set of tasks that `stop_and_start_threads` expects.
use aardvark_dns.Prelude.{◌≡◌, ◌↔◌, ◌⊎◌, inl, inr, ap, subst, List, [], ◌∷◌, Has}
use aardvark_dns.Prelude.Classes.{Eq, pair_eq}
use aardvark_dns.Text.{Str, str_eq}
use aardvark_dns.HashMap.{HashMap}
use aardvark_dns.HashSet
use aardvark_dns.HashSet.{HashSet, Has-insert}
use aardvark_dns.Server.Threads.{expect_all, expected_threads}

-- The network has the listen address.
abbrev pub Listens : {Ip : Type 0} → HashMap Str (List Ip) → Str × Ip → Type 0
Listens {Ip} listen_ips key = (ips : List Ip) × Has (key.0, ips) listen_ips × Has key.1 ips

module _ {Ip : Type 0} ⦃e : Eq Ip⦄ where
  expect_all_iff :
      (network : Str) (key : Str × Ip) (ips : List Ip) (set : HashSet (Str × Ip))
      → Has key (expect_all set network ips) ↔ (Has key set ⊎ ((key.0 ≡ network) × Has key.1 ips))
  unfolding expect_all
  expect_all_iff network key [] set =
      (λ h. inl h, λ h. elim h [ inl m ↦ m | inr (_, x) ↦ absurd x ])
  expect_all_iff network key (ip ∷ ips) set =
      let now = Has-insert set (network, ip) key in
      let later = expect_all_iff network key ips (HashSet.insert set (network, ip)) in
      (
        λ h. elim (later.0 h) [
          | inl m ↦ elim (now.0 m) [
            | inl old ↦ inl old
            | inr eq ↦ inr (ap (λ (k : Str × Ip). k.0) eq, inl (ap (λ (k : Str × Ip). k.1) eq))
          ]
          | inr (n, m) ↦ inr (n, inr m)
        ],
        λ h. elim h [
          | inl old ↦ later.1 (inl (now.1 (inl old)))
          | inr (n, inl eq) ↦ later.1 (inl (now.1 (inr (λ i. (n i, eq i)))))
          | inr (n, inr m) ↦ later.1 (inr (n, m))
        ],
      )

  expected_from :
      (key : Str × Ip) (listen_ips : HashMap Str (List Ip)) (set : HashSet (Str × Ip))
      → Has key (expected_threads set listen_ips) ↔ (Has key set ⊎ Listens listen_ips key)
  unfolding expected_threads
  expected_from key [] set = (λ h. inl h, λ h. elim h [ inl m ↦ m | inr (_, x, _) ↦ absurd x ])
  expected_from key ((network, ips) ∷ more) set =
      let now = expect_all_iff network key ips set in
      let later = expected_from key more (expect_all set network ips) in
      (
        λ h. elim (later.0 h) [
          | inl m ↦ elim (now.0 m) [
            | inl old ↦ inl old
            | inr (n, i) ↦ inr (ips, inl (λ j. (n j, ips)), i)
          ]
          | inr (is, m, i) ↦ inr (is, inr m, i)
        ],
        λ h. elim h [
          | inl old ↦ later.1 (inl (now.1 (inl old)))
          | inr (is, inl eq, i) ↦ later.1 (
              inl (
                now.1 (
                  inr (
                    ap (λ (p : Str × List Ip). p.0) eq,
                    subst (Has key.1) (ap (λ (p : Str × List Ip). p.1) eq) i,
                  ))))
          | inr (is, inr m, i) ↦ later.1 (inr (is, m, i))
        ],
      )

  -- The expected tasks are the listen addresses of the networks.
  pub expected_threads_iff :
      (listen_ips : HashMap Str (List Ip)) (key : Str × Ip)
      → Has key (expected_threads [] listen_ips) ↔ Listens listen_ips key
  expected_threads_iff listen_ips key =
      let step = expected_from key listen_ips [] in
      (λ h. elim (step.0 h) [ inl none_yet ↦ absurd none_yet | inr l ↦ l ], λ l. step.1 (inr l))
