-- ===== src/HashMap/Visits.antt =====
-- What a visit of all entries of a map meets, when one entry is changed.
use aardvark_dns.Prelude.{
  ◌≡◌, ◌↔◌, ◌⊎◌, inl, inr, refl, sym, subst, ap, ◌∙◌, [], ◌∷◌, some, Has, Bool-cases,
}
use aardvark_dns.Prelude.Classes.{Eq, ◌==◌, ==_iff, ==_ne}
use aardvark_dns.HashMap.{HashMap, get, entry_or, or_default}
use aardvark_dns.HashMap.Laws.{get-entry_or}

module _ {K V : Type 0} ⦃e : Eq K⦄ where
  -- An entry under the key has the property.
  abbrev pub Visits : (V → Type 0) → HashMap K V → K → Type 0
  Visits P m k = (v : V) × Has (k, v) m × P v

  -- `f` adds `Q` to what `P` says of a value; `Q` follows where the fresh value has `P` already.
  module _ (P : V → Type 0) (Q : Type 0) (d : V) (f : V → V) (step : (v : V) → P (f v) ↔ (P v ⊎ Q))
      (empty : P d → Q) (k j : K) where
    pub Visits-entry_or :
        (m : HashMap K V) → Visits P (entry_or d m k f) j ↔ (Visits P m j ⊎ ((k ≡ j) × Q))
    unfolding entry_or
    Visits-entry_or [] = (
      λ (v, m, p). elim m [
        | inl eq ↦
            let same_key : j ≡ k = ap (λ (x : K × V). x.0) eq in
            let same_value : v ≡ f d = ap (λ (x : K × V). x.1) eq in
            elim ((step d).0 (subst P same_value p)) [
              | inl none_yet ↦ inr (sym same_key, empty none_yet)
              | inr q ↦ inr (sym same_key, q)
            ]
        | inr x ↦ absurd x
      ],
      λ h. elim h [
        | inl (v, m, p) ↦ absurd m
        | inr (eq, q) ↦ (f d, inl (ap (λ (x : K). (x, f d)) (sym eq)), (step d).1 (inr q))
      ],
    )
    Visits-entry_or ((i, w) ∷ m) = elim (Bool-cases (i == k)) [
      | inl same ↦
          let i_k = (==_iff i k).0 same in
          rw same (
            λ (v, h, p). elim h [
              | inl eq ↦
                  let same_key : j ≡ i = ap (λ (x : K × V). x.0) eq in
                  let same_value : v ≡ f w = ap (λ (x : K × V). x.1) eq in
                  elim ((step w).0 (subst P same_value p)) [
                    | inl old ↦ inl (w, inl (ap (λ (x : K). (x, w)) same_key), old)
                    | inr q ↦ inr (sym (same_key ∙ i_k), q)
                  ]
              | inr later ↦ inl (v, inr later, p)
            ],
            λ h. elim h [
              | inl (v, inl eq, p) ↦
                  let same_key : j ≡ i = ap (λ (x : K × V). x.0) eq in
                  let same_value : v ≡ w = ap (λ (x : K × V). x.1) eq in
                  (
                    f w,
                    inl (ap (λ (x : K). (x, f w)) same_key),
                    (step w).1 (inl (subst P same_value p)),
                  )
              | inl (v, inr later, p) ↦ (v, inr later, p)
              | inr (eq, q) ↦
                  (f w, inl (ap (λ (x : K). (x, f w)) (sym (i_k ∙ eq))), (step w).1 (inr q))
            ],
          )
      | inr differs ↦
          let rest = Visits-entry_or m in
          rw differs (
            λ (v, h, p). elim h [
              | inl eq ↦ inl (v, inl eq, p)
              | inr later ↦ elim (rest.0 (v, later, p)) [
                | inl (u, o, q) ↦ inl (u, inr o, q)
                | inr n ↦ inr n
              ]
            ],
            λ h. elim h [
              | inl (v, inl eq, p) ↦ (v, inl eq, p)
              | inl (v, inr later, p) ↦ let (u, o, q) = rest.1 (inl (v, later, p)) in (u, inr o, q)
              | inr n ↦ let (u, o, q) = rest.1 (inr n) in (u, inr o, q)
            ],
          )
    ]

  -- A changed entry makes its key known, and no other.
  pub known-entry_or :
      (d : V) (m : HashMap K V) (k j : K) (f : V → V)
      → ((v : V) × (get (entry_or d m k f) j ≡ some v)) ↔ (((v : V) × (get m j ≡ some v)) ⊎ (k ≡ j))
  known-entry_or d m k j f = rw (get-entry_or d m k j f) (elim (Bool-cases (k == j)) [
    | inl same ↦ rw same (λ h. inr ((==_iff k j).0 same), λ h. (f (or_default d (get m k)), refl))
    | inr differs ↦
        rw differs (λ h. inl h, λ h. elim h [ inl old ↦ old | inr eq ↦ absurd (==_ne differs eq) ])
  ])
