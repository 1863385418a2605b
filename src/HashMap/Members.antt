-- ===== src/HashMap/Members.antt =====
-- A property of the value under a key, when one entry is changed.
use aardvark_dns.Prelude.{
  some, ◌≡◌, ◌↔◌, ◌⊎◌, inl, inr, refl, ◌++◌, Bool-cases, Has, List, Has-append_left,
  Has-append_right, Has-append_split, if◌then◌else◌, subst, sym, some-injective,
}
use aardvark_dns.Prelude.Classes.{Eq, ◌==◌, ==_iff, ==_ne}
use aardvark_dns.HashMap.{HashMap, get, insert, entry_or, or_default}
use aardvark_dns.HashMap.Laws.{get-entry_or, get-insert}

module _ {K V : Type 0} ⦃e : Eq K⦄ (d : V) (m : HashMap K V) (k j : K) (f : V → V) where
  or_default-entry_or :
      or_default d (get (entry_or d m k f) j)
      ≡ (if k == j then f (or_default d (get m k)) else or_default d (get m j))
  or_default-entry_or = elim (Bool-cases (k == j)) [
    | inl same ↦ rw (get-entry_or d m k j f, same) refl
    | inr differs ↦ rw (get-entry_or d m k j f, differs) refl
  ]

  -- If `f` adds `Q` to what `P` says of a value, then a changed entry adds `Q` under its key.
  pub entry_or_step :
      (P : V → Type 0) (Q : Type 0)
      → ((v : V) → P (f v) ↔ (P v ⊎ Q))
      → P (or_default d (get (entry_or d m k f) j)) ↔ (P (or_default d (get m j)) ⊎ ((k ≡ j) × Q))
  entry_or_step P Q step = rw or_default-entry_or (elim (Bool-cases (k == j)) [
    | inl same ↦
        let eq = (==_iff k j).0 same in
        let at_k = step (or_default d (get m k)) in
        let move = λ (i : K). P (or_default d (get m i)) in
        rw same (
          λ h. elim (at_k.0 h) [ inl old ↦ inl (subst move eq old) | inr q ↦ inr (eq, q) ],
          λ h. elim h [
            | inl old ↦ at_k.1 (inl (subst move (sym eq) old))
            | inr (_, q) ↦ at_k.1 (inr q)
          ],
        )
    | inr differs ↦
        rw differs
          (λ h. inl h, λ h. elim h [ inl old ↦ old | inr (eq, q) ↦ absurd (==_ne differs eq) ])
  ])

-- Appending to a list adds the new items.
pub append_step :
    {A : Type 0} (a : A) (xs old : List A) → Has a (old ++ xs) ↔ (Has a old ⊎ Has a xs)
append_step a xs old = (
  λ h. Has-append_split a old xs h,
  λ h. elim h [ inl l ↦ Has-append_left a old xs l | inr r ↦ Has-append_right a old xs r ],
)

-- What a map holds after an insertion it held before, or was inserted.
pub insert_back :
    {K V : Type 0} ⦃e : Eq K⦄ (m : HashMap K V) (k j : K) (v w : V)
    → get (insert m k v) j ≡ some w
    → (get m j ≡ some w) ⊎ ((k ≡ j) × (v ≡ w))
insert_back m k j v w h = elim (Bool-cases (k == j)) [
  | inl same ↦ inr ((==_iff k j).0 same, some-injective _ _ (rw (get-insert m k j v, same) at h))
  | inr differs ↦ inl (rw (get-insert m k j v, differs) at h)
]
