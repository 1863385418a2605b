-- ===== src/HashSet.antt =====
-- `std::collections::HashSet`, a list in order of insertion, and the filters over sets and keys.
use aardvark_dns.Prelude.{
  ◌≡◌, ◌↔◌, ◌⊎◌, inl, inr, refl, sym, Bool, true, false, List, [], ◌∷◌, ◌++◌, Has, Bool-cases,
  if◌then◌else◌, Has-append_left, Has-append_right, Has-append_split, subst,
}
use aardvark_dns.Prelude.Classes.{Eq, ◌==◌, ==_iff, ==_ne}

abbrev pub HashSet : Type 0 → Type 0
HashSet A = List A

module _ {A : Type 0} ⦃e : Eq A⦄ where
  -- `s.contains(&a)`
  unfoldable pub contains : HashSet A → A → Bool
  contains [] a = false
  contains (x ∷ xs) a = if x == a then true else contains xs a

  -- `s.insert(a)`
  unfoldable pub insert : HashSet A → A → HashSet A
  insert xs a = if contains xs a then xs else xs ++ a ∷ []

  pub contains_iff : (xs : List A) (a : A) → (contains xs a ≡ true) ↔ Has a xs
  unfolding contains
  contains_iff [] a = (λ h. cc, λ h. absurd h)
  contains_iff (x ∷ xs) a = elim (Bool-cases (x == a)) [
    | inl same ↦ rw same (λ h. inl (sym ((==_iff x a).0 same)), λ h. refl)
    | inr differs ↦ rw differs (
      λ h. inr ((contains_iff xs a).0 h),
      λ h. elim h [ inl eq ↦ absurd (==_ne differs (sym eq)) | inr m ↦ (contains_iff xs a).1 m ],
    )
  ]

  pub Has-insert : (xs : HashSet A) (a b : A) → Has b (insert xs a) ↔ (Has b xs ⊎ (b ≡ a))
  unfolding insert
  Has-insert xs a b = elim (Bool-cases (contains xs a)) [
    | inl old ↦ rw old (
      λ h. inl h,
      λ h. elim h [
        | inl m ↦ m
        | inr eq ↦ subst (λ k. Has k xs) (sym eq) ((contains_iff xs a).0 old)
      ],
    )
    | inr new ↦ rw new (
      λ h. elim (Has-append_split b xs (a ∷ []) h) [
        | inl m ↦ inl m
        | inr (inl eq) ↦ inr eq
        | inr (inr x) ↦ absurd x
      ],
      λ h. elim h [
        | inl m ↦ Has-append_left b xs (a ∷ []) m
        | inr eq ↦ Has-append_right b xs (a ∷ []) (inl eq)
      ],
    )
  ]

module _ {A : Type 0} where
  -- `iter.filter(test).collect()`
  unfoldable pub filter : (A → Bool) → List A → List A
  filter test [] = []
  filter test (x ∷ xs) = if test x then x ∷ filter test xs else filter test xs

  pub Has-filter :
      (test : A → Bool) (xs : List A) (a : A)
      → Has a (filter test xs) ↔ (Has a xs × (test a ≡ true))
  unfolding filter
  Has-filter test [] a = (λ h. absurd h, λ h. h.0)
  Has-filter test (x ∷ xs) a = elim (Bool-cases (test x)) [
    | inl keep ↦ rw keep (
      λ h. elim h [
        | inl eq ↦ (inl eq, subst (λ k. test k ≡ true) (sym eq) keep)
        | inr m ↦ (inr ((Has-filter test xs a).0 m).0, ((Has-filter test xs a).0 m).1)
      ],
      λ (m, t). elim m [ inl eq ↦ inl eq | inr n ↦ inr ((Has-filter test xs a).1 (n, t)) ],
    )
    | inr drop ↦ rw drop (
      λ m. (inr ((Has-filter test xs a).0 m).0, ((Has-filter test xs a).0 m).1),
      λ (m, t). elim m [
        | inl eq ↦ absurd (clash a x eq t drop)
        | inr n ↦ (Has-filter test xs a).1 (n, t)
      ],
    )
  ]
    where
      clash : (a x : A) → a ≡ x → test a ≡ true → test x ≡ false → ⊥
      clash a x eq t drop = cc

  -- No item stands twice.
  abbrev pub Distinct : List A → Type 0
  Distinct [] = Unit
  Distinct (x ∷ xs) = (Has x xs → ⊥) × Distinct xs

  pub Distinct-filter : (test : A → Bool) (xs : List A) → Distinct xs → Distinct (filter test xs)
  unfolding filter
  Distinct-filter test [] d = tt
  Distinct-filter test (x ∷ xs) (new, d) = elim (Bool-cases (test x)) [
    | inl keep ↦ rw keep ((λ m. new ((Has-filter test xs x).0 m).0), Distinct-filter test xs d)
    | inr drop ↦ rw drop (Distinct-filter test xs d)
  ]
