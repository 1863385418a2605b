-- ===== src/HashMap/Keys.antt =====
-- The keys of a map, and that no key stands twice.
use aardvark_dns.Prelude.{◌≡◌, ◌↔◌, ◌⊎◌, inl, inr, refl, sym, subst, [], ◌∷◌, some, Has, Bool-cases}
use aardvark_dns.Prelude.Classes.{Eq, ◌==◌, ==_iff, ==_ne}
use aardvark_dns.HashMap.{HashMap, get, insert, remove, keys}
use aardvark_dns.HashSet.{Distinct}

in_tail : {A B C : Type 0} → A ⊎ B → (B → C) → A ⊎ C
in_tail (inl a) f = inl a
in_tail (inr b) f = inr (f b)

module _ {K V : Type 0} ⦃e : Eq K⦄ where
  -- The keys of a map are those that it has a value for.
  pub Has-keys : (m : HashMap K V) (k : K) → Has k (keys m) ↔ ((v : V) × (get m k ≡ some v))
  unfolding get
  Has-keys [] k = (λ h. absurd h, λ (v, h). cc)
  Has-keys ((i, w) ∷ m) k = elim (Bool-cases (i == k)) [
    | inl same ↦ rw same (λ h. (w, refl), λ h. inl (sym ((==_iff i k).0 same)))
    | inr differs ↦ rw differs (
      λ h. elim h [ inl eq ↦ absurd (==_ne differs (sym eq)) | inr l ↦ (Has-keys m k).0 l ],
      λ h. inr ((Has-keys m k).1 h),
    )
  ]

  pub Has-keys-remove : (m : HashMap K V) (k j : K) → Has j (keys (remove m k)) → Has j (keys m)
  unfolding remove
  Has-keys-remove [] k j h = h
  Has-keys-remove ((i, w) ∷ m) k j h = elim (Bool-cases (i == k)) [
    | inl same ↦ inr (Has-keys-remove m k j (rw same at h))
    | inr differs ↦ in_tail (rw differs at h) (λ l. Has-keys-remove m k j l)
  ]

  Has-keys-insert :
      (m : HashMap K V) (k j : K) (v : V) → Has j (keys (insert m k v)) → Has j (keys m) ⊎ (k ≡ j)
  unfolding insert
  Has-keys-insert [] k j v h = elim h [ inl eq ↦ inr (sym eq) | inr x ↦ absurd x ]
  Has-keys-insert ((i, w) ∷ m) k j v h = elim (Bool-cases (i == k)) [
    | inl same ↦ step_same (rw same at h)
    | inr differs ↦ either (rw differs at h) (λ l. Has-keys-insert m k j v l)
  ]
    where
      step_same : (j ≡ k) ⊎ Has j (keys m) → ((j ≡ i) ⊎ Has j (keys m)) ⊎ (k ≡ j)
      step_same (inl eq) = inr (sym eq)
      step_same (inr l) = inl (inr l)

      either :
          (j ≡ i) ⊎ Has j (keys (insert m k v))
          → (Has j (keys (insert m k v)) → Has j (keys m) ⊎ (k ≡ j))
          → ((j ≡ i) ⊎ Has j (keys m)) ⊎ (k ≡ j)
      either (inl eq) ih = inl (inl eq)
      either (inr l) ih = elim (ih l) [ inl o ↦ inl (inr o) | inr eq ↦ inr eq ]

  pub Distinct-remove : (m : HashMap K V) (k : K) → Distinct (keys m) → Distinct (keys (remove m k))
  unfolding remove
  Distinct-remove [] k d = tt
  Distinct-remove ((i, w) ∷ m) k (new, d) = elim (Bool-cases (i == k)) [
    | inl same ↦ rw same (Distinct-remove m k d)
    | inr differs ↦ rw differs ((λ h. new (Has-keys-remove m k i h)), Distinct-remove m k d)
  ]

  pub Distinct-insert :
      (m : HashMap K V) (k : K) (v : V) → Distinct (keys m) → Distinct (keys (insert m k v))
  unfolding insert
  Distinct-insert [] k v d = ((λ h. h), tt)
  Distinct-insert ((i, w) ∷ m) k v (new, d) = elim (Bool-cases (i == k)) [
    | inl same ↦
        rw same
          (subst (λ j. (Has j (keys m) → ⊥) × Distinct (keys m)) ((==_iff i k).0 same) (new, d))
    | inr differs ↦ rw differs (
      (λ h. elim (Has-keys-insert m k i v h) [
        | inl old ↦ new old
        | inr eq ↦ ==_ne differs (sym eq)
      ]),
      Distinct-insert m k v d,
    )
  ]
