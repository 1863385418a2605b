-- ===== src/Result.antt =====
-- `std::result::Result`, and its `?` as the bind of a `do` block.
use aardvark_dns.Prelude.{◌≡◌, refl, ap, ◌⊎◌, inl, inr}

pub data Result {ℓ} (A E : Type ℓ) : Type ℓ where
  ok : A → Result A E
  err : E → Result A E

module _ {ℓ} {A B E : Type ℓ} where
  infixl 5 ◌>>=◌
  abbrev pub ◌>>=◌ : Result A E → (A → Result B E) → Result B E
  r >>= next = elim r [ err why ↦ err why | ok value ↦ next value ]

  -- A chain that succeeds has a first step that succeeds.
  pub >>=-eq-ok :
      (r : Result A E) (next : A → Result B E) {result : B}
      → (r >>= next) ≡ ok result
      → (value : A) × (r ≡ ok value) × (next value ≡ ok result)
  >>=-eq-ok (err why) next done = cc
  >>=-eq-ok (ok value) next done = (value, refl, done)

module _ {ℓ} {A E F : Type ℓ} where
  -- `r.map_err(f)`
  abbrev pub map_err : (E → F) → Result A E → Result A F
  map_err f (ok a) = ok a
  map_err f (err e) = err (f e)

pub Result-cases {ℓ} :
    {A E : Type ℓ} (r : Result A E) → ((a : A) × (r ≡ ok a)) ⊎ ((e : E) × (r ≡ err e))
Result-cases (ok a) = inl (a, refl)
Result-cases (err e) = inr (e, refl)

abbrev pub ok_or {ℓ} : {A E : Type ℓ} → A → Result A E → A
ok_or d (ok a) = a
ok_or d (err e) = d

pub ok-injective {ℓ} : {A E : Type ℓ} {a b : A} → ◌≡◌ {A = Result A E} (ok a) (ok b) → a ≡ b
ok-injective {a} h = ap (ok_or a) h

pub err-injective {ℓ} : {A E : Type ℓ} {a b : E} → ◌≡◌ {A = Result A E} (err a) (err b) → a ≡ b
err-injective {a} h = ap (λ r. elim r [ ok _ ↦ a | err e ↦ e ]) h
