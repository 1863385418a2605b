-- ===== src/HashMap/Laws.antt =====
-- Each operation of a map through `get`, in one equation.
use aardvark_dns.Prelude.{◌≡◌, refl, [], ◌∷◌, some, none, if◌then◌else◌, arith}
use aardvark_dns.Prelude.Classes.{Eq, ◌==◌}
use aardvark_dns.HashMap.{HashMap, get, insert, entry_or, remove, or_default}

module _ {K V : Type 0} ⦃e : Eq K⦄ where
  pub get-insert :
      (m : HashMap K V) (k j : K) (v : V)
      → get (insert m k v) j ≡ (if k == j then some v else get m j)
  unfolding get insert
  get-insert [] k j v = refl
  get-insert ((i, w) ∷ m) k j v =
      ground (arith, e.equal_iff k j, e.equal_iff i k, e.equal_iff i j, get-insert m k j v)

  pub get-entry_or :
      (d : V) (m : HashMap K V) (k j : K) (f : V → V)
      → get (entry_or d m k f) j ≡ (if k == j then some (f (or_default d (get m k))) else get m j)
  unfolding get entry_or
  get-entry_or d [] k j f = refl
  get-entry_or d ((i, w) ∷ m) k j f =
      ground (arith, e.equal_iff k j, e.equal_iff i k, e.equal_iff i j, get-entry_or d m k j f)

  pub get-remove :
      (m : HashMap K V) (k j : K) → get (remove m k) j ≡ (if k == j then none else get m j)
  unfolding get remove
  get-remove [] k j = ground arith
  get-remove ((i, w) ∷ m) k j =
      ground (arith, e.equal_iff k j, e.equal_iff i k, e.equal_iff i j, get-remove m k j)
