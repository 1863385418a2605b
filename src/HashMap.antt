-- ===== src/HashMap.antt =====
-- `std::collections::HashMap`, an association list in order of insertion. The order in which Rust
-- visits a map is not specified: the code that iterates takes the visiting order as an argument.
pub mod Laws
pub mod Keys
pub mod Members
pub mod Visits
use aardvark_dns.Prelude.{Bool, true, false, List, [], ◌∷◌, map, Option, none, some, if◌then◌else◌}
use aardvark_dns.Prelude.Classes.{Eq, ◌==◌}

abbrev pub HashMap : Type 0 → Type 0 → Type 0
HashMap K V = List (K × V)

module _ {K V : Type 0} ⦃e : Eq K⦄ where
  -- `m.get(&k)`
  unfoldable pub get : HashMap K V → K → Option V
  get [] k = none
  get ((j, v) ∷ m) k = if j == k then some v else get m k

  -- `m.insert(k, v)`
  unfoldable pub insert : HashMap K V → K → V → HashMap K V
  insert [] k v = (k, v) ∷ []
  insert ((j, w) ∷ m) k v = if j == k then (k, v) ∷ m else (j, w) ∷ insert m k v

  -- `f(m.entry(k).or_insert(default))`, with the entry changed to what `f` leaves there
  unfoldable pub entry_or : V → HashMap K V → K → (V → V) → HashMap K V
  entry_or default [] k f = (k, f default) ∷ []
  entry_or default ((j, v) ∷ m) k f =
      if j == k then (j, f v) ∷ m else (j, v) ∷ entry_or default m k f

  -- `m.remove(&k)`, of every entry with the key; a map holds one at most
  unfoldable pub remove : HashMap K V → K → HashMap K V
  remove [] k = []
  remove ((j, v) ∷ m) k = if j == k then remove m k else (j, v) ∷ remove m k

  -- `m.contains_key(&k)`
  abbrev pub contains_key : HashMap K V → K → Bool
  contains_key m k = elim (get m k) [ none ↦ false | some v ↦ true ]

abbrev pub keys : {K V : Type 0} → HashMap K V → List K
keys = map (λ e. e.0)

-- `m.get(&k).cloned().unwrap_or_default()`, the value that `entry(k).or_default()` starts from.
abbrev pub or_default : {V : Type 0} → V → Option V → V
or_default d none = d
or_default d (some v) = v

-- The items of a list that may be absent.
abbrev pub found : {A : Type 0} → Option (List A) → List A
found = or_default []
