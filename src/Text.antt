-- ===== src/Text.antt =====
-- The string operations of Rust's standard library that the sources call. A `String` or a `&str`
-- is the list of its chars. Lengths and offsets are only compared and cut at char boundaries in
-- the sources, so counting chars in place of UTF-8 bytes changes nothing there.
pub mod Split
pub mod Case
pub mod Suffix
pub mod Lower
pub mod Join
pub mod Parts
use Prim.Native.Char.{code}
use aardvark_dns.Prelude.{
  ℕ, suc, ◌+◌, ◌-◌, String, Bool, true, false, ◌&&◌, ◌||◌, List, [], ◌∷◌, ◌++◌, reverse, Option,
  none, some, if◌then◌else◌, leb, nat_beq, length, take,
}
use aardvark_dns.Prelude.Classes.{Eq, list_eq, nat_eq, ◌==◌}

abbrev pub Str : Type 0
Str = List ℕ

-- A literal.
abbrev pub codes : String → Str
codes String.[] = []
codes (String.◌∷◌ c s) = code c ∷ codes s

instance abbrev pub str_eq : Eq Str
str_eq = list_eq

-- `strip_prefix` on lists; the rest after the prefix.
unfoldable pub strip_prefix : Str → Str → Option Str
strip_prefix [] s = some s
strip_prefix (p ∷ ps) [] = none
strip_prefix (p ∷ ps) (c ∷ s) = if nat_beq p c then strip_prefix ps s else none

-- `strip_suffix(suffix)`: `s.strip_suffix(suffix)`.
unfoldable pub strip_suffix : Str → Str → Option Str
strip_suffix [] suffix = if suffix == [] then some [] else none
strip_suffix (c ∷ s) suffix =
    let rest = strip_suffix s suffix in
    if (c ∷ s) == suffix then some [] else elim rest [ none ↦ none | some r ↦ some (c ∷ r) ]

-- `s.ends_with(suffix)`.
unfoldable pub ends_with : Str → Str → Bool
ends_with [] suffix = suffix == []
ends_with (c ∷ s) suffix = ((c ∷ s) == suffix) || ends_with s suffix

-- `s.truncate(n)`.
abbrev pub truncate : Str → ℕ → Str
truncate s n = take n s
