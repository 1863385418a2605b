-- ===== src/Backend/Key.antt =====
-- The key that a lookup searches for: `to_lowercase` and the two `truncate` of `lookup`.
use mathlib.Core.List.{map-append}
use aardvark_dns.Prelude.{
  ◌≡◌, ◌≢◌, refl, ◌∙◌, inl, inr, true, false, [], ◌∷◌, ◌++◌, arith, map, Bool-cases,
}
use aardvark_dns.Text.{Str, ends_with}
use aardvark_dns.Text.Case.{ascii_lower, is_ascii, to_lowercase}
use aardvark_dns.Text.Suffix.{take-append_suffix, ends_with-append, ends_with_split}
use aardvark_dns.Text.Lower.{HasNoDot, ascii_lower-HasNoDot, to_lowercase_ascii, is_ascii-append}
use aardvark_dns.Backend.{trim_end, lookup_key}

pub trim_end-append : (p suffix : Str) → trim_end (p ++ suffix) suffix ≡ p
unfolding trim_end
trim_end-append p suffix = rw (ends_with-append p suffix) (take-append_suffix p suffix)

trim_end_miss : (s suffix : Str) → ends_with s suffix ≡ false → trim_end s suffix ≡ s
unfolding trim_end
trim_end_miss s suffix h = rw h refl

no_dot_inside : (s p rest : Str) → HasNoDot s → s ≢ p ++ b'.' ∷ rest
no_dot_inside [] [] rest h e = cc
no_dot_inside [] (c ∷ p) rest h e = cc
no_dot_inside (c ∷ s) [] rest h e = ground arith
no_dot_inside (c ∷ s) (d ∷ p) rest h e = ground (arith, no_dot_inside s p rest h.1)

trim_end-HasNoDot : (s rest : Str) → HasNoDot s → trim_end s (b'.' ∷ rest) ≡ s
trim_end-HasNoDot s rest h = elim (Bool-cases (ends_with s (b'.' ∷ rest))) [
  | inl ends ↦
      let (p, e) = ends_with_split s (b'.' ∷ rest) ends in absurd (no_dot_inside s p rest h e)
  | inr misses ↦ trim_end_miss s (b'.' ∷ rest) misses
]

-- A text that has its only dot at its end.
one_dot : (s p rest : Str) → HasNoDot s → s ++ b'.' ∷ [] ≡ p ++ b'.' ∷ rest → rest ≡ []
one_dot [] [] rest h e = cc
one_dot [] (c ∷ []) rest h e = cc
one_dot [] (c ∷ d ∷ p) rest h e = cc
one_dot (c ∷ s) [] rest h e = ground arith
one_dot (c ∷ s) (d ∷ p) rest h e = one_dot s p rest h.1 (cc)

trim_dot :
    (s rest : Str) → HasNoDot s → trim_end (trim_end (s ++ b'.' ∷ []) (b'.' ∷ rest)) (b'.' ∷ []) ≡ s
trim_dot s rest h = elim (Bool-cases (ends_with (s ++ b'.' ∷ []) (b'.' ∷ rest))) [
  | inl ends ↦
      let (p, e) = ends_with_split (s ++ b'.' ∷ []) (b'.' ∷ rest) ends in
      rw (one_dot s p rest h e, trim_end-append s (b'.' ∷ [])) (trim_end-HasNoDot s [] h)
  | inr misses ↦
      rw (trim_end_miss (s ++ b'.' ∷ []) (b'.' ∷ rest) misses) (trim_end-append s (b'.' ∷ []))
]

lower_append :
    (unicode : Str → Str) (s t : Str)
    → is_ascii (s ++ t) ≡ true
    → to_lowercase unicode (s ++ t) ≡ map ascii_lower s ++ map ascii_lower t
lower_append unicode s t h = to_lowercase_ascii unicode (s ++ t) h ∙ map-append ascii_lower s t

module _ (unicode : Str → Str) (label rest : Str) where
  -- With a search domain that begins with a dot and is lower-case ASCII, the three forms of an
  -- ASCII name without a dot have one key, the name in lower case: the bare name, the name with
  -- a dot behind it, and the name with the search domain behind it.
  pub lookup_key-forms :
      is_ascii label ≡ true
      → HasNoDot label
      → is_ascii rest ≡ true
      → map ascii_lower rest ≡ rest
      → (lookup_key unicode (b'.' ∷ rest) label ≡ map ascii_lower label)
        × (lookup_key unicode (b'.' ∷ rest) (label ++ b'.' ∷ []) ≡ map ascii_lower label)
        × (lookup_key unicode (b'.' ∷ rest) (label ++ b'.' ∷ rest) ≡ map ascii_lower label)
  unfolding lookup_key is_ascii
  lookup_key-forms ascii no_dot ascii_rest lower_rest =
      let key = map ascii_lower label in
      let key_no_dot = ascii_lower-HasNoDot label no_dot in
      (
        rw (to_lowercase_ascii unicode label ascii, trim_end-HasNoDot key rest key_no_dot)
            (trim_end-HasNoDot key [] key_no_dot),
        rw (lower_append unicode label (b'.' ∷ []) (is_ascii-append label (b'.' ∷ []) ascii refl))
            (trim_dot key rest key_no_dot),
        rw
            (
              lower_append unicode label (b'.' ∷ rest)
                  (is_ascii-append label (b'.' ∷ rest) ascii ascii_rest),
              lower_rest,
              trim_end-append key (b'.' ∷ rest),
            )
            (trim_end-HasNoDot key [] key_no_dot),
      )
