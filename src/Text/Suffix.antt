-- ===== src/Text/Suffix.antt =====
-- `ends_with` and `strip_suffix` against concatenation.
use aardvark_dns.Prelude.{
  ℕ, ◌-◌, ◌≡◌, ◌≢◌, ◌∙◌, some, Option-cases, refl, sym, ap, inl, inr, true, false, [], ◌∷◌, ◌++◌,
  arith, Bool-cases, length, length-append, take, some-injective, none-ne-some,
}
use aardvark_dns.Prelude.Classes.{◌==◌, ==_iff, ==_refl}
use aardvark_dns.Text.{Str, str_eq, ends_with, strip_suffix}

take-append : (p s : Str) → take (length p) (p ++ s) ≡ p
take-append [] s = refl
take-append (c ∷ p) s = ap (λ (t : Str). c ∷ t) (take-append p s)

pub take-append_suffix : (p s : Str) → take (length (p ++ s) - length s) (p ++ s) ≡ p
take-append_suffix p s =
    let e : length (p ++ s) - length s ≡ length p = omega (arith, length-append p s) in
    rw e (take-append p s)

pub ends_with-append : (p s : Str) → ends_with (p ++ s) s ≡ true
unfolding ends_with
ends_with-append [] [] = refl
ends_with-append [] (c ∷ s) = rw (==_refl (c ∷ s)) refl
ends_with-append (c ∷ p) s = ground (arith, ends_with-append p s)

pub ends_with_split : (s suffix : Str) → ends_with s suffix ≡ true → (p : Str) × (s ≡ p ++ suffix)
unfolding ends_with
ends_with_split [] suffix h = ([], sym ((==_iff suffix []).0 h))
ends_with_split (c ∷ s) suffix h = elim (Bool-cases ((c ∷ s) == suffix)) [
  | inl same ↦ ([], (==_iff (c ∷ s) suffix).0 same)
  | inr differs ↦
      let (p, e) = ends_with_split s suffix (rw differs at h) in (c ∷ p, ap (λ (t : Str). c ∷ t) e)
]

longer : (c : ℕ) (p s : Str) → c ∷ (p ++ s) ≢ s
longer c p s e = omega (arith, length-append p s, ap (λ (t : Str). length t) e)

-- A suffix that was appended is stripped.
pub strip_suffix-append : (p s : Str) → strip_suffix (p ++ s) s ≡ some p
unfolding strip_suffix
strip_suffix-append [] [] = refl
strip_suffix-append [] (c ∷ s) = rw (==_refl (c ∷ s)) refl
strip_suffix-append (c ∷ p) s = elim (Bool-cases ((c ∷ (p ++ s)) == s)) [
  | inl same ↦ absurd (longer c p s ((==_iff (c ∷ (p ++ s)) s).0 same))
  | inr differs ↦ rw (differs, strip_suffix-append p s) refl
]

-- What is left of a text is what stands in front of the suffix.
pub strip_suffix_split : (s suffix r : Str) → strip_suffix s suffix ≡ some r → s ≡ r ++ suffix
unfolding strip_suffix
strip_suffix_split [] suffix r h = elim (Bool-cases ([] == suffix)) [
  | inl same ↦
      (==_iff [] suffix).0 same
      ∙ ap (λ (t : Str). t ++ suffix)
          (some-injective _ _ (rw (swapped suffix same, strip_suffix) at h))
  | inr differs ↦ absurd (none-ne-some _ (rw (differently suffix differs, strip_suffix) at h))
]
  where
    swapped : (t : Str) → ([] == t) ≡ true → (t == []) ≡ true
    swapped t same = (==_iff t []).1 (sym ((==_iff [] t).0 same))

    differently : (t : Str) → ([] == t) ≡ false → (t == []) ≡ false
    differently [] differs = differs
    differently (c ∷ t) differs = refl
strip_suffix_split (c ∷ s) suffix r h = elim (Bool-cases ((c ∷ s) == suffix)) [
  | inl same ↦
      (==_iff (c ∷ s) suffix).0 same
      ∙ ap (λ (t : Str). t ++ suffix) (some-injective _ _ (rw (same, strip_suffix) at h))
  | inr differs ↦ elim (Option-cases (strip_suffix s suffix)) [
    | inl lost ↦ absurd (none-ne-some _ (rw (differs, lost, strip_suffix) at h))
    | inr (rest, left) ↦
        ap (λ (t : Str). c ∷ t) (strip_suffix_split s suffix rest left)
        ∙ ap (λ (t : Str). t ++ suffix) (some-injective _ _ (rw (differs, left, strip_suffix) at h))
  ]
]
