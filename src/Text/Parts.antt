-- ===== src/Text/Parts.antt =====
-- What the parts of `split`, and a text in lower case, have no char of.
use aardvark_dns.Prelude.{
  ℕ, ◌≡◌, ◌≢◌, ◌<◌, false, [], ◌∷◌, List, map, All, Bool-cases, inl, inr, nat_beq, nat_beq_iff,
  arith,
}
use aardvark_dns.Text.{Str}
use aardvark_dns.Text.Case.{ascii_lower, is_ascii, to_lowercase}
use aardvark_dns.Text.Split.{split, add_head}
use aardvark_dns.Text.Join.{Lacks}

add_head-Lacks :
    (k c : ℕ) (ps : List Str) → c ≢ k → All (Lacks k) ps → All (Lacks k) (add_head c ps)
add_head-Lacks k c [] differs h = ((differs, tt), tt)
add_head-Lacks k c (p ∷ ps) differs h = ((differs, h.0), h.1)

-- No part has the separator.
pub split-Lacks_sep : (sep : ℕ) (s : Str) → All (Lacks sep) (split sep s)
unfolding split
split-Lacks_sep sep [] = (tt, tt)
split-Lacks_sep sep (c ∷ s) = elim (Bool-cases (nat_beq c sep)) [
  | inl same ↦ rw same (tt, split-Lacks_sep sep s)
  | inr differs ↦
      let apart : c ≢ sep = λ e. cc ((nat_beq_iff c sep).1 e, differs) in
      rw differs (add_head-Lacks sep c (split sep s) apart (split-Lacks_sep sep s))
]

-- No part has a char that the text has not.
pub split-Lacks_same : (sep k : ℕ) (s : Str) → Lacks k s → All (Lacks k) (split sep s)
unfolding split
split-Lacks_same sep k [] h = (tt, tt)
split-Lacks_same sep k (c ∷ s) h = elim (Bool-cases (nat_beq c sep)) [
  | inl same ↦ rw same (tt, split-Lacks_same sep k s h.1)
  | inr differs ↦ rw differs (add_head-Lacks k c (split sep s) h.0 (split-Lacks_same sep k s h.1))
]

ascii_lower-Lacks : (k : ℕ) (s : Str) → k < b'A' → Lacks k s → Lacks k (map ascii_lower s)
ascii_lower-Lacks k [] low h = tt
ascii_lower-Lacks k (c ∷ s) low h = (ground arith, ascii_lower-Lacks k s low h.1)

-- Unicode's table makes no char that stands before the letters of ASCII.
abbrev pub KeepsLow : (Str → Str) → Type 0
KeepsLow unicode =
    (k : ℕ) (s : Str) → k < b'A' → is_ascii s ≡ false → Lacks k s → Lacks k (unicode s)

pub to_lowercase-Lacks :
    (unicode : Str → Str)
    → KeepsLow unicode
    → (k : ℕ) (s : Str) → k < b'A'
    → Lacks k s
    → Lacks k (to_lowercase unicode s)
unfolding to_lowercase
to_lowercase-Lacks unicode keeps k s low h = elim (Bool-cases (is_ascii s)) [
  | inl ascii ↦ rw ascii (ascii_lower-Lacks k s low h)
  | inr wide ↦ rw wide (keeps k s low wide h)
]
