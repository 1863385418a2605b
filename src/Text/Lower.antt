-- ===== src/Text/Lower.antt =====
-- `to_lowercase` on ASCII text.
use aardvark_dns.Prelude.{
  ℕ, ◌-◌, ◌≡◌, ◌≢◌, refl, true, [], ◌∷◌, ◌++◌, arith, map, ◌&&◌, leb, if◌then◌else◌, All,
}
use aardvark_dns.Text.{Str}
use aardvark_dns.Text.Case.{ascii_lower, is_ascii, to_lowercase}

-- `to_ascii_uppercase` of one char.
abbrev pub ascii_upper : ℕ → ℕ
ascii_upper c = if leb b'a' c && leb c b'z' then c - 32 else c

pub is_ascii-append : (s t : Str) → is_ascii s ≡ true → is_ascii t ≡ true → is_ascii (s ++ t) ≡ true
unfolding is_ascii
is_ascii-append [] t hs ht = ht
is_ascii-append (c ∷ s) t hs ht = ground (arith, is_ascii-append s t)

pub to_lowercase_ascii :
    (unicode : Str → Str) (s : Str) → is_ascii s ≡ true → to_lowercase unicode s ≡ map ascii_lower s
unfolding to_lowercase
to_lowercase_ascii unicode s h = rw h refl

pub ascii_lower-ascii_lower : (s : Str) → map ascii_lower (map ascii_lower s) ≡ map ascii_lower s
ascii_lower-ascii_lower [] = refl
ascii_lower-ascii_lower (c ∷ s) = ground (arith, ascii_lower-ascii_lower s)

pub ascii_lower-ascii_upper : (s : Str) → map ascii_lower (map ascii_upper s) ≡ map ascii_lower s
ascii_lower-ascii_upper [] = refl
ascii_lower-ascii_upper (c ∷ s) = ground (arith, ascii_lower-ascii_upper s)

pub is_ascii-ascii_upper : (s : Str) → is_ascii s ≡ true → is_ascii (map ascii_upper s) ≡ true
unfolding is_ascii
is_ascii-ascii_upper [] h = refl
is_ascii-ascii_upper (c ∷ s) h = ground (arith, is_ascii-ascii_upper s)

pub is_ascii-ascii_lower : (s : Str) → is_ascii s ≡ true → is_ascii (map ascii_lower s) ≡ true
unfolding is_ascii
is_ascii-ascii_lower [] h = refl
is_ascii-ascii_lower (c ∷ s) h = ground (arith, is_ascii-ascii_lower s)

-- The text has no dot in it.
abbrev pub HasNoDot : Str → Type 0
HasNoDot = All (λ c. c ≢ b'.')

pub ascii_lower-HasNoDot : (s : Str) → HasNoDot s → HasNoDot (map ascii_lower s)
ascii_lower-HasNoDot [] h = tt
ascii_lower-HasNoDot (c ∷ s) h = (ground arith, ascii_lower-HasNoDot s h.1)
