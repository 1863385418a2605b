-- ===== src/Text/Split.antt =====
-- `split`, `split_once`, `split_whitespace` and `join`.
use aardvark_dns.Prelude.{
  ℕ, Bool, true, false, ◌||◌, ◌&&◌, List, [], ◌∷◌, ◌++◌, Option, none, some, if◌then◌else◌, leb,
  nat_beq,
}

-- `s.split(sep)`: always at least one part.
abbrev pub add_head : ℕ → List (List ℕ) → List (List ℕ)
add_head c [] = (c ∷ []) ∷ []
add_head c (p ∷ ps) = (c ∷ p) ∷ ps

unfoldable pub split : ℕ → List ℕ → List (List ℕ)
split sep [] = [] ∷ []
split sep (c ∷ s) = let rest = split sep s in if nat_beq c sep then [] ∷ rest else add_head c rest

-- `parts.join(sep)`.
unfoldable pub join : List ℕ → List (List ℕ) → List ℕ
join sep [] = []
join sep (p ∷ []) = p
join sep (p ∷ q ∷ ps) = p ++ (sep ++ join sep (q ∷ ps))

-- `s.split_once(pred)`: the text before and behind the first char that passes the test.
unfoldable pub split_once : (ℕ → Bool) → List ℕ → Option (List ℕ × List ℕ)
split_once test [] = none
split_once test (c ∷ s) =
    let rest = split_once test s in
    if test c then some ([], s) else elim rest [ none ↦ none | some (a, b) ↦ some (c ∷ a, b) ]

-- `char::is_whitespace`: the property White_Space of Unicode.
unfoldable pub is_whitespace : ℕ → Bool
is_whitespace c =
    (leb 9 c && leb c 13)
    || nat_beq c 0x20
    || nat_beq c 0x85
    || nat_beq c 0xa0
    || nat_beq c 0x1680
    || (leb 0x2000 c && leb c 0x200a)
    || nat_beq c 0x2028
    || nat_beq c 0x2029
    || nat_beq c 0x202f
    || nat_beq c 0x205f
    || nat_beq c 0x3000

-- The word in progress goes in front of the words behind it, if it is not empty.
abbrev pub close_word : List ℕ → List (List ℕ) → List (List ℕ)
close_word [] ws = ws
close_word (c ∷ w) ws = (c ∷ w) ∷ ws

unfoldable pub words_from : List ℕ → List ℕ → List (List ℕ)
unfolding is_whitespace
words_from word [] = close_word word []
words_from word (c ∷ s) = elim (is_whitespace c) [
  | true ↦ close_word word (words_from [] s)
  | false ↦ words_from (word ++ c ∷ []) s
]

-- `s.split_whitespace()`.
unfoldable pub split_whitespace : List ℕ → List (List ℕ)
unfolding words_from
split_whitespace = words_from []
