-- ===== src/Text/Case.antt =====
-- `to_lowercase`. On ASCII it is spelled out; on other text it is Unicode's table, a parameter.
use aardvark_dns.Prelude.{ℕ, ◌+◌, Bool, true, ◌&&◌, List, [], ◌∷◌, map, if◌then◌else◌, leb, ltb}

abbrev pub ascii_lower : ℕ → ℕ
ascii_lower c = if leb b'A' c && leb c b'Z' then c + 32 else c

unfoldable pub is_ascii : List ℕ → Bool
is_ascii [] = true
is_ascii (c ∷ s) = ltb c 128 && is_ascii s

-- `unicode s` is what `str::to_lowercase` gives for a text that is not all ASCII.
unfoldable pub to_lowercase : (List ℕ → List ℕ) → List ℕ → List ℕ
unfolding is_ascii
to_lowercase unicode s = if is_ascii s then map ascii_lower s else unicode s
