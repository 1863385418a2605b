-- ===== src/Net/Parser.antt =====
-- `core::net::parser`: `FromStr` of the address types, and `u32::from_str`. A reader returns what
-- it read and the rest; on `none` the caller goes on from where it was, as `read_atomically` does.
use aardvark_dns.Prelude.{
  ℕ, zero, suc, ◌+◌, ◌-◌, ◌*◌, ◌/◌, ◌%◌, ◌^◌, Bool, true, false, not, ◌&&◌, ◌||◌, List, [], ◌∷◌,
  ◌++◌, Option, none, some, if◌then◌else◌, ltb, leb, nat_beq, length,
}
use aardvark_dns.Text.{Str}
use aardvark_dns.Result.{Result, ok, err}
use aardvark_dns.Error.{AddrParseError}
use aardvark_dns.Net.Addr.{IpAddr, v4, v6, Ipv4Addr, Ipv6Addr}

abbrev Reader : Type 0 → Type 0
Reader A = Str → Option (A × Str)

infixl 5 ◌>>=◌
abbrev ◌>>=◌ : {A B : Type 0} → Option A → (A → Option B) → Option B
none >>= f = none
some a >>= f = f a

-- `char::to_digit`
unfoldable pub to_digit : ℕ → ℕ → Option ℕ
to_digit radix c =
    let digit : ℕ =
      if leb b'0' c && leb c b'9'
      then c - b'0'
      else if leb b'a' c && leb c b'z'
      then c - b'a' + 10
      else if leb b'A' c && leb c b'Z'
      then c - b'A' + 10
      else radix in
    if ltb digit radix then some digit else none

-- The loop of `read_number`, with the value and the count of digits so far.
unfoldable pub read_digits : ℕ → ℕ → ℕ → ℕ → Str → Option (ℕ × ℕ × Str)
unfolding to_digit
read_digits radix max_digits value count [] = some (value, count, [])
read_digits radix max_digits value count (c ∷ s) = elim (to_digit radix c) [
  | none ↦ some (value, count, c ∷ s)
  | some d ↦ elim (ltb count max_digits) [
    | true ↦ read_digits radix max_digits (value * radix + d) (count + 1) s
    | false ↦ none
  ]
]

abbrev starts_with_zero : Str → Bool
starts_with_zero [] = false
starts_with_zero (c ∷ s) = nat_beq c b'0'

-- The checks behind the loop: the number of digits, and `try_into`.
abbrev in_range : Bool → ℕ → ℕ × Str → Option (ℕ × Str)
in_range bad_count bound (value, rest) =
    if bad_count then none else if ltb value bound then some (value, rest) else none

-- `read_number(radix, Some(max_digits), allow_zero_prefix)` into a type of the values below `bound`
unfoldable pub read_number : ℕ → ℕ → Bool → ℕ → Reader ℕ
unfolding read_digits
read_number radix max_digits allow_zero_prefix bound s = do
  (value, count, rest) ← read_digits radix max_digits 0 0 s
  in_range (nat_beq count 0 || (not allow_zero_prefix && starts_with_zero s && ltb 1 count)) bound
      (value, rest)

-- `read_given_char`
unfoldable pub read_given_char : ℕ → Str → Option Str
read_given_char target [] = none
read_given_char target (c ∷ s) = if nat_beq c target then some s else none

-- `read_separator(sep, index, inner)`; the flag is `index == 0`
unfoldable pub read_separator : {A : Type 0} → ℕ → Bool → Reader A → Reader A
unfolding read_given_char
read_separator sep true inner s = inner s
read_separator sep false inner s = do rest ← read_given_char sep s; inner rest

read_octet : Bool → Reader ℕ
unfolding read_separator read_number
read_octet first = read_separator b'.' first (read_number 10 3 false 256)

-- `read_ipv4_addr`
unfoldable pub read_ipv4_addr : Reader Ipv4Addr
unfolding read_octet
read_ipv4_addr s = do
  (a, s1) ← read_octet true s
  (b, s2) ← read_octet false s1
  (c, s3) ← read_octet false s2
  (d, s4) ← read_octet false s3
  some (((a * 256 + b) * 256 + c) * 256 + d, s4)

abbrev Groups : Type 0
Groups = List ℕ × Bool × Str

abbrev add_group : ℕ → Groups → Groups
add_group g (gs, embedded, s) = (g ∷ gs, embedded, s)

-- `read_groups`: the groups read, whether they end in an embedded IPv4 address, and the rest.
unfoldable pub read_groups : ℕ → Bool → Str → Groups
unfolding read_separator read_number read_ipv4_addr
read_groups zero first s = ([], false, s)
read_groups (suc slots) first s =
    elim (if leb 1 slots then read_separator b':' first read_ipv4_addr s else none) [
      | some (a, rest) ↦ (a / 65536 ∷ a % 65536 ∷ [], true, rest)
      | none ↦ elim (read_separator b':' first (read_number 16 4 true 65536) s) [
        | some (g, rest) ↦ add_group g (read_groups slots false rest)
        | none ↦ ([], false, s)
      ]
    ]

abbrev join_groups : ℕ → List ℕ → ℕ
join_groups n [] = n
join_groups n (g ∷ gs) = join_groups (n * 65536 + g) gs

abbrev zeros : ℕ → List ℕ
zeros zero = []
zeros (suc n) = 0 ∷ zeros n

-- The part of `read_ipv6_addr` behind the first groups.
read_tail : Groups → Option (Ipv6Addr × Str)
unfolding read_groups read_given_char
read_tail (front, embedded, s) =
    if nat_beq (length front) 8
    then some (join_groups 0 front, s)
    else if embedded
    then none
    else do
      s1 ← read_given_char b':' s
      s2 ← read_given_char b':' s1
      let (back, _, rest) = read_groups (8 - (length front + 1)) true s2
      some (join_groups 0 (front ++ (zeros (8 - length front - length back) ++ back)), rest)

-- `read_ipv6_addr`
unfoldable pub read_ipv6_addr : Reader Ipv6Addr
unfolding read_tail
read_ipv6_addr s = read_tail (read_groups 8 true s)

-- `parse_with`: the whole text has to be read.
abbrev parse_with : {A : Type 0} → AddrParseError → Option (A × Str) → Result A AddrParseError
parse_with kind (some (a, [])) = ok a
parse_with kind (some (a, c ∷ s)) = err kind
parse_with kind none = err kind

-- `Ipv4Addr::from_str`
unfoldable pub parse_ipv4 : Str → Result Ipv4Addr AddrParseError
unfolding read_ipv4_addr
parse_ipv4 s =
    if ltb 15 (length s)
    then err AddrParseError.ipv4
    else parse_with AddrParseError.ipv4 (read_ipv4_addr s)

-- `Ipv6Addr::from_str`
unfoldable pub parse_ipv6 : Str → Result Ipv6Addr AddrParseError
unfolding read_ipv6_addr
parse_ipv6 s = parse_with AddrParseError.ipv6 (read_ipv6_addr s)

abbrev or_else : Option (Ipv4Addr × Str) → Option (Ipv6Addr × Str) → Option (IpAddr × Str)
or_else (some (a, s)) _ = some (v4 a, s)
or_else none (some (a, s)) = some (v6 a, s)
or_else none none = none

-- `IpAddr::from_str`
unfoldable pub parse_ip : Str → Result IpAddr AddrParseError
unfolding read_ipv4_addr read_ipv6_addr
parse_ip s = parse_with AddrParseError.ip (or_else (read_ipv4_addr s) (read_ipv6_addr s))

-- The digits of `from_str` of an integer type, with its overflow checks: the values are below the
-- bound.
unfoldable pub scan_digits : ℕ → Str → ℕ → Option ℕ
unfolding to_digit
scan_digits bound [] n = some n
scan_digits bound (c ∷ s) n = elim (to_digit 10 c) [
  | none ↦ none
  | some d ↦ elim (ltb (n * 10 + d) bound) [
    | true ↦ scan_digits bound s (n * 10 + d)
    | false ↦ none
  ]
]

abbrev skip_plus : Str → Str
skip_plus [] = []
skip_plus (c ∷ s) = if nat_beq c b'+' then s else c ∷ s

-- No digit at all is an error.
abbrev pub scan_some : ℕ → Str → Option ℕ
unfolding scan_digits
scan_some bound [] = none
scan_some bound (c ∷ s) = scan_digits bound (c ∷ s) 0

-- `u32::from_str`
unfoldable pub parse_u32 : Str → Option ℕ
unfolding scan_digits
parse_u32 s = scan_some (2 ^ 32) (skip_plus s)
