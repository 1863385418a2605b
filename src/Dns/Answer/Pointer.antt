-- ===== src/Dns/Answer/Pointer.antt =====
-- `reply_ptr`: the address that a reverse name asks for.
use mathlib.Core.List.{reverse-reverse, reverse-append}
use aardvark_dns.Prelude.{
  ℕ, ◌≡◌, ◌≢◌, inl, inr, refl, sym, ap, ◌∙◌, List, [], ◌∷◌, ◌++◌, map, reverse, none, some,
  Option-cases, All, All-append, append_assoc, append-nil, arith, Bool, ◌&&◌, ◌<◌, ◌+◌, ◌*◌, length,
  nat_beq, ltb, true, false, ◌%◌,
}
use aardvark_dns.Text.{Str, codes, strip_suffix}
use aardvark_dns.Text.Split.{split, join}
use aardvark_dns.Text.Join.{Lacks, split-join}
use aardvark_dns.Text.Suffix.{strip_suffix-append, strip_suffix_split}
use aardvark_dns.Dns.Answer.{push_digits, ptr_lookup_ip}

All-reverse : {A : Type 0} (P : A → Type 0) (xs : List A) → All P xs → All P (reverse xs)
All-reverse P [] h = tt
All-reverse P (x ∷ xs) h =
    rw (reverse-append (x ∷ []) xs)
      (All-append P (reverse xs) (x ∷ []) (All-reverse P xs h.1) (h.0, tt))

reverse-ne-nil : {A : Type 0} (xs : List A) → xs ≢ [] → reverse xs ≢ []
reverse-ne-nil xs some_items e = some_items (sym (reverse-reverse xs) ∙ ap reverse e)

split_reversed :
    (parts : List Str)
    → parts ≢ []
    → All (Lacks b'.') parts
    → reverse (split b'.' (join (b'.' ∷ []) (reverse parts))) ≡ parts
split_reversed parts some_parts lacks =
    ap reverse (
      split-join b'.' (reverse parts) (reverse-ne-nil parts some_parts)
        (All-reverse (Lacks b'.') parts lacks))
    ∙ reverse-reverse parts

-- The IPv4 address text whose parts stand in reverse under `in-addr.arpa` is found.
pub ptr_lookup_ip-in_addr :
    (parts : List Str)
    → parts ≢ []
    → All (Lacks b'.') parts
    → ptr_lookup_ip (join (b'.' ∷ []) (reverse parts) ++ codes ".in-addr.arpa.")
      ≡ some (join (b'.' ∷ []) parts)
unfolding ptr_lookup_ip
ptr_lookup_ip-in_addr parts some_parts lacks =
    rw
      (
        strip_suffix-append (join (b'.' ∷ []) (reverse parts)) (codes ".in-addr.arpa."),
        ptr_lookup_ip,
      )
      (ap (λ (ps : List Str). some (join (b'.' ∷ []) ps)) (split_reversed parts some_parts lacks))

abbrev seventh : Str → ℕ
seventh (_ ∷ _ ∷ _ ∷ _ ∷ _ ∷ _ ∷ c ∷ s) = c
seventh _ = 0

-- No text ends in both domains.
two_domains : (p r : Str) → p ++ codes ".ip6.arpa." ≢ r ++ codes ".in-addr.arpa."
two_domains p r e = clash (
    sym (reverse-append p (codes ".ip6.arpa."))
    ∙ (ap reverse e ∙ reverse-append r (codes ".in-addr.arpa.")))
  where
    clash :
        reverse (codes ".ip6.arpa.") ++ reverse p ≢ reverse (codes ".in-addr.arpa.") ++ reverse r
    clash h = omega (arith, ap seventh h)

not_in_addr : (p : Str) → strip_suffix (p ++ codes ".ip6.arpa.") (codes ".in-addr.arpa.") ≡ none
not_in_addr p =
    elim (Option-cases (strip_suffix (p ++ codes ".ip6.arpa.") (codes ".in-addr.arpa."))) [
      | inl lost ↦ lost
      | inr (r, left) ↦ absurd (
          two_domains p r
            (strip_suffix_split (p ++ codes ".ip6.arpa.") (codes ".in-addr.arpa.") r left))
    ]

-- Four hexadecimal digits.
pub record Group : Type 0 where
  pub a : Str
  pub b : Str
  pub c : Str
  pub d : Str

abbrev pub digits_of : Group → List Str
digits_of g = g.a ∷ g.b ∷ g.c ∷ g.d ∷ []

abbrev pub text_of : Group → Str
text_of g = g.a ++ (g.b ++ (g.c ++ g.d))

abbrev pub all_digits : List Group → List Str
all_digits [] = []
all_digits (g ∷ gs) = digits_of g ++ all_digits gs

-- A colon stands behind the digit.
abbrev colon_at : ℕ → Bool
colon_at i = nat_beq (i % 4) 3 && ltb i 31

no_colon :
    (i next : ℕ) (c : Str) (cs : List Str)
    → i + 1 ≡ next
    → colon_at i ≡ false
    → push_digits i (c ∷ cs) ≡ c ++ push_digits next cs
unfolding push_digits
no_colon i next c cs e h = rw h (ap (λ (n : ℕ). c ++ push_digits n cs) e)

with_colon :
    (i next : ℕ) (c : Str) (cs : List Str)
    → i + 1 ≡ next
    → colon_at i ≡ true
    → push_digits i (c ∷ cs) ≡ c ++ b':' ∷ push_digits next cs
unfolding push_digits
with_colon i next c cs e h = rw h (ap (λ (n : ℕ). c ++ b':' ∷ push_digits n cs) e)

colon_inside : (k j : ℕ) → j < 3 → colon_at (4 * k + j) ≡ false
colon_inside k j h = ground arith

colon_behind : (k : ℕ) → k < 7 → colon_at (4 * k + 3) ≡ true
colon_behind k h = ground arith

no_colon_last : (k : ℕ) → k ≡ 7 → colon_at (4 * k + 3) ≡ false
no_colon_last k h = ground arith

first_digit : (k : ℕ) → colon_at (4 * k) ≡ false
first_digit k = ground arith

three :
    (k : ℕ) (a b c : Str) (cs : List Str)
    → push_digits (4 * k) (a ∷ b ∷ c ∷ cs) ≡ a ++ (b ++ (c ++ push_digits (4 * k + 3) cs))
three k a b c cs =
    no_colon (4 * k) (4 * k + 1) a (b ∷ c ∷ cs) refl (first_digit k)
    ∙ ap (λ (s : Str). a ++ s)
        (no_colon (4 * k + 1) (4 * k + 2) b (c ∷ cs) (omega arith) (colon_inside k 1 (omega arith))
          ∙ ap (λ (s : Str). b ++ s)
              (no_colon (4 * k + 2) (4 * k + 3) c cs (omega arith)
                (colon_inside k 2 (omega arith))))

regroup : (g : Group) (rest : Str) → g.a ++ (g.b ++ (g.c ++ (g.d ++ rest))) ≡ text_of g ++ rest
regroup g rest =
    rw
      (
        append_assoc g.a (g.b ++ (g.c ++ g.d)) rest,
        append_assoc g.b (g.c ++ g.d) rest,
        append_assoc g.c g.d rest,
      )
      refl

-- The loop over the digits of the groups from the `k`-th on.
push_digits-join :
    (k : ℕ) (gs : List Group)
    → k + length gs ≡ 8
    → push_digits (4 * k) (all_digits gs) ≡ join (b':' ∷ []) (map text_of gs)
unfolding join
push_digits-join k [] h = unfold push_digits in refl
push_digits-join k (g ∷ []) h =
    three k g.a g.b g.c (g.d ∷ [])
    ∙ ap (λ (s : Str). g.a ++ (g.b ++ (g.c ++ s)))
        (no_colon (4 * k + 3) (4 * k + 4) g.d [] (omega arith) (no_colon_last k (omega arith))
          ∙ unfold push_digits in append-nil g.d)
push_digits-join k (g ∷ g' ∷ gs) h =
    three k g.a g.b g.c (g.d ∷ all_digits (g' ∷ gs))
    ∙ ap (λ (s : Str). g.a ++ (g.b ++ (g.c ++ s)))
        (with_colon (4 * k + 3) (4 * (k + 1)) g.d (all_digits (g' ∷ gs)) (omega arith)
            (colon_behind k (omega arith))
          ∙ ap (λ (s : Str). g.d ++ b':' ∷ s) (push_digits-join (k + 1) (g' ∷ gs) (omega arith)))
    ∙ regroup g (b':' ∷ join (b':' ∷ []) (map text_of (g' ∷ gs)))

digits-ne-nil : (gs : List Group) → length gs ≡ 8 → all_digits gs ≢ []
digits-ne-nil [] h e = cc
digits-ne-nil (g ∷ gs) h e = cc

-- The 32 digits that stand in reverse under `ip6.arpa` are read as eight groups of four digits
-- with colons between them.
pub ptr_lookup_ip-ip6 :
    (gs : List Group)
    → length gs ≡ 8
    → All (Lacks b'.') (all_digits gs)
    → ptr_lookup_ip (join (b'.' ∷ []) (reverse (all_digits gs)) ++ codes ".ip6.arpa.")
      ≡ some (join (b':' ∷ []) (map text_of gs))
unfolding ptr_lookup_ip
ptr_lookup_ip-ip6 gs eight lacks =
    let p = join (b'.' ∷ []) (reverse (all_digits gs)) in
    rw (not_in_addr p, strip_suffix-append p (codes ".ip6.arpa."), ptr_lookup_ip)
      (ap (λ (ds : List Str). some (push_digits 0 ds))
          (split_reversed (all_digits gs) (digits-ne-nil gs eight) lacks)
        ∙ ap some (push_digits-join 0 gs (omega arith)))
