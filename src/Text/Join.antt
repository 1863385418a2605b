-- ===== src/Text/Join.antt =====
-- `split` undoes `join`.
use aardvark_dns.Prelude.{
  Bool, true, false, if◌then◌else◌, nat_beq, nat_beq_iff, Bool-cases, inl, inr, ℕ, ◌≡◌, ◌≢◌, refl,
  ap, [], ◌∷◌, ◌++◌, List, All, All-append, arith,
}
use aardvark_dns.Text.{Str}
use aardvark_dns.Text.Split.{split, join}

abbrev pub Lacks : ℕ → Str → Type 0
Lacks sep = All (λ c. c ≢ sep)

-- The test on a literal.
abbrev pub lacks : ℕ → Str → Bool
lacks sep [] = true
lacks sep (c ∷ s) = if nat_beq c sep then false else lacks sep s

pub lacks-Lacks : (sep : ℕ) (s : Str) → lacks sep s ≡ true → Lacks sep s
lacks-Lacks sep [] h = tt
lacks-Lacks sep (c ∷ s) h = elim (Bool-cases (nat_beq c sep)) [
  | inl same ↦ cc (rw same at h)
  | inr differs ↦ (λ e. cc ((nat_beq_iff c sep).1 e, differs), lacks-Lacks sep s (rw differs at h))
]

split-Lacks : (sep : ℕ) (p : Str) → Lacks sep p → split sep p ≡ p ∷ []
unfolding split
split-Lacks sep [] h = refl
split-Lacks sep (c ∷ p) h = ground (arith, split-Lacks sep p h.1)

split-append :
    (sep : ℕ) (p rest : Str) → Lacks sep p → split sep (p ++ sep ∷ rest) ≡ p ∷ split sep rest
unfolding split
split-append sep [] rest h = ground arith
split-append sep (c ∷ p) rest h = ground (arith, split-append sep p rest h.1)

pub split-join :
    (sep : ℕ) (ps : List Str) → ps ≢ [] → All (Lacks sep) ps → split sep (join (sep ∷ []) ps) ≡ ps
unfolding join
split-join sep [] h _ = absurd (h refl)
split-join sep (p ∷ []) h l = split-Lacks sep p l.0
split-join sep (p ∷ q ∷ ps) h l =
    rw (split-append sep p (join (sep ∷ []) (q ∷ ps)) l.0)
      (ap (λ (rest : List Str). p ∷ rest) (split-join sep (q ∷ ps) (cc) l.1))

-- A joined text lacks what its parts and the separator lack.
pub Lacks-join :
    (c sep : ℕ) (ps : List Str) → sep ≢ c → All (Lacks c) ps → Lacks c (join (sep ∷ []) ps)
unfolding join
Lacks-join c sep [] d h = tt
Lacks-join c sep (p ∷ []) d h = h.0
Lacks-join c sep (p ∷ q ∷ ps) d h =
    All-append (λ k. k ≢ c) p _ h.0 (d, Lacks-join c sep (q ∷ ps) d h.1)
