-- ===== src/Error/Display.antt =====
-- What the text of an error is.
use aardvark_dns.Prelude.{◌≡◌, refl, ap, [], ◌∷◌, ◌++◌, List, map, append-nil, false}
use aardvark_dns.Text.{Str}
use aardvark_dns.Text.Split.{join}
use aardvark_dns.Error.{
  AardvarkError, AardvarkErrorList, nil, cons, list, push, is_empty, fmt, fmt_rest, errors,
}

fmt_rest-join :
    (e : AardvarkError) (es : AardvarkErrorList)
    → fmt e ++ fmt_rest es ≡ join (b'\n' ∷ []) (fmt e ∷ map fmt (errors es))
unfolding fmt join
fmt_rest-join e nil = append-nil (fmt e)
fmt_rest-join e (cons x es) = ap (λ (t : Str). fmt e ++ (b'\n' ∷ t)) (fmt_rest-join x es)

-- The text of a list of errors is the texts of its errors joined by newlines: a newline stands
-- only between two errors.
pub fmt-list : (l : AardvarkErrorList) → fmt (list l) ≡ join (b'\n' ∷ []) (map fmt (errors l))
unfolding fmt join
fmt-list nil = refl
fmt-list (cons e es) = fmt_rest-join e es

pub errors-push :
    (l : AardvarkErrorList) (e : AardvarkError) → errors (push l e) ≡ errors l ++ e ∷ []
unfolding push
errors-push nil e = refl
errors-push (cons x xs) e = ap (λ (t : List AardvarkError). x ∷ t) (errors-push xs e)

pub is_empty-push : (l : AardvarkErrorList) (e : AardvarkError) → is_empty (push l e) ≡ false
unfolding is_empty push
is_empty-push nil e = refl
is_empty-push (cons x xs) e = refl
