-- ===== src/Error/Tests.antt =====
-- The text of a list of errors.
use aardvark_dns.Prelude.{◌≡◌, refl}
use aardvark_dns.Text.{codes}
use aardvark_dns.Error.{AardvarkErrorList, message, list, nil, cons, chain, fmt}

abbrev two_errors : AardvarkErrorList
two_errors =
    cons (message (codes "first")) (cons (chain (codes "wrapped") (message (codes "second"))) nil)

fmt-two_errors : fmt (list two_errors) ≡ codes "first\nwrapped: second"
unfolding fmt
fmt-two_errors = refl
