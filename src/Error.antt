-- ===== src/Error.antt =====
-- src/error.rs: the error type of the program, its wrapping and its text.
pub mod Display
mod Tests
use aardvark_dns.Prelude.{◌++◌, [], ◌∷◌, Bool, true, false, List}
use aardvark_dns.Text.{Str, codes}
use aardvark_dns.Result.{Result, ok, err, map_err}

-- `std::io::ErrorKind`; the program tells `NotFound` from the rest.
pub data ErrorKind : Type 0 where
  not_found other : ErrorKind

abbrev pub is_not_found : ErrorKind → Bool
is_not_found not_found = true
is_not_found other = false

-- `std::io::Error`: its kind and the text that it prints.
pub record IoError : Type 0 where
  pub kind : ErrorKind
  pub text : Str

-- `std::net::AddrParseError`: what was being parsed.
pub data AddrParseError : Type 0 where
  ip ipv4 ipv6 : AddrParseError

-- Its `Display`.
unfoldable pub addr_parse_text : AddrParseError → Str
addr_parse_text ip = codes "invalid IP address syntax"
addr_parse_text ipv4 = codes "invalid IPv4 address syntax"
addr_parse_text ipv6 = codes "invalid IPv6 address syntax"

mutual
  pub data AardvarkError : Type 0 where
    message : Str → AardvarkError
    io_error : IoError → AardvarkError
    chain : Str → AardvarkError → AardvarkError
    list : AardvarkErrorList → AardvarkError
    addr_parse_error : AddrParseError → AardvarkError

  pub data AardvarkErrorList : Type 0 where
    nil : AardvarkErrorList
    cons : AardvarkError → AardvarkErrorList → AardvarkErrorList

abbrev pub AardvarkResult : Type 0 → Type 0
AardvarkResult A = Result A AardvarkError

-- `From<std::io::Error>`, which the `?` operator applies.
abbrev pub from_io : {A : Type 0} → Result A IoError → AardvarkResult A
from_io = map_err io_error

-- `Into<AardvarkError>`: the `From` of the error itself, of I/O errors and of errors of parsing an
-- address.
pub record Into (E : Type 0) : Type 0 where
  pub into : E → AardvarkError

instance abbrev pub into_same : Into AardvarkError
into_same = record { into = λ e. e }

instance abbrev pub into_io : Into IoError
into_io = record { into = io_error }

instance abbrev pub into_addr_parse : Into AddrParseError
into_addr_parse = record { into = addr_parse_error }

-- `AardvarkWrap::wrap`
unfoldable pub wrap : {A E : Type 0} ⦃i : Into E⦄ → Result A E → Str → AardvarkResult A
wrap (ok a) msg = ok a
wrap ⦃i⦄ (err e) msg = err (chain msg (i.into e))

-- `AardvarkErrorList::push`
unfoldable pub push : AardvarkErrorList → AardvarkError → AardvarkErrorList
push nil e = cons e nil
push (cons x xs) e = cons x (push xs e)

-- `AardvarkErrorList::is_empty`
unfoldable pub is_empty : AardvarkErrorList → Bool
is_empty nil = true
is_empty (cons x xs) = false

-- `Display::fmt`; `fmt_first` and `fmt_rest` are the two halves of the arm for a list.
unfoldable mutual
  pub fmt : AardvarkError → Str
  fmt (message s) = s
  fmt (chain s e) = s ++ (codes ": " ++ fmt e)
  fmt (io_error e) = codes "IO error: " ++ e.text
  fmt (addr_parse_error e) = codes "parse address: " ++ addr_parse_text e
  fmt (list l) = fmt_first l

  pub fmt_first : AardvarkErrorList → Str
  fmt_first nil = []
  fmt_first (cons e es) = fmt e ++ fmt_rest es

  pub fmt_rest : AardvarkErrorList → Str
  fmt_rest nil = []
  fmt_rest (cons e es) = b'\n' ∷ (fmt e ++ fmt_rest es)

abbrev pub errors : AardvarkErrorList → List AardvarkError
errors nil = []
errors (cons e es) = e ∷ errors es
