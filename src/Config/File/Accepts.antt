-- ===== src/Config/File/Accepts.antt =====
-- Which files `parse_config` accepts.
mod Columns
use aardvark_dns.Prelude.{
  ◌≡◌, ◌≢◌, ◌↔◌, ◌⊎◌, inl, inr, refl, sym, subst, ◌∙◌, Bool-cases, nat_beq, Bool, true, false, List,
  [], ◌∷◌, ◌++◌, All, none, some, map, is_empty, arith,
}
use aardvark_dns.Text.{Str, codes}
use aardvark_dns.Text.Split.{split, add_head}
use aardvark_dns.Text.Case.{to_lowercase}
use aardvark_dns.Result.{Result, ok, err, map_err, ◌>>=◌, >>=-eq-ok, ok-injective, Result-cases}
use aardvark_dns.Error.{AddrParseError, AardvarkResult, IoError, from_io}
use aardvark_dns.Net.Addr.{IpAddr}
use aardvark_dns.Net.Parser.{parse_ip, parse_ipv4, parse_ipv6}
use aardvark_dns.Config.Entry.{ParsedNetworkConfig}
use aardvark_dns.Config.File.{
  collect, parse_failed, parse_named, parse_network, parse_column, parse_dns, check_names,
  parse_entry, Lines, no_lines, parse_line, parse_lines, finish, parse_config,
}
pub use aardvark_dns.Config.File.Accepts.Columns.{Succeeds}
use aardvark_dns.Config.File.Accepts.Columns.{
  IsFirstLine, IsEntryLine, parse_network-IsFirstLine, parse_network-some, parse_entry-IsEntryLine,
}

-- Empty lines do not count.
abbrev pub used : List Str → List Str
used [] = []
used ([] ∷ lines) = used lines
used ((c ∷ line) ∷ lines) = (c ∷ line) ∷ used lines

abbrev pub IsFile : List Str → Type 0
IsFile [] = ⊥
IsFile (first ∷ entries) =
    IsFirstLine (split b' ' first) × All (λ line. IsEntryLine (split b' ' line)) entries

module _ (unicode : Str → Str) (path : Str) where
  -- From these lines the loop and the check behind it succeed.
  abbrev Reads : Lines → List Str → Type 0
  Reads s lines = Succeeds (parse_lines unicode path s lines >>= λ s'. finish unicode path s')

  Reads-line :
      (s : Lines) (line : Str) (lines : List Str)
      → Reads s (line ∷ lines)
        ↔ ((s' : Lines) × (parse_line unicode path s line ≡ ok s') × Reads s' lines)
  unfolding parse_lines
  Reads-line s line lines = elim (Result-cases (parse_line unicode path s line)) [
    | inl (s', read) ↦
        rw read (
          λ h. (s', refl, h),
          λ (t, same, h). subst (λ t. Reads t lines) (sym (ok-injective same)) h,
        )
    | inr (e, failed) ↦ rw failed ((λ (c, h). cc), (λ (t, same, h). cc))
  ]

  -- Behind the first line, with a bind address.
  later-Reads :
      (s : Lines) (lines : List Str)
      → s.is_first ≡ false
      → s.bind_addrs ≢ []
      → Reads s lines ↔ All (λ line. IsEntryLine (split b' ' line)) (used lines)
  unfolding parse_lines parse_line
  later-Reads s [] later bound = (λ h. tt, λ h. finishes (Bool-cases (is_empty s.bind_addrs)))
    where
      finishes :
          (is_empty s.bind_addrs ≡ true) ⊎ (is_empty s.bind_addrs ≡ false)
          → Succeeds (finish unicode path s)
      finishes (inl none_given) = absurd (bound (ground arith))
      finishes (inr given) = rw given (_, refl)
  later-Reads s ([] ∷ lines) later bound = later-Reads s lines later bound
  later-Reads s ((c ∷ line) ∷ lines) later bound =
      let step = Reads-line s (c ∷ line) lines in
      let columns = split b' ' (c ∷ line) in
      let entry_iff = parse_entry-IsEntryLine unicode path (c ∷ line) columns in
      (
        λ h.
            let (s', read, more) = step.0 h in
            let (entry, parsed, same) =
              >>=-eq-ok (parse_entry unicode path (c ∷ line) columns)
                (λ entry. ok (record s { is_first = false; ctrs = s.ctrs ++ entry ∷ [] }))
                (rw later at read) in
            let next = record s { is_first = false; ctrs = s.ctrs ++ entry ∷ [] } in
            (
              entry_iff.0 (entry, parsed),
              (later-Reads next lines refl bound).0
                  (subst (λ t. Reads t lines) (sym (ok-injective same)) more),
            ),
        λ (is_entry, others).
            let (entry, parsed) = entry_iff.1 is_entry in
            let next = record s { is_first = false; ctrs = s.ctrs ++ entry ∷ [] } in
            step.1 (next, rw (later, parsed) refl, (later-Reads next lines refl bound).1 others),
      )

  first-Reads : (lines : List Str) → Reads no_lines lines ↔ IsFile (used lines)
  unfolding parse_lines parse_line
  first-Reads [] = (λ (c, h). cc, λ h. absurd h)
  first-Reads ([] ∷ lines) = first-Reads lines
  first-Reads ((c ∷ line) ∷ lines) =
      let step = Reads-line no_lines (c ∷ line) lines in
      let columns = split b' ' (c ∷ line) in
      let network_iff = parse_network-IsFirstLine path columns in
      let behind : List IpAddr × List IpAddr → Lines =
        λ b. record { is_first = false; bind_addrs = b.0; network_dns_servers = b.1; ctrs = [] } in
      (
        λ h.
            let (s', read, more) = step.0 h in
            let (b, parsed, same) =
              >>=-eq-ok (parse_network path columns) (λ b. ok (behind b)) read in
            (
              network_iff.0 (b, parsed),
              (later-Reads (behind b) lines refl (parse_network-some path columns b parsed)).0
                  (subst (λ t. Reads t lines) (sym (ok-injective same)) more),
            ),
        λ (is_first_line, others).
            let (b, parsed) = network_iff.1 is_first_line in
            step.1 (
              behind b,
              rw parsed refl,
              (later-Reads (behind b) lines refl (parse_network-some path columns b parsed)).1
                  others,
            ),
      )

  -- A file is accepted exactly when it can be read, a line is not empty, the first of these has
  -- only valid addresses in its first column and in its second if there is one, and each of the
  -- others has at least four columns, of which the second, the third and a fifth that is the last
  -- are empty or have only valid addresses; nothing is asked of the id, of the names, of a fifth
  -- column that others follow, or of what stands behind the second column of the first line.
  pub parse_config-accepts :
      (content : Result Str IoError)
      → Succeeds (parse_config unicode path content)
        ↔ ((text : Str) × (content ≡ ok text) × IsFile (used (split b'\n' text)))
  unfolding parse_config
  parse_config-accepts (err e) = (λ (c, h). cc, λ (text, h, _). cc)
  parse_config-accepts (ok text) =
      let lines_iff = first-Reads (split b'\n' text) in
      (
        λ h. (text, refl, lines_iff.0 h),
        λ (t, same, h).
            lines_iff.1 (subst (λ t. IsFile (used (split b'\n' t))) (sym (ok-injective same)) h),
      )
