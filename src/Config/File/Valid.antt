-- ===== src/Config/File/Valid.antt =====
-- What holds of every file that `parse_config` accepts.
use aardvark_dns.Prelude.{
  ◌≡◌, ◌≢◌, ap, subst, inl, inr, true, false, [], ◌∷◌, ◌++◌, List, map, All, All-append, Bool-cases,
  is_empty, arith,
}
use aardvark_dns.Text.{Str}
use aardvark_dns.Text.Split.{split}
use aardvark_dns.Text.Case.{is_ascii, to_lowercase}
use aardvark_dns.Text.Join.{Lacks}
use aardvark_dns.Text.Parts.{KeepsLow, split-Lacks_sep, split-Lacks_same, to_lowercase-Lacks}
use aardvark_dns.Text.Lower.{ascii_lower-ascii_lower, is_ascii-ascii_lower}
use aardvark_dns.Result.{Result, ok, ◌>>=◌, >>=-eq-ok, ok-injective}
use aardvark_dns.Error.{IoError, from_io}
use aardvark_dns.Net.Addr.{IpAddr}
use aardvark_dns.Config.Entry.{CtrEntry, ParsedNetworkConfig}
use aardvark_dns.Config.File.{
  Lines, no_lines, check_names, parse_entry, parse_network, parse_line, parse_lines, finish,
  parse_config,
}

module _ (unicode : Str → Str) where
  -- The text is its own lower-case form.
  abbrev pub IsLower : Str → Type 0
  IsLower s = to_lowercase unicode s ≡ s

  -- In lower case, without a space or a line break.
  pub record IsWord (s : Str) : Type 0 where
    pub lower : IsLower s
    pub no_space : Lacks b' ' s
    pub no_newline : Lacks b'\n' s

  pub record IsValidEntry (entry : CtrEntry) : Type 0 where
    pub id : IsWord entry.id
    pub names : All (λ n. IsWord n × Lacks b',' n) entry.aliases

  pub record IsValidConfig (c : ParsedNetworkConfig) : Type 0 where
    pub has_bind : c.network_bind_ip ≢ []
    pub entries : All IsValidEntry c.container_entry

  module _ (idempotent : (s : Str) → is_ascii s ≡ false → IsLower (unicode s))
      (keeps : KeepsLow unicode) where
    IsLower-twice : (s : Str) → IsLower (to_lowercase unicode s)
    unfolding to_lowercase
    IsLower-twice s = elim (Bool-cases (is_ascii s)) [
      | inl ascii ↦ rw (ascii, is_ascii-ascii_lower s ascii) (ascii_lower-ascii_lower s)
      | inr wide ↦ rw wide (idempotent s wide)
    ]

    lowered_part : (s : Str) → Lacks b' ' s → Lacks b'\n' s → IsWord (to_lowercase unicode s)
    lowered_part s space newline = record {
      lower = IsLower-twice s;
      no_space = to_lowercase-Lacks unicode keeps b' ' s (omega arith) space;
      no_newline = to_lowercase-Lacks unicode keeps b'\n' s (omega arith) newline;
    }

    lowered_parts :
        (names : List Str)
        → All (Lacks b',') names
        → All (Lacks b' ') names
        → All (Lacks b'\n') names
        → All (λ n. IsWord n × Lacks b',' n) (map (to_lowercase unicode) names)
    lowered_parts [] commas spaces newlines = tt
    lowered_parts (n ∷ names) commas spaces newlines = (
      (
        lowered_part n spaces.0 newlines.0,
        to_lowercase-Lacks unicode keeps b',' n (omega arith) commas.0,
      ),
      lowered_parts names commas.1 spaces.1 newlines.1,
    )

    same_names :
        (path line : Str) (names aliases : List Str)
        → check_names path line names ≡ ok aliases
        → names ≡ aliases
    same_names path line [] aliases h = cc
    same_names path line (n ∷ names) aliases h = ok-injective h

    entry_ok :
        (path line : Str) (columns : List Str) (entry : CtrEntry)
        → All (Lacks b' ') columns
        → All (Lacks b'\n') columns
        → parse_entry unicode path line columns ≡ ok entry
        → IsValidEntry entry
    unfolding parse_entry
    entry_ok path line (id ∷ a ∷ b ∷ names ∷ more) entry spaces newlines h =
        let listed = split b',' names in
        let checked : check_names path line (map (to_lowercase unicode) listed) ≡ ok entry.aliases =
          ground arith in
        let same_id : to_lowercase unicode id ≡ entry.id = ground arith in
        let (_, (_, (_, (name_space, _)))) = spaces in
        let (_, (_, (_, (name_newline, _)))) = newlines in
        record {
          id = subst IsWord same_id (lowered_part id spaces.0 newlines.0);
          names =
              subst (All (λ n. IsWord n × Lacks b',' n))
                (same_names path line (map (to_lowercase unicode) listed) entry.aliases checked)
                (lowered_parts listed (split-Lacks_sep b',' names)
                  (split-Lacks_same b',' b' ' names name_space)
                  (split-Lacks_same b',' b'\n' names name_newline));
        }
    entry_ok path line _ entry spaces newlines h = cc

    line_ok :
        (path : Str) (s s' : Lines) (line : Str)
        → Lacks b'\n' line
        → All IsValidEntry s.ctrs
        → parse_line unicode path s line ≡ ok s'
        → All IsValidEntry s'.ctrs
    unfolding parse_line
    line_ok path s s' [] newline valid h = rw (← ok-injective h) valid
    line_ok path s s' (c ∷ line) newline valid h = elim (Bool-cases s.is_first) [
      | inl first ↦ subst (All IsValidEntry) (same_ctrs first) valid
      | inr later ↦
          let (entry, parsed, same) =
            >>=-eq-ok (parse_entry unicode path (c ∷ line) (split b' ' (c ∷ line)))
              (λ entry. ok (record s { is_first = false; ctrs = s.ctrs ++ entry ∷ [] }))
              (rw later at h) in
          subst (λ (x : Lines). All IsValidEntry x.ctrs) (ok-injective same)
            (All-append IsValidEntry s.ctrs (entry ∷ []) valid (
              entry_ok path (c ∷ line) (split b' ' (c ∷ line)) entry
                  (split-Lacks_sep b' ' (c ∷ line)) (split-Lacks_same b' ' b'\n' (c ∷ line) newline)
                  parsed,
              tt,
            ))
    ]
      where
        same_ctrs : s.is_first ≡ true → s.ctrs ≡ s'.ctrs
        same_ctrs first =
            let (b, parsed, same) =
              >>=-eq-ok (parse_network path (split b' ' (c ∷ line)))
                (λ (b : List IpAddr × List IpAddr). ok (record s {
                  is_first = false;
                  bind_addrs = s.bind_addrs ++ b.0;
                  network_dns_servers = s.network_dns_servers ++ b.1;
                }))
                (rw first at h) in
            ap (λ (x : Lines). x.ctrs) (ok-injective same)

    lines_ok :
        (path : Str) (lines : List Str) (s s' : Lines)
        → All (Lacks b'\n') lines
        → All IsValidEntry s.ctrs
        → parse_lines unicode path s lines ≡ ok s'
        → All IsValidEntry s'.ctrs
    unfolding parse_lines
    lines_ok path [] s s' newlines valid h = rw (← ok-injective h) valid
    lines_ok path (line ∷ lines) s s' newlines valid h =
        let (u, now, later) =
          >>=-eq-ok (parse_line unicode path s line) (λ u. parse_lines unicode path u lines) h in
        lines_ok path lines u s' newlines.1 (line_ok path s u line newlines.0 valid now) later

    finish_ok :
        (path : Str) (s : Lines) (c : ParsedNetworkConfig)
        → All IsValidEntry s.ctrs
        → finish unicode path s ≡ ok c
        → IsValidConfig c
    finish_ok path s c valid h = elim (Bool-cases (is_empty s.bind_addrs)) [
      | inl none_given ↦ absurd (cc (rw none_given at h))
      | inr given ↦
          subst IsValidConfig (ok-injective (rw given at h))
            (record { has_bind = ground arith; entries = valid })
    ]

    -- A file that is accepted names a bind address; if Unicode's lower-case table gives lower-case
    -- text and makes no char that stands before the letters of ASCII, ids and names are in lower
    -- case and have no space and no line break, and names have no comma.
    pub parse_config-IsValidConfig :
        (path : Str) (content : Result Str IoError) (c : ParsedNetworkConfig)
        → parse_config unicode path content ≡ ok c
        → IsValidConfig c
    unfolding parse_config
    parse_config-IsValidConfig path content c h =
        let (text, _, rest) =
          >>=-eq-ok (from_io content)
            (λ text.
              parse_lines unicode path no_lines (split b'\n' text) >>= λ s. finish unicode path s)
            h in
        let (s, lines, last) =
          >>=-eq-ok (parse_lines unicode path no_lines (split b'\n' text))
            (λ s. finish unicode path s) rest in
        finish_ok path s c
          (lines_ok path (split b'\n' text) no_lines s (split-Lacks_sep b'\n' text) tt lines) last
