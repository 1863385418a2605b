-- ===== src/Config/Contents/Run.antt =====
-- A successful run of `parse_configs`, taken apart.
use aardvark_dns.Prelude.{◌≡◌, ◌↔◌, sym, ◌∙◌, subst, [], Bool, true, false, List, Has}
use aardvark_dns.Text.{Str}
use aardvark_dns.Result.{Result, ok, err, ◌>>=◌, >>=-eq-ok, ok-injective}
use aardvark_dns.Error.{IoError, from_io}
use aardvark_dns.Net.Addr.{IpAddr}
use aardvark_dns.HashMap.{HashMap}
use aardvark_dns.Config.Directory.{
  DirEntry, FileSystem, Tables, no_tables, Parsed, Order, add_configs, build_ctrs, result_of,
  finish_tables, parse_directory, parse_configs,
}

-- `order` visits every entry of a map, and no other.
abbrev pub VisitsAll : Order → Type 0
VisitsAll order = (m : List (Str × List IpAddr)) (e : Str × List IpAddr) → Has e (order m) ↔ Has e m

from_io-ok : {A : Type 0} (r : Result A IoError) {a : A} → from_io r ≡ ok a → r ≡ ok a
from_io-ok (ok a) h = cc
from_io-ok (err e) h = cc

module _ (unicode : Str → Str) (order : Order) (domain : Str) (fs : FileSystem) (dir : Str)
    (configs : List (Result DirEntry IoError)) where
  -- The tables behind the loop over the files, and what became of them.
  pub record Run (r : Parsed) : Type 0 where
    pub tables : Tables
    pub loop : add_configs unicode fs.read_to_string no_tables configs ≡ ok tables
    pub ctrs : HashMap IpAddr (List Str)
    pub built : build_ctrs tables.network_membership [] (order tables.container_ips) ≡ ok ctrs
    pub result : r ≡ result_of domain tables ctrs

  parse_directory-Run :
      (r : Parsed) (is_dir : Bool)
      → fs.read_dir dir ≡ ok configs
      → parse_directory unicode order domain fs dir is_dir ≡ ok r
      → Run r
  unfolding finish_tables
  parse_directory-Run r false listing h = cc
  parse_directory-Run r true listing h =
      let (listed, same, rest) =
        >>=-eq-ok (from_io (fs.read_dir dir))
          (λ cs. add_configs unicode fs.read_to_string no_tables cs >>= λ t.
            finish_tables unicode order domain t)
          h in
      let listed_here = ok-injective (sym (from_io-ok (fs.read_dir dir) same) ∙ listing) in
      let (t, loop, last) =
        >>=-eq-ok (add_configs unicode fs.read_to_string no_tables configs)
          (λ t. finish_tables unicode order domain t)
          (subst
            (λ cs.
              (add_configs unicode fs.read_to_string no_tables cs >>= λ t.
              finish_tables unicode order domain t)
              ≡ ok r)
            listed_here rest) in
      let (ctrs, built, done) =
        >>=-eq-ok (build_ctrs t.network_membership [] (order t.container_ips))
          (λ ctrs. ok (result_of domain t ctrs)) last in
      record {
        tables = t;
        loop = loop;
        ctrs = ctrs;
        built = built;
        result = sym (ok-injective done);
      }

  pub parse_configs-Run :
      (r : Parsed)
      → fs.read_dir dir ≡ ok configs
      → parse_configs unicode order domain fs dir ≡ ok r
      → Run r
  unfolding parse_configs
  parse_configs-Run r listing h =
      let (is_dir, asked, rest) =
        >>=-eq-ok (from_io (fs.is_dir dir)) (λ d. parse_directory unicode order domain fs dir d)
          h in
      parse_directory-Run r is_dir listing rest
