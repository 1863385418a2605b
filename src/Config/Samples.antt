-- ===== src/Config/Samples.antt =====
-- Sample directories for the tests: two networks, one of them internal, and a pid file.
pub mod Run
use Prim.Native.String.{String}
use aardvark_dns.Prelude.{true, List, [], ◌∷◌, some, if◌then◌else◌}
use aardvark_dns.Prelude.Classes.{◌==◌}
use aardvark_dns.Text.{Str, str_eq, codes}
use aardvark_dns.Result.{Result, ok, err}
use aardvark_dns.Error.{IoError, not_found, other}
use aardvark_dns.Config.Directory.{DirEntry, utf8, FileSystem}

abbrev pub podman_text : Str
podman_text =
    codes
      "10.88.0.1,fdfd::1 8.8.8.8\n\nAB12 10.88.0.2 fdfd::2 HelloWorld,ab 3.3.3.3\ncd34 10.88.0.3  db"

abbrev pub private_text : Str
private_text = codes "10.89.0.1\nab12 10.89.0.2  hello\n"

abbrev pub file : String → DirEntry
file name = record { path = codes name; file_name = some (utf8 (codes name)) }

abbrev pub gone : IoError
gone = record { kind = not_found; text = codes "gone" }

abbrev pub denied : IoError
denied = record { kind = other; text = codes "denied" }

abbrev pub entries : List (Result DirEntry IoError)
entries =
    ok (file "podman")
    ∷ ok (file "aardvark.pid")
    ∷ err denied
    ∷ ok (file "priv%int")
    ∷ ok (file "lost")
    ∷ []

abbrev pub sample_fs : FileSystem
sample_fs = record {
  is_dir = λ dir. ok true;
  read_dir = λ dir. ok entries;
  read_to_string = λ path.
      if path == codes "podman"
      then ok podman_text
      else if path == codes "priv%int"
      then ok private_text
      else err gone;
}
