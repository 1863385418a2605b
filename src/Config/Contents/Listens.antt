-- ===== src/Config/Contents/Listens.antt =====
-- The listen addresses that `parse_configs` gives to the server.
use aardvark_dns.Prelude.{◌≡◌, ◌↔◌, inl, inr, refl, sym, subst, List, Has}
use aardvark_dns.Text.{Str, str_eq}
use aardvark_dns.Result.{Result, ok}
use aardvark_dns.Error.{IoError}
use aardvark_dns.HashMap.{HashMap}
use aardvark_dns.HashMap.Visits.{Visits}
use aardvark_dns.Net.Addr.{IpAddr, v4, v6}
use aardvark_dns.Config.Entry.{ParsedNetworkConfig}
use aardvark_dns.Config.Directory.{
  DirEntry, FileSystem, Tables, no_tables, Parsed, Order, add_configs, result_of, parse_configs,
}
use aardvark_dns.Config.Sources.{Configures}
use aardvark_dns.Config.Facts.{files_step}
use aardvark_dns.Config.Facts.Binds.{ListensOn, log-ListensOn, ListensOn-add_parsed}
use aardvark_dns.Config.Contents.Run.{parse_configs-Run}

-- Some file of the directory binds the network `net` to the address.
abbrev pub Binds : (Str → Str) → FileSystem → List (Result DirEntry IoError) → Str → IpAddr → Type 0
Binds unicode fs configs net a =
    (c : ParsedNetworkConfig) × Configures unicode fs.read_to_string configs net c
    × Has a c.network_bind_ip

-- The server is told to listen on the address for the network `net`.
abbrev pub HasListen : Parsed → Str → IpAddr → Type 0
HasListen r net (v4 a) = Visits (Has a) r.listen_4 net
HasListen r net (v6 a) = Visits (Has a) r.listen_6 net

result_of-HasListen :
    (domain : Str) (t : Tables) (ctrs : HashMap IpAddr (List Str)) (net : Str) (a : IpAddr)
    → HasListen (result_of domain t ctrs) net a ≡ ListensOn net a t
unfolding result_of
result_of-HasListen domain t ctrs net (v4 a) = refl
result_of-HasListen domain t ctrs net (v6 a) = refl

module _ (unicode : Str → Str) (fs : FileSystem) (configs : List (Result DirEntry IoError))
    (t : Tables) (loop : add_configs unicode fs.read_to_string no_tables configs ≡ ok t)
    (net : Str) where
  none_yet : (a : IpAddr) → ListensOn net a no_tables → ⊥
  none_yet (v4 a) (ips, m, x) = m
  none_yet (v6 a) (ips, m, x) = m

  listens_lem : (a : IpAddr) → ListensOn net a t ↔ Binds unicode fs configs net a
  listens_lem a =
      let step =
        files_step (ListensOn net a) (λ n c. (n ≡ net) × Has a c.network_bind_ip)
          (log-ListensOn net a) (λ n internal t c. ListensOn-add_parsed n internal net a t c)
          unicode fs.read_to_string configs no_tables t loop in
      (
        λ h. elim (step.0 h) [
          | inl old ↦ absurd (none_yet a old)
          | inr (n, c, d, (e, m)) ↦
              (c, subst (λ k. Configures unicode fs.read_to_string configs k c) e d, m)
        ],
        λ (c, d, m). step.1 (inr (net, c, d, (refl, m))),
      )

module _ (unicode : Str → Str) (order : Order) (domain : Str) (fs : FileSystem) (dir : Str)
    (r : Parsed) (configs : List (Result DirEntry IoError)) (listing : fs.read_dir dir ≡ ok configs)
    (h : parse_configs unicode order domain fs dir ≡ ok r) where
  -- When the directory is read without an error, the server is told to listen on an address for a
  -- network exactly when a file of that network binds the address.
  pub parse_configs-listens :
      (net : Str) (a : IpAddr) → HasListen r net a ↔ Binds unicode fs configs net a
  parse_configs-listens net a =
      let run = parse_configs-Run unicode order domain fs dir configs r listing h in
      let at_run = listens_lem unicode fs configs run.tables run.loop net a in
      subst (λ p. HasListen p net a ↔ Binds unicode fs configs net a) (sym run.result)
        (subst (λ X. X ↔ Binds unicode fs configs net a)
          (sym (result_of-HasListen domain run.tables run.ctrs net a)) at_run)
