-- ===== src/Server/Reload/Tables.antt =====
-- Stopping all tasks of a table.
use aardvark_dns.Prelude.{◌≡◌, ◌∙◌, refl, none, some, Bool-cases, inl, inr, Option-cases}
use aardvark_dns.Prelude.Classes.{Eq, pair_eq}
use aardvark_dns.Text.{Str, str_eq}
use aardvark_dns.HashMap.{get, keys}
use aardvark_dns.HashMap.Keys.{Has-keys}
use aardvark_dns.HashSet.{contains, contains_iff, Distinct}
use aardvark_dns.Net.Addr.{IpAddr}
use aardvark_dns.Server.Threads.{Threads, stop_threads}
use aardvark_dns.Server.Threads.Stop.{stop_threads-Stopped}

-- No task is in the table.
abbrev pub IsIdle : {Ip : Type 0} → ⦃e : Eq Ip⦄ → Threads Ip → Type 0
IsIdle {Ip} t = (key : Str × Ip) → get t.handles key ≡ none

module _ {Ip : Type 0} ⦃e : Eq Ip⦄ (into : Ip → IpAddr) where
  -- Stopping all tasks does not panic and leaves none.
  pub stop_threads-IsIdle :
      (t : Threads Ip)
      → Distinct (keys t.handles)
      → (t' : Threads Ip) × (stop_threads into t none ≡ some t') × IsIdle t'
  unfolding stop_threads
  stop_threads-IsIdle t d =
      let (t', done, st) =
        stop_threads-Stopped into t (keys t.handles) d (λ key m. (Has-keys t.handles key).0 m) in
      (
        t',
        done,
        λ key. elim (Option-cases (get t.handles key)) [
          | inl lost ↦ st.left key ∙ (elim (Bool-cases (contains (keys t.handles) key)) [
            | inl there ↦ rw there refl
            | inr away ↦ rw away lost
          ])
          | inr (handle, here) ↦
              st.left key
              ∙ rw
                  ((contains_iff (keys t.handles) key).1
                    ((Has-keys t.handles key).1 (handle, here)))
                  refl
        ],
      )
