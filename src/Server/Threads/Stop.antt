-- ===== src/Server/Threads/Stop.antt =====
-- `stop_threads`: which tasks are left, and that no `unwrap` fails.
use aardvark_dns.Prelude.{
  ℕ, ◌≡◌, inl, inr, refl, sym, ◌∙◌, ap, subst, Bool, true, false, List, [], ◌∷◌, ◌++◌, Option, none,
  some, if◌then◌else◌, map, Has, Bool-cases, append_assoc, append-nil,
}
use aardvark_dns.Prelude.Classes.{Eq, pair_eq, ◌==◌, ==_iff}
use aardvark_dns.Text.{Str, str_eq}
use aardvark_dns.HashMap.{get, remove, keys}
use aardvark_dns.HashMap.Laws.{get-remove}
use aardvark_dns.HashMap.Keys.{Distinct-remove}
use aardvark_dns.HashSet.{contains, Distinct}
use aardvark_dns.Net.Addr.{IpAddr}
use aardvark_dns.Server.Threads.{Event, shut_down, Threads, shut_down_all, awaits, stop_threads}

if-merge :
    {A : Type 0} (b c : Bool) (x : Option A)
    → (if c then none else (if b then none else x)) ≡ (if (if b then true else c) then none else x)
if-merge true true x = refl
if-merge true false x = refl
if-merge false true x = refl
if-merge false false x = refl

module _ {Ip : Type 0} ⦃e : Eq Ip⦄ (into : Ip → IpAddr) where
  abbrev pub shut_downs : List (Str × Ip) → List Event
  shut_downs = map (λ key. shut_down key.0 (into key.1))

  -- What a stop of the tasks `stopped` leaves.
  pub record Stopped (stopped : List (Str × Ip)) (t t' : Threads Ip) : Type 0 where
    pub left :
        (key : Str × Ip)
        → get t'.handles key ≡ (if contains stopped key then none else get t.handles key)
    pub events : t'.events ≡ t.events ++ (shut_downs stopped ++ awaits into stopped)
    pub unique : Distinct (keys t.handles) → Distinct (keys t'.handles)

  abbrev pub Present : Threads Ip → List (Str × Ip) → Type 0
  Present t stopped =
      (key : Str × Ip) → Has key stopped → (handle : ℕ) × (get t.handles key ≡ some handle)

  abbrev without : Threads Ip → Str × Ip → Threads Ip
  without t key = record {
    handles = remove t.handles key;
    events = t.events ++ shut_down key.0 (into key.1) ∷ [];
  }

  shut_down_all-cons :
      (key : Str × Ip) (more : List (Str × Ip)) (t : Threads Ip) {handle : ℕ}
      → get t.handles key ≡ some handle
      → shut_down_all into (key ∷ more) t ≡ shut_down_all into more (without t key)
  unfolding shut_down_all
  shut_down_all-cons key more t here = rw (here, shut_down_all) refl

  still_there :
      (key : Str × Ip) (more : List (Str × Ip)) (t : Threads Ip)
      → (Has key more → ⊥)
      → Present t (key ∷ more)
      → Present (without t key) more
  still_there key more t new p j m = elim (Bool-cases (key == j)) [
    | inl same ↦ absurd (new (subst (λ k. Has k more) (sym ((==_iff key j).0 same)) m))
    | inr differs ↦ rw (get-remove t.handles key j, differs) (p j (inr m))
  ]

  shut_down_all_lem :
      (stopped : List (Str × Ip)) (t : Threads Ip)
      → Distinct stopped
      → Present t stopped
      → (t' : Threads Ip) × (shut_down_all into stopped t ≡ some t')
        × ((key : Str × Ip)
            → get t'.handles key ≡ (if contains stopped key then none else get t.handles key))
        × (t'.events ≡ t.events ++ shut_downs stopped)
        × (Distinct (keys t.handles) → Distinct (keys t'.handles))
  unfolding contains
  shut_down_all_lem [] t d p =
      (t, unfold shut_down_all in refl, λ key. refl, sym (append-nil t.events), λ u. u)
  shut_down_all_lem (key ∷ more) t (new, d) p =
      let (handle, here) = p key (inl refl) in
      let (t', done, left, evs, unique) =
        shut_down_all_lem more (without t key) d (still_there key more t new p) in
      (
        t',
        shut_down_all-cons key more t here ∙ done,
        λ j.
            left j
            ∙ rw (get-remove t.handles key j)
                (if-merge (key == j) (contains more j) (get t.handles j)),
        evs ∙ append_assoc t.events (shut_down key.0 (into key.1) ∷ []) (shut_downs more),
        λ u. unique (Distinct-remove t.handles key u),
      )

  -- Stopping distinct tasks that are there does not panic, and leaves exactly the others; each
  -- is told to stop before the first is awaited.
  pub stop_threads-Stopped :
      (t : Threads Ip) (stopped : List (Str × Ip))
      → Distinct stopped
      → Present t stopped
      → (t' : Threads Ip) × (stop_threads into t (some stopped) ≡ some t') × Stopped stopped t t'
  unfolding stop_threads
  stop_threads-Stopped t stopped d p =
      let (t', done, left, evs, unique) = shut_down_all_lem stopped t d p in
      (
        record { handles = t'.handles; events = t'.events ++ awaits into stopped },
        rw done refl,
        record {
          left = left;
          events =
              ap (λ (es : List Event). es ++ awaits into stopped) evs
              ∙ append_assoc t.events (shut_downs stopped) (awaits into stopped);
          unique = unique;
        },
      )
