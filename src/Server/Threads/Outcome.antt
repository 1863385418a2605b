-- ===== src/Server/Threads/Outcome.antt =====
-- What `stop_and_start_threads` leaves: the handles are those of the listen addresses.
use aardvark_dns.Prelude.{
  ℕ, ◌≡◌, ◌↔◌, inl, inr, refl, sym, ◌∙◌, ap, Bool, true, false, not, List, [], ◌++◌, none, some,
  Has, Bool-cases, Option-cases, All,
}
use aardvark_dns.Prelude.Classes.{Eq, pair_eq}
use aardvark_dns.Text.{Str, str_eq}
use aardvark_dns.HashMap.{HashMap, get, keys, contains_key}
use aardvark_dns.HashMap.Keys.{Has-keys}
use aardvark_dns.HashSet.{contains, contains_iff, filter, Has-filter, Distinct, Distinct-filter}
use aardvark_dns.Result.{ok}
use aardvark_dns.Error.{AardvarkErrorList, AardvarkResult, nil, cons}
use aardvark_dns.Net.Addr.{IpAddr, SocketAddr}
use aardvark_dns.Server.Threads.{
  Event, Binder, Threads, Starting, awaits, expected_threads, outcome, start_threads,
  stop_and_start_threads,
}
use aardvark_dns.Server.Threads.Expected.{Listens, expected_threads_iff}
use aardvark_dns.Server.Threads.Start.{IsStart, Started, start_threads-Started}
use aardvark_dns.Server.Threads.Stop.{shut_downs, Stopped, stop_threads-Stopped}

-- The function visits the items of a list in some order, each once if no item stands twice.
abbrev pub IsVisit : {A : Type 0} → (List A → List A) → Type 0
IsVisit {A} visit =
    ((l : List A) (a : A) → Has a (visit l) ↔ Has a l)
    × ((l : List A) → Distinct l → Distinct (visit l))

pub outcome-nil : (l : AardvarkErrorList) → outcome l ≡ ok tt → l ≡ nil
outcome-nil nil h = refl
outcome-nil (cons x xs) h = cc

module _ {Ip : Type 0} ⦃e : Eq Ip⦄ (into : Ip → IpAddr) where
  -- The tasks `stopped` end before the first start.
  pub record Reloaded (listen_ips : HashMap Str (List Ip)) (t t' : Threads Ip)
      (r : AardvarkResult (Unit {0})) : Type 0 where
    pub stays :
        (key : Str × Ip) (handle : ℕ)
        → Listens listen_ips key
        → get t.handles key ≡ some handle
        → get t'.handles key ≡ some handle
    pub gone : (key : Str × Ip) → (Listens listen_ips key → ⊥) → get t'.handles key ≡ none
    pub served :
        r ≡ ok tt
        → (key : Str × Ip) → Listens listen_ips key
        → (handle : ℕ) × (get t'.handles key ≡ some handle)
    pub unique : Distinct (keys t'.handles)
    pub stopped : List (Str × Ip)
    pub stopped_iff :
        (key : Str × Ip)
        → Has key stopped
          ↔ (((handle : ℕ) × (get t.handles key ≡ some handle)) × (Listens listen_ips key → ⊥))
    pub news : List Event
    pub events : t'.events ≡ (t.events ++ (shut_downs into stopped ++ awaits into stopped)) ++ news
    pub only_starts : All IsStart news

not-true : (b : Bool) → not b ≡ true → b ≡ false
not-true true h = sym h
not-true false h = refl

pub not-both : (b : Bool) → b ≡ true → b ≡ false → ⊥
not-both b holds fails = cc

module _ {Ip : Type 0} ⦃e : Eq Ip⦄ where
  -- What `contains_key` tests.
  has_key :
      (t : Threads Ip) (key : Str × Ip) {handle : ℕ}
      → get t.handles key ≡ some handle
      → contains_key t.handles key ≡ true
  has_key t key here = rw (here, contains_key) refl

  lacks_key :
      (t : Threads Ip) (key : Str × Ip)
      → get t.handles key ≡ none
      → contains_key t.handles key ≡ false
  lacks_key t key here = rw (here, contains_key) refl

  abbrev ShutDown : HashMap Str (List Ip) → Threads Ip → Str × Ip → Type 0
  ShutDown listen_ips t key =
      ((handle : ℕ) × (get t.handles key ≡ some handle)) × (Listens listen_ips key → ⊥)

  -- A key that is not listened on is not expected.
  unexpected :
      (listen_ips : HashMap Str (List Ip)) (key : Str × Ip)
      → (Listens listen_ips key → ⊥)
      → not (contains (expected_threads [] listen_ips) key) ≡ true
  unexpected listen_ips key never =
      elim (Bool-cases (contains (expected_threads [] listen_ips) key)) [
        | inl holds ↦ absurd (
            never (
              (expected_threads_iff listen_ips key).0
                ((contains_iff (expected_threads [] listen_ips) key).0 holds)))
        | inr fails ↦ rw fails refl
      ]

module _ {Ip : Type 0} ⦃e : Eq Ip⦄ (visit : List (Str × Ip) → List (Str × Ip))
    (IsVisit-visit : IsVisit visit) (listen_ips : HashMap Str (List Ip)) where
  abbrev to_shut_down : Threads Ip → List (Str × Ip)
  to_shut_down t =
      filter (λ k. not (contains (expected_threads [] listen_ips) k)) (visit (keys t.handles))

  -- What is stopped: the keys with a handle that are not expected.
  to_shut_down_iff :
      (t : Threads Ip) (key : Str × Ip) → Has key (to_shut_down t) ↔ ShutDown listen_ips t key
  to_shut_down_iff t key =
      let expected = expected_threads [] listen_ips in
      let kept = Has-filter (λ k. not (contains expected k)) (visit (keys t.handles)) key in
      (
        λ m. (
          (Has-keys t.handles key).0 ((IsVisit-visit.0 (keys t.handles) key).0 (kept.0 m).0),
          λ l.
              not-both (contains expected key)
                ((contains_iff expected key).1 ((expected_threads_iff listen_ips key).1 l))
                (not-true (contains expected key) (kept.0 m).1),
        ),
        λ (here, never). kept.1 (
          (IsVisit-visit.0 (keys t.handles) key).1 ((Has-keys t.handles key).1 here),
          unexpected listen_ips key never,
        ),
      )

  abbrev to_start : Threads Ip → List (Str × Ip)
  to_start t = filter (λ k. not (contains_key t.handles k)) (visit (expected_threads [] listen_ips))

  -- What is started: the expected keys without a handle.
  to_start_iff :
      (t : Threads Ip) (key : Str × Ip)
      → Has key (to_start t) ↔ (Listens listen_ips key × (contains_key t.handles key ≡ false))
  to_start_iff t key =
      let expected = expected_threads [] listen_ips in
      let kept = Has-filter (λ k. not (contains_key t.handles k)) (visit expected) key in
      (
        λ m. (
          (expected_threads_iff listen_ips key).0 ((IsVisit-visit.0 expected key).0 (kept.0 m).0),
          not-true (contains_key t.handles key) (kept.0 m).1,
        ),
        λ (l, new). kept.1 (
          (IsVisit-visit.0 expected key).1 ((expected_threads_iff listen_ips key).1 l),
          rw new refl,
        ),
      )

  -- `t₁` is what the stop leaves.
  module _ (into : Ip → IpAddr) (t t₁ : Threads Ip) (st : Stopped into (to_shut_down t) t t₁) where
    stays_here :
        (key : Str × Ip) {handle : ℕ}
        → Listens listen_ips key
        → get t.handles key ≡ some handle
        → get t₁.handles key ≡ some handle
    stays_here key l here = elim (Bool-cases (contains (to_shut_down t) key)) [
      | inl holds ↦
          absurd (((to_shut_down_iff t key).0 ((contains_iff (to_shut_down t) key).0 holds)).1 l)
      | inr fails ↦ st.left key ∙ rw fails here
    ]

    gone_here : (key : Str × Ip) → (Listens listen_ips key → ⊥) → get t₁.handles key ≡ none
    gone_here key never = elim (Bool-cases (contains (to_shut_down t) key)) [
      | inl holds ↦ st.left key ∙ rw holds refl
      | inr fails ↦ elim (Option-cases (get t.handles key)) [
        | inr (handle, here) ↦ absurd (
            not-both (contains (to_shut_down t) key)
              ((contains_iff (to_shut_down t) key).1
                ((to_shut_down_iff t key).1 ((handle, here), never)))
              fails)
        | inl lost ↦ st.left key ∙ rw fails lost
      ]
    ]

    -- `s` is what the start leaves.
    module _ (display : SocketAddr → Str) (binder : Binder) (port : ℕ) (s : Starting Ip)
        (sd : Started into display binder port
          (to_start t₁)
          (record { threads = t₁; errors = nil })
          s) where
      stays_on :
          (key : Str × Ip) (handle : ℕ)
          → get t₁.handles key ≡ some handle
          → get s.threads.handles key ≡ some handle
      stays_on key handle here =
          sd.kept key (λ m.
            not-both (contains_key t₁.handles key) (has_key t₁ key here)
              ((to_start_iff t₁ key).0 m).1)
          ∙ here

      reloaded : Distinct (keys t.handles) → Reloaded into listen_ips t s.threads (outcome s.errors)
      reloaded d = record {
        stays = λ key handle l here. stays_on key handle (stays_here key l here);
        gone = λ key never.
            sd.kept key (λ m. never ((to_start_iff t₁ key).0 m).0) ∙ gone_here key never;
        served = λ fine key l. elim (Option-cases (get t₁.handles key)) [
          | inr (handle, here) ↦ (handle, stays_on key handle here)
          | inl lost ↦
              sd.served (outcome-nil s.errors fine) key
                ((to_start_iff t₁ key).1 (l, lacks_key t₁ key lost))
        ];
        unique = sd.unique (st.unique d);
        stopped = to_shut_down t;
        stopped_iff = to_shut_down_iff t;
        news = sd.news;
        events = sd.events ∙ ap (λ (es : List Event). es ++ sd.news) st.events;
        only_starts = sd.only_starts;
      }

module _ {Ip : Type 0} ⦃e : Eq Ip⦄ (into : Ip → IpAddr) (display : SocketAddr → Str)
    (binder : Binder) (port : ℕ) (visit : List (Str × Ip) → List (Str × Ip))
    (IsVisit-visit : IsVisit visit) where
  -- From tasks under distinct keys a reload does not panic; the tasks of listen addresses that
  -- stay keep their handles, all others are stopped before the first start, and if the result is
  -- `Ok` every listen address has a handle.
  pub stop_and_start_threads-Reloaded :
      (listen_ips : HashMap Str (List Ip)) (t : Threads Ip)
      → Distinct (keys t.handles)
      → (t' : Threads Ip) × (r : AardvarkResult (Unit {0})) × (stop_and_start_threads into display
            binder port visit listen_ips t
          ≡ some (t', r))
        × Reloaded into listen_ips t t' r
  unfolding stop_and_start_threads
  stop_and_start_threads-Reloaded listen_ips t d =
      let stopped = to_shut_down visit IsVisit-visit listen_ips t in
      let (t₁, done, st) =
        stop_threads-Stopped into t stopped
          (Distinct-filter _ (visit (keys t.handles)) (IsVisit-visit.1 (keys t.handles) d))
          (λ key m. ((to_shut_down_iff visit IsVisit-visit listen_ips t key).0 m).0) in
      let s : Starting Ip = record { threads = t₁; errors = nil } in
      let started = to_start visit IsVisit-visit listen_ips t₁ in
      let s' = start_threads into display binder port s started in
      (
        s'.threads,
        outcome s'.errors,
        rw done refl,
        reloaded visit IsVisit-visit listen_ips into t t₁ st display binder port s'
            (start_threads-Started into display binder port s started) d,
      )
