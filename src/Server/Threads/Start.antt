-- ===== src/Server/Threads/Start.antt =====
-- The loop of `stop_and_start_threads` that starts tasks.
use aardvark_dns.Prelude.{
  ℕ, ◌≡◌, ◌≢◌, inl, inr, refl, sym, ◌∙◌, ap, true, false, List, [], ◌∷◌, ◌++◌, some, Has,
  Bool-cases, append_assoc, append-nil, All, All-append, length,
}
use aardvark_dns.Prelude.Classes.{Eq, pair_eq, ◌==◌, ==_iff}
use aardvark_dns.Text.{Str, str_eq}
use aardvark_dns.HashMap.{get, insert, keys}
use aardvark_dns.HashMap.Laws.{get-insert}
use aardvark_dns.HashMap.Keys.{Distinct-insert}
use aardvark_dns.HashSet.{Distinct, contains, contains_iff}
use aardvark_dns.Result.{Result-cases}
use aardvark_dns.Error.{AardvarkErrorList, nil, cons, IoError, push}
use aardvark_dns.Net.Addr.{IpAddr, SocketAddr, socket_addr}
use aardvark_dns.Server.Threads.{
  Transport, udp, tcp, Event, bind, spawn, shut_down, await, Binder, Starting, failed_bind,
  start_thread, start_threads,
}

-- The event belongs to the start of a task.
abbrev pub IsStart : Event → Type 0
IsStart (bind transport addr) = Unit
IsStart (spawn network ip) = Unit
IsStart (shut_down network ip) = ⊥
IsStart (await network ip) = ⊥

false-ne-true : false ≢ true
false-ne-true e = cc

push-ne-nil : (l : AardvarkErrorList) (x : _) → push l x ≢ nil
unfolding push
push-ne-nil nil x e = cc
push-ne-nil (cons y ys) x e = cc

module _ {Ip : Type 0} ⦃e : Eq Ip⦄ (into : Ip → IpAddr) (display : SocketAddr → Str)
    (binder : Binder) (port : ℕ) where
  -- What the start of the tasks `started` makes of a state.
  pub record Started (started : List (Str × Ip)) (s s' : Starting Ip) : Type 0 where
    pub kept :
        (key : Str × Ip)
        → (Has key started → ⊥)
        → get s'.threads.handles key ≡ get s.threads.handles key
    pub served :
        s'.errors ≡ nil
        → (key : Str × Ip) → Has key started
        → (handle : ℕ) × (get s'.threads.handles key ≡ some handle)
    pub clean : s'.errors ≡ nil → s.errors ≡ nil
    pub news : List Event
    pub events : s'.threads.events ≡ s.threads.events ++ news
    pub only_starts : All IsStart news
    pub unique : Distinct (keys s.threads.handles) → Distinct (keys s'.threads.handles)

  failed-Started :
      (s : Starting Ip) (key : Str × Ip) (transport : Transport) (addr : SocketAddr)
      (es more : List Event) (why : IoError)
      → es ≡ s.threads.events ++ more
      → All IsStart more
      → Started (key ∷ []) s (failed_bind into display binder port s transport addr es why)
  failed-Started s key transport addr es more why appended starts = record {
    kept = λ j new. refl;
    served = λ none_left. absurd (push-ne-nil s.errors _ none_left);
    clean = λ none_left. absurd (push-ne-nil s.errors _ none_left);
    news = more;
    events = appended;
    only_starts = starts;
    unique = λ d. d;
  }

  -- The state behind a start of the task.
  abbrev with_task : Starting Ip → Str × Ip → ℕ → List Event → Starting Ip
  with_task s key handle es = record {
    threads = record { handles = insert s.threads.handles key handle; events = es };
    errors = s.errors;
  }

  with_task-Started :
      (s : Starting Ip) (key : Str × Ip) (handle : ℕ) (es more : List Event)
      → es ≡ s.threads.events ++ more
      → All IsStart more
      → Started (key ∷ []) s (with_task s key handle es)
  with_task-Started s key handle es more appended starts = record {
    kept = λ j new. elim (Bool-cases (key == j)) [
      | inl same ↦ absurd (new (inl (sym ((==_iff key j).0 same))))
      | inr differs ↦ rw (get-insert s.threads.handles key j handle, differs) refl
    ];
    served = λ none_left j m. elim m [
      | inl eq ↦
          (handle, rw (get-insert s.threads.handles key j handle, (==_iff key j).1 (sym eq)) refl)
      | inr x ↦ absurd x
    ];
    clean = λ none_left. none_left;
    news = more;
    events = appended;
    only_starts = starts;
    unique = λ d. Distinct-insert s.threads.handles key handle d;
  }

  abbrev addr_of : Str × Ip → SocketAddr
  addr_of key = socket_addr (into key.1) port

  -- One key, on each of the three branches.
  start_thread-Started :
      (s : Starting Ip) (key : Str × Ip)
      → Started (key ∷ []) s (start_thread into display binder port s key)
  unfolding start_thread
  start_thread-Started s key =
      let addr = addr_of key in
      let asked_udp = s.threads.events ++ bind udp addr ∷ [] in
      let asked_tcp = asked_udp ++ bind tcp addr ∷ [] in
      elim (Result-cases (binder s.threads.events udp addr)) [
        | inl (_, h) ↦ elim (Result-cases (binder asked_udp tcp addr)) [
          | inl (_, h') ↦
              rw (h, h', start_thread)
                (with_task-Started s key (length asked_tcp)
                  (asked_tcp ++ spawn key.0 (into key.1) ∷ [])
                  (bind udp addr ∷ bind tcp addr ∷ spawn key.0 (into key.1) ∷ [])
                  (append_assoc asked_udp _ _ ∙ append_assoc s.threads.events _ _)
                  (tt, (tt, (tt, tt))))
          | inr (why, h') ↦
              rw (h, h', start_thread)
                (failed-Started s key tcp addr asked_tcp (bind udp addr ∷ bind tcp addr ∷ []) why
                  (append_assoc s.threads.events _ _) (tt, (tt, tt)))
        ]
        | inr (why, h) ↦
            rw (h, start_thread)
              (failed-Started s key udp addr asked_udp (bind udp addr ∷ []) why refl (tt, tt))
      ]

  then-Started :
      (s₀ s₁ s₂ : Starting Ip) (key : Str × Ip) (more : List (Str × Ip))
      → Started (key ∷ []) s₀ s₁
      → Started more s₁ s₂
      → Started (key ∷ more) s₀ s₂
  then-Started s₀ s₁ s₂ key more first rest = record {
    kept = λ j new.
        rest.kept j (λ m. new (inr m))
        ∙ first.kept j (λ m. elim m [ inl eq ↦ new (inl eq) | inr x ↦ absurd x ]);
    served = λ none_left j m. elim (Bool-cases (contains more j)) [
      | inl later ↦ rest.served none_left j ((contains_iff more j).0 later)
      | inr never ↦
          let not_later =
            λ (m' : Has j more). false-ne-true (sym never ∙ (contains_iff more j).1 m') in
          elim m [
            | inr m' ↦ absurd (not_later m')
            | inl eq ↦
                let (handle, here) = first.served (rest.clean none_left) j (inl eq) in
                (handle, rest.kept j not_later ∙ here)
          ]
    ];
    clean = λ none_left. first.clean (rest.clean none_left);
    news = first.news ++ rest.news;
    events =
        rest.events
        ∙ ap (λ (es : List Event). es ++ rest.news) first.events
        ∙ append_assoc s₀.threads.events first.news rest.news;
    only_starts = All-append IsStart first.news rest.news first.only_starts rest.only_starts;
    unique = λ d. rest.unique (first.unique d);
  }

  -- The loop: it keeps the other tasks, and without an error it has started every one of its.
  pub start_threads-Started :
      (s : Starting Ip) (started : List (Str × Ip))
      → Started started s (start_threads into display binder port s started)
  unfolding start_threads
  start_threads-Started s [] = record {
    kept = λ j new. refl;
    served = λ none_left j m. absurd m;
    clean = λ none_left. none_left;
    news = [];
    events = sym (append-nil s.threads.events);
    only_starts = tt;
    unique = λ d. d;
  }
  start_threads-Started s (key ∷ more) =
      then-Started s _ _ key more (start_thread-Started s key)
        (start_threads-Started (start_thread into display binder port s key) more)
