-- ===== src/Dns/Forward/First.antt =====
-- `forward_to_servers`: which servers are asked, and which answer the client gets.
use aardvark_dns.Prelude.{
  ℕ, zero, suc, ◌+◌, ◌%◌, ◌^◌, ◌≡◌, ◌≢◌, ◌⊎◌, inl, inr, refl, ap, ◌∙◌, List, [], ◌∷◌, ◌++◌, Option,
  none, some, Option-cases, append_assoc, append-nil, length,
}
use aardvark_dns.Net.Addr.{SocketAddr}
use aardvark_dns.Dns.Message.{Hickory, Protocol, Effect}
use aardvark_dns.Dns.Forward.{
  Upstream, Forwarded, default_timeout, div_duration, timeout_of, ask, forward_from,
  forward_to_servers,
}

div_duration-none : (n : ℕ) → div_duration default_timeout n ≡ none → n ≡ 0
div_duration-none zero lost = refl
div_duration-none (suc n) lost = cc

module _ {Name Message : Type 0} (h : Hickory Name Message) (upstream : Upstream Message)
    (src_address : SocketAddr) (req : Message) (proto : Protocol) where
  module _ (timeout : ℕ) where
    -- The reply that comes of asking the server after others, and the time that it takes.
    abbrev pub answer_at : List SocketAddr → SocketAddr → Option (Effect Message)
    answer_at asked addr = (ask h upstream timeout src_address req proto asked addr).0

    abbrev pub time_at : List SocketAddr → SocketAddr → ℕ
    time_at asked addr = (ask h upstream timeout src_address req proto asked addr).1

    -- Asked one after the other behind `asked`, none of the servers leads to a reply.
    abbrev pub Silent : List SocketAddr → List SocketAddr → Type 0
    Silent asked [] = Unit
    Silent asked (addr ∷ nameservers) =
        (answer_at asked addr ≡ none) × Silent (asked ++ addr ∷ []) nameservers

    -- The servers before `addr` are asked in order without a reply, and `addr` leads to the reply.
    pub record FirstReply (asked nameservers : List SocketAddr) (r : Forwarded Message)
        : Type 0 where
      pub before : List SocketAddr
      pub addr : SocketAddr
      pub after : List SocketAddr
      pub effect : Effect Message
      pub splits : nameservers ≡ before ++ addr ∷ after
      pub silent : Silent asked before
      pub replies : answer_at (asked ++ before) addr ≡ some effect
      pub all_asked : r.asked ≡ asked ++ (before ++ addr ∷ [])
      pub answered : r.answer ≡ some effect

    -- All servers are asked without a reply.
    pub record NoReply (asked nameservers : List SocketAddr) (r : Forwarded Message) : Type 0 where
      pub silent : Silent asked nameservers
      pub all_asked : r.asked ≡ asked ++ nameservers
      pub unanswered : r.answer ≡ none

    abbrev pub forwarded : List SocketAddr → ℕ → List SocketAddr → Forwarded Message
    forwarded asked spent nameservers =
        forward_from h upstream timeout src_address req proto asked spent nameservers

    forward_from-cases :
        (asked : List SocketAddr) (spent : ℕ) (nameservers : List SocketAddr)
        → FirstReply asked nameservers (forwarded asked spent nameservers)
          ⊎ NoReply asked nameservers (forwarded asked spent nameservers)
    unfolding forward_from
    forward_from-cases asked spent [] =
        inr (record { silent = tt; all_asked = rw (append-nil asked) refl; unanswered = refl })
    forward_from-cases asked spent (addr ∷ nameservers) =
        elim (Option-cases (answer_at asked addr)) [
          | inr (effect, replied) ↦ inl (record {
            before = [];
            addr = addr;
            after = nameservers;
            effect = effect;
            splits = refl;
            silent = tt;
            replies = rw (append-nil asked) replied;
            all_asked = rw (replied, forward_from) refl;
            answered = rw (replied, forward_from) refl;
          })
          | inl lost ↦
              let later =
                forward_from-cases (asked ++ addr ∷ []) (spent + time_at asked addr) nameservers in
              elim later [
                | inl first ↦ inl (record {
                  before = addr ∷ first.before;
                  addr = first.addr;
                  after = first.after;
                  effect = first.effect;
                  splits = ap (λ (l : List SocketAddr). addr ∷ l) first.splits;
                  silent = (lost, first.silent);
                  replies = rw (← append_assoc asked (addr ∷ []) first.before) first.replies;
                  all_asked =
                      rw (lost, forward_from)
                        (first.all_asked
                          ∙ rw (append_assoc asked (addr ∷ []) (first.before ++ first.addr ∷ []))
                              refl);
                  answered = rw (lost, forward_from) first.answered;
                })
                | inr never ↦ inr (record {
                  silent = (lost, never.silent);
                  all_asked =
                      rw (lost, forward_from)
                        (never.all_asked ∙ rw (append_assoc asked (addr ∷ []) nameservers) refl);
                  unanswered = rw (lost, forward_from) never.unanswered;
                })
              ]
        ]

  -- The number of servers is a multiple of 2 ^ 32 and not 0, and forwarding panics.
  pub record Overflows (nameservers : List SocketAddr) : Type 0 where
    pub some_server : nameservers ≢ []
    pub wraps : length nameservers % 2 ^ 32 ≡ 0
    pub panics : forward_to_servers h upstream nameservers src_address req proto ≡ none

  -- Forwarding returns.
  pub record Returns (nameservers : List SocketAddr) : Type 0 where
    pub timeout : ℕ
    pub timed : timeout_of nameservers ≡ some timeout
    pub forwarded_to : Forwarded Message
    pub returns :
        forward_to_servers h upstream nameservers src_address req proto ≡ some forwarded_to
    pub cases :
        FirstReply timeout [] nameservers forwarded_to ⊎ NoReply timeout [] nameservers forwarded_to

  timeout_of-none :
      (nameservers : List SocketAddr)
      → timeout_of nameservers ≡ none
      → (nameservers ≢ []) × (length nameservers % 2 ^ 32 ≡ 0)
  unfolding timeout_of
  timeout_of-none [] lost = cc
  timeout_of-none (addr ∷ nameservers) lost =
      ((λ e. cc), div_duration-none (length (addr ∷ nameservers) % 2 ^ 32) lost)

  -- The servers are asked in order up to the first whose response can be sent to the client, and
  -- no server behind it is asked; if there is none, all are asked and the client gets no reply. If
  -- the number of servers is a multiple of 2 ^ 32 and not 0, forwarding panics instead.
  pub forward_to_servers-cases :
      (nameservers : List SocketAddr) → Overflows nameservers ⊎ Returns nameservers
  unfolding forward_to_servers
  forward_to_servers-cases nameservers = elim (Option-cases (timeout_of nameservers)) [
    | inl lost ↦
        let (some_server, wraps) = timeout_of-none nameservers lost in
        inl (record {
          some_server = some_server;
          wraps = wraps;
          panics = rw (lost, forward_to_servers) refl;
        })
    | inr (timeout, timed) ↦ inr (record {
      timeout = timeout;
      timed = timed;
      forwarded_to = forwarded timeout [] 0 nameservers;
      returns = rw (timed, forward_to_servers) refl;
      cases = forward_from-cases timeout [] 0 nameservers;
    })
  ]
