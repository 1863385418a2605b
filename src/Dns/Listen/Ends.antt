-- ===== src/Dns/Listen/Ends.antt =====
-- When the event loops end, and what they have done by then.
use mathlib.Core.List.{flat_map}
use aardvark_dns.Prelude.{◌≡◌, refl, ap, true, List, [], ◌∷◌, ◌++◌, All}
use aardvark_dns.Text.{Str}
use aardvark_dns.Dns.Message.{Hickory, proto_udp, proto_tcp, Effect}
use aardvark_dns.Dns.Process.{CoreDnsData}
use aardvark_dns.Dns.Listen.{
  StreamEvent, tcp_message, tcp_error, end_of_stream, timed_out, Incoming, stop_signal, udp_message,
  udp_error, udp_none, accepted, accept_failed, behind, handle, process_tcp_stream, run,
}

-- The event ends the loop of a listener: the stop signal, and a failure of `accept`.
abbrev pub EndsRun : Incoming → Type 0
EndsRun stop_signal = Unit
EndsRun accept_failed = Unit
EndsRun _ = ⊥

-- The event ends the loop of a connection.
abbrev pub EndsStream : StreamEvent → Type 0
EndsStream (tcp_message a) = ⊥
EndsStream _ = Unit

module _ {Name Message : Type 0} (h : Hickory Name Message) (unicode : Str → Str)
    (core : CoreDnsData) where
  -- What one event of a connection leads to by itself.
  abbrev pub of_event : StreamEvent → List (Effect Message)
  of_event (tcp_message a) = handle h unicode core proto_tcp a
  of_event _ = []

  -- What one event of a listener leads to by itself.
  abbrev pub of_incoming : Incoming → List (Effect Message)
  of_incoming (udp_message a) = handle h unicode core proto_udp a
  of_incoming (accepted events) = (process_tcp_stream h unicode core events).effects
  of_incoming _ = []

  -- A connection handles its messages in order up to the first error, end or time-out, and none
  -- behind it.
  pub process_tcp_stream-Ends :
      (before : List StreamEvent) (last : StreamEvent) (after : List StreamEvent)
      → All (λ e. EndsStream e → ⊥) before
      → EndsStream last
      → process_tcp_stream h unicode core (before ++ last ∷ after)
        ≡ record { effects = flat_map of_event before; ended = true }
  unfolding process_tcp_stream flat_map
  process_tcp_stream-Ends [] (tcp_message a) after going ends = absurd ends
  process_tcp_stream-Ends [] tcp_error after going ends = refl
  process_tcp_stream-Ends [] end_of_stream after going ends = refl
  process_tcp_stream-Ends [] timed_out after going ends = refl
  process_tcp_stream-Ends (tcp_message a ∷ before) last after going ends =
      ap (behind (handle h unicode core proto_tcp a))
        (process_tcp_stream-Ends before last after going.1 ends)
  process_tcp_stream-Ends (tcp_error ∷ before) last after going ends = absurd (going.0 tt)
  process_tcp_stream-Ends (end_of_stream ∷ before) last after going ends = absurd (going.0 tt)
  process_tcp_stream-Ends (timed_out ∷ before) last after going ends = absurd (going.0 tt)

  -- A listener handles all that comes before the stop signal or the first failure of `accept`, in
  -- order, and nothing behind it; errors of the UDP stream do not end it.
  pub run-Ends :
      (before : List Incoming) (last : Incoming) (after : List Incoming)
      → All (λ e. EndsRun e → ⊥) before
      → EndsRun last
      → run h unicode core (before ++ last ∷ after)
        ≡ record { effects = flat_map of_incoming before; ended = true }
  unfolding run flat_map
  run-Ends [] stop_signal after going ends = refl
  run-Ends [] accept_failed after going ends = refl
  run-Ends [] (udp_message a) after going ends = absurd ends
  run-Ends [] udp_error after going ends = absurd ends
  run-Ends [] udp_none after going ends = absurd ends
  run-Ends [] (accepted events) after going ends = absurd ends
  run-Ends (udp_message a ∷ before) last after going ends =
      ap (behind (handle h unicode core proto_udp a)) (run-Ends before last after going.1 ends)
  run-Ends (accepted events ∷ before) last after going ends =
      ap (behind (process_tcp_stream h unicode core events).effects)
        (run-Ends before last after going.1 ends)
  run-Ends (udp_error ∷ before) last after going ends = run-Ends before last after going.1 ends
  run-Ends (udp_none ∷ before) last after going ends = run-Ends before last after going.1 ends
  run-Ends (stop_signal ∷ before) last after going ends = absurd (going.0 tt)
  run-Ends (accept_failed ∷ before) last after going ends = absurd (going.0 tt)
