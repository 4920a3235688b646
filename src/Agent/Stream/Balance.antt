-- ===== src/Agent/Stream/Balance.antt =====
-- The closing of the body of a `NestedResultStream` of agent/client.go.
use nekiro_sdk_go.Prelude.{
  Bytes, true, false, none, some, bytes_eq, if◌then◌else◌, ◌≡◌, ◌↔◌, inl, inr, arith, Bool-cases,
  Option-cases,
}
use nekiro_sdk_go.Errors.{sentinel, eof, errors_is, Result, ok, err, Result-cases}
use nekiro_sdk_go.Contracts.{StreamContract}
use nekiro_sdk_go.Agent.Sse.{read_sse_frame}
use nekiro_sdk_go.Agent.Stream.{
  NestedStream, stream_closed, close_body, recv_eof, decode_frame, recv_accept, recv_first,
  recv_event, recv_frame, recv, close,
}

-- The body's `Close` has been called once if it is marked closed, else never; a finished or closed
-- stream has closed its body.
pub record IsBalanced {Sequence : Type 0} (s : NestedStream Sequence) : Type 0 where
  pub counted : s.closes ≡ (if s.body_closed then 1 else 0)
  pub finished_closed : s.finished ≡ true → s.body_closed ≡ true
  pub closed_closed : s.closed ≡ true → s.body_closed ≡ true

module _ (c : StreamContract) where
  open c use {Event, Sequence}

  recv_eof-IsBalanced : (s : NestedStream Sequence) → IsBalanced s → IsBalanced (recv_eof c s).0
  unfolding recv_eof close_body
  recv_eof-IsBalanced s v = ground arith

  recv_accept-IsBalanced :
      (s : NestedStream Sequence) (q : Sequence) (ev : Event)
      → IsBalanced s
      → IsBalanced (recv_accept c s q ev).0
  unfolding recv_accept
  recv_accept-IsBalanced s q ev v = ground arith

  recv_first-IsBalanced :
      (s : NestedStream Sequence) (ev : Event) → IsBalanced s → IsBalanced (recv_first c s ev).0
  unfolding recv_first
  recv_first-IsBalanced s ev v = elim (Bool-cases (bytes_eq (c.event_type ev) c.accepted_type)) [
    | inr b ↦ rw b v
    | inl b ↦
        elim (Result-cases (c.new_sequence (c.event_invocation ev) s.root_task_id s.trace_id)) [
          | inr (e, n) ↦ rw (b, n) v
          | inl (q, n) ↦
              rw (b, n)
                (recv_accept-IsBalanced
                  (record s { sequence = some q; invocation_id = c.event_invocation ev }) q ev
                  (ground arith))
        ]
  ]

  recv_event-IsBalanced :
      (s : NestedStream Sequence) (ev : Event) → IsBalanced s → IsBalanced (recv_event c s ev).0
  unfolding recv_event
  recv_event-IsBalanced s ev v = elim (Option-cases s.sequence) [
    | inl e ↦ rw (e, recv_event) (recv_first-IsBalanced s ev v)
    | inr (q, e) ↦ rw (e, recv_event) (recv_accept-IsBalanced s q ev v)
  ]

  recv_frame-IsBalanced :
      (s : NestedStream Sequence) (m : Result Bytes)
      → IsBalanced s
      → IsBalanced (recv_frame c s m).0
  unfolding recv_frame
  recv_frame-IsBalanced s (err e) v = elim (Bool-cases (errors_is e eof)) [
    | inl t ↦ rw t (recv_eof-IsBalanced s v)
    | inr t ↦ rw t v
  ]
  recv_frame-IsBalanced s (ok frame) v = elim (Result-cases (decode_frame c frame)) [
    | inl (ev, d) ↦ rw (d, recv_frame) (recv_event-IsBalanced s ev v)
    | inr (e, d) ↦ rw (d, recv_frame) v
  ]

  pub recv-closed :
      (s : NestedStream Sequence) → s.closed ≡ true → recv c s ≡ (s, err stream_closed)
  unfolding recv
  recv-closed s u = ground arith

  pub recv-finished :
      (s : NestedStream Sequence)
      → s.closed ≡ false
      → s.finished ≡ true
      → recv c s ≡ (s, err (sentinel eof))
  unfolding recv
  recv-finished s u f = ground arith

  abbrev pub behind : NestedStream Sequence → NestedStream Sequence
  behind s = record s { reader = (read_sse_frame s.event_limit s.reader).1 }

  pub recv-reads :
      (s : NestedStream Sequence)
      → s.closed ≡ false
      → s.finished ≡ false
      → recv c s ≡ recv_frame c (behind s) (read_sse_frame s.event_limit s.reader).0
  unfolding recv
  recv-reads s u f = ground arith

  -- Every `Recv` of a nested stream keeps it balanced: its body is closed at most once, and is closed
  -- when the stream is finished or closed.
  pub recv-IsBalanced : (s : NestedStream Sequence) → IsBalanced s → IsBalanced (recv c s).0
  recv-IsBalanced s v = elim (Bool-cases s.closed) [
    | inl u ↦ rw (recv-closed s u) v
    | inr u ↦ elim (Bool-cases s.finished) [
      | inl f ↦ rw (recv-finished s u f) v
      | inr f ↦ rw (recv-reads s u f) (recv_frame-IsBalanced (behind s) _ (ground arith))
    ]
  ]

  -- Whatever came before, `Close` leaves the body of a balanced nested stream closed exactly once.
  pub close-closes : (s : NestedStream Sequence) → IsBalanced s → (close c s).0.closes ≡ 1
  unfolding close close_body
  close-closes s v = ground arith

  -- On a balanced nested stream that is not closed, `Close` returns nil exactly when the stream has
  -- finished; else it reports the interruption, with the error of the body's `Close` if there is one.
  pub close-nested_nil_iff :
      (s : NestedStream Sequence)
      → IsBalanced s
      → s.closed ≡ false
      → ((close c s).1 ≡ none) ↔ (s.finished ≡ true)
  unfolding close close_body
  close-nested_nil_iff s v u = ground arith
