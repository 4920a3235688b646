-- ===== src/Agent/Stream/Events.antt =====
-- The events that a `NestedResultStream` of agent/client.go delivers.
use nekiro_sdk_go.Prelude.{
  Bytes, false, Option, none, some, bytes_eq, bytes_eq_iff, ◌≡◌, ◌≢◌, ◌⊎◌, inl, inr, refl, sym, ap,
  ◌∙◌, subst, arith, Bool-cases, Option-cases,
}
use nekiro_sdk_go.Errors.{eof, errors_is, Result, ok, err, Result-cases}
use nekiro_sdk_go.Contracts.{StreamContract}
use nekiro_sdk_go.Client.Sse.{Reader}
use nekiro_sdk_go.Client.Sse as Gateway
use nekiro_sdk_go.Client.Sse.Line.{IsLive}
use nekiro_sdk_go.Client.Sse.Frame.{IsPayload, frame_of, read_sse_frame-ok}
use nekiro_sdk_go.Agent.Sse.{read_sse_frame, read_sse_frame-Agrees, payload_read}
use nekiro_sdk_go.Agent.Stream.{
  NestedStream, recv_eof, decode_frame, recv_accept, recv_first, recv_event, recv_frame, recv,
}
use nekiro_sdk_go.Agent.Stream.Balance.{recv-closed, recv-finished, recv-reads, behind}

module _ (c : StreamContract) where
  open c use {Event, Sequence}

  -- The sequence that judges an event: the stream's, or the one that a first event starts, which must
  -- be of the accepted type and is bound to the caller's root task and Trace.
  abbrev pub Judges : NestedStream Sequence → Event → Sequence → Type 0
  Judges s ev q =
      (s.sequence ≡ some q)
      ⊎ ((s.sequence ≡ none)
          × (c.event_type ev ≡ c.accepted_type)
          × (c.new_sequence (c.event_invocation ev) s.root_task_id s.trace_id ≡ ok q))

  -- An event was read from the frame at the head of the input, and accepted.
  pub record IsReceived (s s' : NestedStream Sequence) (ev : Event) : Type 0 where
    pub open_stream : (s.closed ≡ false) × (s.finished ≡ false)
    pub payload : Bytes
    pub carried : IsPayload s.event_limit payload
    pub framed : s.reader.pending ≡ frame_of payload s'.reader.pending
    pub decoded : decode_frame c payload ≡ ok ev
    pub judge : Sequence
    pub judges : Judges s ev judge
    pub next : Sequence
    pub accepted : c.accept judge ev ≡ (next, none)
    pub moved : (s'.sequence ≡ some next) × (s'.terminal ≡ c.is_terminal next)

  abbrev IsAccepted : NestedStream Sequence → NestedStream Sequence → Event → Type 0
  IsAccepted s s' ev =
      (q : Sequence) × Judges s ev q
      × ((next : Sequence) × (c.accept q ev ≡ (next, none))
          × (s'.sequence ≡ some next)
          × (s'.terminal ≡ c.is_terminal next)
          × (s'.reader ≡ s.reader))

  recv_accept-ok :
      (s s' : NestedStream Sequence) (q : Sequence) (ev ev' : Event)
      → recv_accept c s q ev ≡ (s', ok ev')
      → (ev ≡ ev')
        × (c.accept q ev ≡ ((c.accept q ev).0, none))
        × (s'.sequence ≡ some (c.accept q ev).0)
        × (s'.terminal ≡ c.is_terminal (c.accept q ev).0)
        × (s'.reader ≡ s.reader)
  unfolding recv_accept
  recv_accept-ok s s' q ev ev' h = ground arith

  without_sequence :
      (o : Option Sequence) (m : NestedStream Sequence × Result Event)
      (k : Sequence → NestedStream Sequence × Result Event)
      → o ≡ none
      → elim o as (λ _. NestedStream Sequence × Result Event) [ none ↦ m | some q ↦ k q ] ≡ m
  without_sequence none m k h = refl
  without_sequence (some q) m k h = cc

  recv_event-first :
      (s : NestedStream Sequence) (ev : Event)
      → s.sequence ≡ none
      → recv_event c s ev ≡ recv_first c s ev
  unfolding recv_event
  recv_event-first s ev e =
      without_sequence s.sequence (recv_first c s ev) (λ q. recv_accept c s q ev) e

  recv_event-later :
      (s : NestedStream Sequence) (q : Sequence) (ev : Event)
      → s.sequence ≡ some q
      → recv_event c s ev ≡ recv_accept c s q ev
  unfolding recv_event
  recv_event-later s q ev e = rw (e, recv_event) refl

  recv_first-ok :
      (s s' : NestedStream Sequence) (ev ev' : Event)
      → s.sequence ≡ none
      → recv_first c s ev ≡ (s', ok ev')
      → (ev ≡ ev') × IsAccepted s s' ev
  unfolding recv_first
  recv_first-ok s s' ev ev' e h = elim (Bool-cases (bytes_eq (c.event_type ev) c.accepted_type)) [
    | inr b ↦ absurd (ground (arith, b, h))
    | inl b ↦
        elim (Result-cases (c.new_sequence (c.event_invocation ev) s.root_task_id s.trace_id)) [
          | inr (x, n) ↦ absurd (ground (arith, b, n, h))
          | inl (q, n) ↦
              let t = record s { sequence = some q; invocation_id = c.event_invocation ev } in
              let (same, a, m, l, r) = recv_accept-ok t s' q ev ev' (rw (b, n, recv_first) at h) in
              (same, (q, inr (e, (bytes_eq_iff _ _).0 b, n), (_, a, m, l, r)))
        ]
  ]

  recv_event-ok :
      (s s' : NestedStream Sequence) (ev ev' : Event)
      → recv_event c s ev ≡ (s', ok ev')
      → (ev ≡ ev') × IsAccepted s s' ev
  recv_event-ok s s' ev ev' h = elim (Option-cases s.sequence) [
    | inr (q, e) ↦
        let (same, a, m, l, r) =
          recv_accept-ok s s' q ev ev' (sym (recv_event-later s q ev e) ∙ h) in
        (same, (q, inl e, (_, a, m, l, r)))
    | inl e ↦ recv_first-ok s s' ev ev' e (sym (recv_event-first s ev e) ∙ h)
  ]

  recv_eof-err : (s s' : NestedStream Sequence) (ev : Event) → recv_eof c s ≢ (s', ok ev)
  unfolding recv_eof
  recv_eof-err s s' ev h = ground arith

  recv_frame-ok :
      (s s' : NestedStream Sequence) (m : Result Bytes) (ev : Event)
      → recv_frame c s m ≡ (s', ok ev)
      → (payload : Bytes) × (m ≡ ok payload) × (decode_frame c payload ≡ ok ev) × IsAccepted s s' ev
  unfolding recv_frame
  recv_frame-ok s s' (err e) ev h = elim (Bool-cases (errors_is e eof)) [
    | inl t ↦ absurd (recv_eof-err s s' ev (rw (t, recv_frame) at h))
    | inr t ↦ absurd (ground (arith, t, h))
  ]
  recv_frame-ok s s' (ok payload) ev h = elim (Result-cases (decode_frame c payload)) [
    | inr (x, d) ↦ absurd (ground (arith, d, h))
    | inl (got, d) ↦
        let (same, a) = recv_event-ok s s' got ev (rw (d, recv_frame) at h) in
        (payload, refl, d ∙ ap ok same, subst (IsAccepted s s') same a)
  ]

  payload_read-ok :
      (m : Result Bytes) (payload : Bytes) → some payload ≡ payload_read m → m ≡ ok payload
  payload_read-ok (ok p) payload h = ground arith
  payload_read-ok (err e) payload h = cc

  -- If the body does not itself fail with `bufio.ErrBufferFull`: an event that a nested stream
  -- returns came from a stream neither closed nor finished; it is what one frame at the head of the
  -- input decodes to, and the sequence validator accepted it. The first event is of the accepted
  -- type, and the validator that it starts is bound to the caller's root task and Trace.
  pub recv-IsReceived :
      (s s' : NestedStream Sequence) (ev : Event)
      → IsLive s.reader
      → recv c s ≡ (s', ok ev)
      → IsReceived s s' ev
  recv-IsReceived s s' ev live h = elim (Bool-cases s.closed) [
    | inl u ↦ absurd (ground (arith, recv-closed c s u, h))
    | inr u ↦ elim (Bool-cases s.finished) [
      | inl f ↦ absurd (ground (arith, recv-finished c s u f, h))
      | inr f ↦
          let m = read_sse_frame s.event_limit s.reader in
          let (payload, e, d, (q, j, (next, a, moved, terminal, same))) =
            recv_frame-ok (behind c s) s' m.0 ev (sym (recv-reads c s u f) ∙ h) in
          let (agrees, here) = read_sse_frame-Agrees s.event_limit s.reader in
          let there = Gateway.read_sse_frame s.event_limit s.reader in
          let got : there.0 ≡ ok payload =
            payload_read-ok there.0 payload (ap payload_read (sym e) ∙ agrees) in
          let (carried, framed) =
            read_sse_frame-ok s.event_limit s.reader there.1 payload live
              (ap (λ x. (x, there.1)) got) in
          record {
            open_stream = (u, f);
            payload = payload;
            carried = carried;
            framed = framed ∙ ap (λ x. frame_of payload x.pending) (sym here ∙ sym same);
            decoded = d;
            judge = q;
            judges = j;
            next = next;
            accepted = a;
            moved = (moved, terminal);
          }
    ]
  ]
