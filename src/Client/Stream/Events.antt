-- ===== src/Client/Stream/Events.antt =====
-- The events that `Recv` of client/stream.go delivers.
use nekiro_sdk_go.Prelude.{
  Bytes, Option, none, some, ◌≡◌, ◌⊎◌, inl, inr, refl, sym, ap, ◌∙◌, subst, arith, Bool-cases,
  Option-cases, bytes_eq, bytes_eq_iff,
}
use nekiro_sdk_go.Errors.{GoError, errors_is, eof, Result, ok, err, Result-cases}
use nekiro_sdk_go.Contracts.{StreamContract}
use nekiro_sdk_go.Client.Sse.{read_sse_frame}
use nekiro_sdk_go.Client.Sse.Line.{IsLive}
use nekiro_sdk_go.Client.Sse.Frame.{IsPayload, frame_of, read_sse_frame-ok}
use nekiro_sdk_go.Client.Stream.Cases.{
  IsOpen, recv-closed, recv-failed, recv-finished, recv-canceled, recv-reads, frame_read,
}
use nekiro_sdk_go.Client.Stream.{
  Stream, fail, recv_eof, recv_accept, recv_first, recv_event, decode_frame, recv_frame, recv,
}

module _ (c : StreamContract) where
  open c use {Event, Sequence}

  -- The sequence that judges an event: the stream's, or the one that a first event starts, which
  -- must be of the accepted type and carry the Trace of the response header.
  abbrev pub Judges : Stream Sequence → Event → Sequence → Type 0
  Judges s ev q =
      (s.sequence ≡ some q)
      ⊎ ((s.sequence ≡ none)
          × (c.event_type ev ≡ c.accepted_type)
          × (c.event_trace ev ≡ s.trace_id)
          × (c.new_sequence (c.event_invocation ev) (c.event_root_task ev) (c.event_trace ev)
              ≡ ok q))

  pub record IsAccepted (s s' : Stream Sequence) (ev : Event) : Type 0 where
    pub judge : Sequence
    pub judges : Judges s ev judge
    pub next : Sequence
    pub accepted : c.accept judge ev ≡ (next, none)
    pub moved : s' ≡ record s { sequence = some next; terminal = c.is_terminal next }

  -- An event was read from one frame of the input and accepted.
  pub record IsDelivered (s s' : Stream Sequence) (ev : Event) : Type 0 where
    pub payload : Bytes
    pub carried : IsPayload s.event_limit payload
    pub framed : s.reader.pending ≡ frame_of payload s'.reader.pending
    pub decoded : decode_frame c payload ≡ some ev
    pub judged : IsAccepted (record s { reader = s'.reader }) s' ev

  fail-not_ok : (s s' : Stream Sequence) (x : GoError) (ev : Event) → ¬ (fail s x ≡ (s', ok ev))
  unfolding fail
  fail-not_ok s s' x ev h = ground arith

  recv_eof-not_ok : (s s' : Stream Sequence) (ev : Event) → ¬ (recv_eof c s ≡ (s', ok ev))
  unfolding recv_eof fail
  recv_eof-not_ok s s' ev h = ground arith

  recv_accept-ok :
      (s s' : Stream Sequence) (q : Sequence) (ev ev' : Event)
      → recv_accept c s q ev ≡ (s', ok ev')
      → (ev ≡ ev')
        × (c.accept q ev ≡ ((c.accept q ev).0, none))
        × (s' ≡ record s {
          sequence = some (c.accept q ev).0;
          terminal = c.is_terminal (c.accept q ev).0;
        })
  unfolding recv_accept fail
  recv_accept-ok s s' q ev ev' h = ground arith

  first-IsAccepted :
      (s s' : Stream Sequence) (ev ev' : Event)
      → s.sequence ≡ none
      → recv_first c s ev ≡ (s', ok ev')
      → (ev ≡ ev') × IsAccepted s s' ev
  unfolding recv_first
  first-IsAccepted s s' ev ev' n h =
      elim (Bool-cases (bytes_eq (c.event_type ev) c.accepted_type)) [
        | inr bad ↦ absurd (fail-not_ok s s' _ ev' (rw (bad, recv_first) at h))
        | inl first ↦ elim (Bool-cases (bytes_eq (c.event_trace ev) s.trace_id)) [
          | inr bad ↦ absurd (fail-not_ok s s' _ ev' (rw (first, bad, recv_first) at h))
          | inl same ↦
              elim (Result-cases (
                c.new_sequence (c.event_invocation ev) (c.event_root_task ev) (c.event_trace ev))) [
                  | inr (x, e) ↦
                      absurd (fail-not_ok s s' _ ev' (rw (first, same, e, recv_first) at h))
                  | inl (q, e) ↦
                      let (same_event, a, m) =
                        recv_accept-ok (record s { sequence = some q }) s' q ev ev'
                          (rw (first, same, e, recv_first) at h) in
                      (
                        same_event,
                        record {
                          judge = q;
                          judges =
                              inr (n, (bytes_eq_iff _ _).0 first, (bytes_eq_iff _ _).0 same, e);
                          next = (c.accept q ev).0;
                          accepted = a;
                          moved = m;
                        },
                      )
                ]
        ]
      ]

  event-IsAccepted :
      (s s' : Stream Sequence) (ev ev' : Event)
      → recv_event c s ev ≡ (s', ok ev')
      → (ev ≡ ev') × IsAccepted s s' ev
  unfolding recv_event
  event-IsAccepted s s' ev ev' h = elim (Option-cases s.sequence) [
    | inl e ↦ first-IsAccepted s s' ev ev' e (rw (e, recv_event) at h)
    | inr (q, e) ↦
        let (same, a, m) = recv_accept-ok s s' q ev ev' (rw (e, recv_event) at h) in
        (
          same,
          record { judge = q; judges = inl e; next = (c.accept q ev).0; accepted = a; moved = m },
        )
  ]

  frame-ok :
      (after : Option GoError) (s s' : Stream Sequence) (m : Result Bytes) (ev : Event)
      → recv_frame c after s m ≡ (s', ok ev)
      → (payload : Bytes) × (m ≡ ok payload)
        × (decode_frame c payload ≡ some ev)
        × IsAccepted s s' ev
  unfolding recv_frame
  frame-ok after s s' (ok payload) ev h = elim (Option-cases (decode_frame c payload)) [
    | inl e ↦ absurd (fail-not_ok s s' _ ev (rw (e, recv_frame) at h))
    | inr (ev', e) ↦
        let (same, a) = event-IsAccepted s s' ev' ev (rw (e, recv_frame) at h) in
        (payload, refl, e ∙ ap some same, subst (IsAccepted s s') same a)
  ]
  frame-ok after s s' (err x) ev h = elim (Bool-cases (errors_is x eof)) [
    | inl e ↦ absurd (recv_eof-not_ok s s' ev (rw (e, recv_frame) at h))
    | inr e ↦ elim (Option-cases after) [
      | inl a ↦ absurd (fail-not_ok s s' _ ev (rw (e, a, recv_frame) at h))
      | inr (ce, a) ↦ absurd (fail-not_ok s s' _ ev (rw (e, a, recv_frame) at h))
    ]
  ]

  frame_read-ok :
      (before after : Option GoError) (s s' : Stream Sequence) (ev : Event)
      → IsLive s.reader
      → frame_read c before after s ≡ (s', ok ev)
      → IsDelivered s s' ev
  frame_read-ok before after s s' ev live h =
      let r = read_sse_frame s.event_limit s.reader in
      let (payload, e, d, a) = frame-ok after (record s { reader = r.1 }) s' r.0 ev h in
      let (carried, framed) =
        read_sse_frame-ok s.event_limit s.reader r.1 payload live (ap (λ x. (x, r.1)) e) in
      let here : r.1 ≡ s'.reader = sym (ap (λ t. t.reader) a.moved) in
      record {
        payload = payload;
        carried = carried;
        framed = subst (λ x. s.reader.pending ≡ frame_of payload x.pending) here framed;
        decoded = d;
        judged = subst (λ x. IsAccepted (record s { reader = x }) s' ev) here a;
      }

  -- If the body does not itself fail with `bufio.ErrBufferFull`: an event that `Recv` returns came
  -- from a stream that was open and whose context had not ended; it is what one frame at the head
  -- of the input decodes to, the sequence validator accepted it, and nothing of the state but the
  -- reader, the sequence and the terminal mark has changed. The first event is of the accepted type
  -- and carries the Trace of the response header.
  pub recv-IsDelivered :
      (before after : Option GoError) (s s' : Stream Sequence) (ev : Event)
      → IsLive s.reader
      → recv c before after s ≡ (s', ok ev)
      → IsOpen s × (before ≡ none) × IsDelivered s s' ev
  recv-IsDelivered before after s s' ev live h = elim (Bool-cases s.closed) [
    | inl e ↦ absurd (ground (arith, recv-closed c before after s e))
    | inr u ↦ elim (Option-cases s.failure) [
      | inr (x, f) ↦ absurd (ground (arith, recv-failed c before after s x u f))
      | inl f ↦ elim (Bool-cases s.finished) [
        | inl g ↦ absurd (ground (arith, recv-finished c before after s u f g))
        | inr g ↦
            let o : IsOpen s = record { not_closed = u; not_failed = f; not_finished = g } in
            elim (Option-cases before) [
              | inl b ↦ (
                o,
                b,
                frame_read-ok before after s s' ev live (sym (recv-reads c before after s o b) ∙ h),
              )
              | inr (x, b) ↦
                  absurd (fail-not_ok s s' _ ev (sym (recv-canceled c before after s x o b) ∙ h))
            ]
      ]
    ]
  ]
