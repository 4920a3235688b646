-- ===== src/Client/Stream/Rule.antt =====
-- A rule for `Recv` of client/stream.go: what holds of its three ends holds of every call that reads.
use nekiro_sdk_go.Prelude.{
  Bytes, Option, some, ◌≡◌, false, refl, Bool-cases, Option-cases, inl, inr, bytes_eq,
}
use nekiro_sdk_go.Errors.{GoError, errors_is, eof, Result, ok, err, Result-cases}
use nekiro_sdk_go.Contracts.{StreamContract}
use nekiro_sdk_go.Client.Sse.{Reader, read_sse_frame}
use nekiro_sdk_go.Client.Stream.Cases.{is_eof, IsOpen, frame_read}
use nekiro_sdk_go.Client.Stream.{
  Stream, fail, recv_eof, recv_accept, recv_first, recv_event, decode_frame, recv_frame,
}

-- `Q` is kept by a move of the reader and by the start of the sequence, and holds where the call
-- ends: in a failure, at the end of the input, or with an event handed to the validator.
module _ (c : StreamContract) (Q : Stream c.Sequence → Type 0)
    (P : Stream c.Sequence × Result c.Event → Type 0)
    (moved : (s : Stream c.Sequence) (r : Reader) → Q s → Q (record s { reader = r }))
    (started : (s : Stream c.Sequence) (q : c.Sequence) → Q s → Q (record s { sequence = some q }))
    (failed : (s : Stream c.Sequence) (x : GoError)
      → is_eof (some x) ≡ false
      → IsOpen s
      → Q s
      → P (fail s x))
    (ended : (s : Stream c.Sequence) → IsOpen s → Q s → P (recv_eof c s))
    (handed : (s : Stream c.Sequence) (q : c.Sequence) (ev : c.Event)
      → IsOpen s
      → Q s
      → P (recv_accept c s q ev)) where
  first-rule : (s : Stream c.Sequence) (ev : c.Event) → IsOpen s → Q s → P (recv_first c s ev)
  unfolding recv_first
  first-rule s ev o v = elim (Bool-cases (bytes_eq (c.event_type ev) c.accepted_type)) [
    | inr bad ↦ rw (bad, recv_first) (failed s _ refl o v)
    | inl first ↦ elim (Bool-cases (bytes_eq (c.event_trace ev) s.trace_id)) [
      | inr bad ↦ rw (first, bad, recv_first) (failed s _ refl o v)
      | inl same ↦
          elim (Result-cases
            (c.new_sequence (c.event_invocation ev) (c.event_root_task ev) (c.event_trace ev))) [
              | inl (q, n) ↦
                  rw (first, same, n, recv_first)
                    (handed (record s { sequence = some q }) q ev (still_open s q o)
                      (started s q v))
              | inr (x, n) ↦ rw (first, same, n, recv_first) (failed s _ refl o v)
            ]
    ]
  ]
    where
      still_open :
          (s : Stream c.Sequence) (q : c.Sequence)
          → IsOpen s
          → IsOpen (record s { sequence = some q })
      still_open s q o = record {
        not_closed = o.not_closed;
        not_failed = o.not_failed;
        not_finished = o.not_finished;
      }

  event-rule : (s : Stream c.Sequence) (ev : c.Event) → IsOpen s → Q s → P (recv_event c s ev)
  unfolding recv_event
  event-rule s ev o v = elim (Option-cases s.sequence) [
    | inl e ↦ rw (e, recv_event) (first-rule s ev o v)
    | inr (q, e) ↦ rw (e, recv_event) (handed s q ev o v)
  ]

  frame-rule :
      (after : Option GoError) (s : Stream c.Sequence) (m : Result Bytes)
      → IsOpen s
      → Q s
      → P (recv_frame c after s m)
  unfolding recv_frame
  frame-rule after s (ok frame) o v = elim (Option-cases (decode_frame c frame)) [
    | inl e ↦ rw (e, recv_frame) (failed s _ refl o v)
    | inr (ev, e) ↦ rw (e, recv_frame) (event-rule s ev o v)
  ]
  frame-rule after s (err x) o v = elim (Bool-cases (errors_is x eof)) [
    | inl e ↦ rw (e, recv_frame) (ended s o v)
    | inr e ↦ elim (Option-cases after) [
      | inl a ↦ rw (e, a, recv_frame) (failed s _ refl o v)
      | inr (ce, a) ↦ rw (e, a, recv_frame) (failed s _ refl o v)
    ]
  ]

  pub frame_read-rule :
      (before after : Option GoError) (s : Stream c.Sequence)
      → IsOpen s
      → Q s
      → P (frame_read c before after s)
  frame_read-rule before after s o v =
      let r = read_sse_frame s.event_limit s.reader in
      frame-rule after (record s { reader = r.1 }) r.0
        (record {
          not_closed = o.not_closed;
          not_failed = o.not_failed;
          not_finished = o.not_finished;
        })
        (moved s r.1 v)
