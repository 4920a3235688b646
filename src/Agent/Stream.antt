-- ===== src/Agent/Stream.antt =====
-- `NestedResultStream` of agent/client.go. A failed `Recv` records nothing: the next call reads on.
pub mod Balance
pub mod Events
pub mod Runs
use nekiro_sdk_go.Prelude.{
  ℕ, suc, Bytes, Bool, true, false, List, [], Option, none, some, not, bytes_eq, if◌then◌else◌,
}
use nekiro_sdk_go.Errors.{
  GoError, sentinel, eof, plain, wrap, errors_is, errors_join, Result, ok, err, ◌>>=◌, ◌>>◌,
  or_wrap,
}
use nekiro_sdk_go.Contracts.{StreamContract}
use nekiro_sdk_go.Json.Decoder.{new_decoder}
use nekiro_sdk_go.Client.Sse.{Reader}
use nekiro_sdk_go.Client.Members.{reject_duplicate_json_members, require_eof}
use nekiro_sdk_go.Agent.Sse.{read_sse_frame}

-- `sequence` is nil or a validator; `closes` counts the calls of the body's `Close`, which returns
-- `close_error`.
pub record NestedStream (Sequence : Type 0) : Type 0 where
  pub reader : Reader
  pub close_error : Option GoError
  pub closes : ℕ
  pub event_limit : ℕ
  pub root_task_id : Bytes
  pub trace_id : Bytes
  pub sequence : Option Sequence
  pub invocation_id : Bytes
  pub terminal : Bool
  pub finished : Bool
  pub closed : Bool
  pub body_closed : Bool

abbrev pub stream_closed : GoError
stream_closed = plain "agentsdk: result stream is closed"

abbrev pub no_accepted_event : GoError
no_accepted_event = plain "agentsdk: result stream ended before an accepted event"

abbrev pub not_accepted_first : GoError
not_accepted_first = plain "agentsdk: result stream must begin with accepted"

abbrev pub interrupted : GoError
interrupted = plain "agentsdk: close interrupted result stream"

module _ {Sequence : Type 0} where
  -- `closeBody`, and what the body's `Close` returns.
  unfoldable pub close_body : NestedStream Sequence → NestedStream Sequence × Option GoError
  close_body s =
      if s.body_closed
      then (s, none)
      else (record s { body_closed = true; closes = suc s.closes }, s.close_error)

module _ (c : StreamContract) where
  open c use {Event, Sequence, event_type, event_invocation, accepted_type}
  open c use {decode_event, new_sequence, accept, finish, is_terminal}

  unfoldable pub recv_eof : NestedStream Sequence → NestedStream Sequence × Result Event
  unfolding close_body
  recv_eof s = elim s.sequence [
    | none ↦ (s, err no_accepted_event)
    | some q ↦
        let (q', fe) = finish q in
        let t = record s { sequence = some q' } in
        elim fe [
          | some e ↦ (t, err (wrap "agentsdk: finish result stream" e))
          | none ↦ ((close_body (record t { finished = true })).0, err (sentinel eof))
        ]
  ]

  unfoldable pub decode_frame : Bytes → Result Event
  unfolding reject_duplicate_json_members require_eof new_decoder
  decode_frame frame = do
    _ ← or_wrap (reject_duplicate_json_members frame) "agentsdk: decode SSE event"
    d ← or_wrap (decode_event frame) "agentsdk: decode SSE event"
    _ ← or_wrap (require_eof (new_decoder d.1)) "agentsdk: decode SSE event"
    ok d.0

  unfoldable pub recv_accept :
      NestedStream Sequence → Sequence → Event → NestedStream Sequence × Result Event
  recv_accept s q ev =
      let (q', ae) = accept q ev in
      let t = record s { sequence = some q' } in
      elim ae [
        | some e ↦ (t, err (wrap "agentsdk: validate SSE event" e))
        | none ↦ (record t { terminal = is_terminal q' }, ok ev)
      ]

  unfoldable pub recv_first : NestedStream Sequence → Event → NestedStream Sequence × Result Event
  unfolding recv_accept
  recv_first s ev =
      if not (bytes_eq (event_type ev) accepted_type)
      then (s, err not_accepted_first)
      else elim (new_sequence (event_invocation ev) s.root_task_id s.trace_id) [
        | err e ↦ (s, err (wrap "agentsdk: initialize result stream validator" e))
        | ok q ↦
            recv_accept (record s { sequence = some q; invocation_id = event_invocation ev }) q ev
      ]

  unfoldable pub recv_event : NestedStream Sequence → Event → NestedStream Sequence × Result Event
  unfolding recv_accept recv_first
  recv_event s ev = elim s.sequence [ none ↦ recv_first s ev | some q ↦ recv_accept s q ev ]

  unfoldable pub recv_frame :
      NestedStream Sequence → Result Bytes → NestedStream Sequence × Result Event
  unfolding recv_eof decode_frame recv_event errors_is
  recv_frame s (err e) =
      if errors_is e eof then recv_eof s else (s, err (wrap "agentsdk: read SSE frame" e))
  recv_frame s (ok frame) = elim (decode_frame frame) [
    | err e ↦ (s, err e)
    | ok ev ↦ recv_event s ev
  ]

  -- `Recv`
  unfoldable pub recv : NestedStream Sequence → NestedStream Sequence × Result Event
  unfolding recv_frame read_sse_frame
  recv s =
      if s.closed
      then (s, err stream_closed)
      else if s.finished
      then (s, err (sentinel eof))
      else (let r = read_sse_frame s.event_limit s.reader in
          recv_frame (record s { reader = r.1 }) r.0)

  -- `Close` behind the closing of the body, whose error is `ce`.
  abbrev pub close_outcome :
      NestedStream Sequence × Option GoError → NestedStream Sequence × Option GoError
  close_outcome (s, ce) = if s.finished then (s, ce) else elim s.sequence [
    | none ↦ (s, errors_join ce (some interrupted))
    | some q ↦
        let (q', fe) = finish q in
        let t = record s { sequence = some q' } in
        elim fe [
          | some e ↦ (t, errors_join ce (some (wrap "agentsdk: close interrupted result stream" e)))
          | none ↦ (t, errors_join ce (some interrupted))
        ]
  ]

  -- `Close`
  unfoldable pub close : NestedStream Sequence → NestedStream Sequence × Option GoError
  unfolding close_body
  close s = if s.closed then (s, none) else close_outcome (close_body (record s { closed = true }))
