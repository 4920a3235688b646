-- ===== src/Client/Stream.antt =====
-- `Stream` of client/stream.go: the state of one live response, and `Recv` and `Close`.
pub mod Cases
pub mod Rule
pub mod Invariant
pub mod Errors
pub mod Events
pub mod Runs
use nekiro_sdk_go.Prelude.{
  ℕ, suc, Bytes, Bool, true, false, Option, none, some, not, ◌||◌, if◌then◌else◌, bytes_eq,
}
use nekiro_sdk_go.Errors.{
  GoError, sentinel, plain, wrap, join, eof, stream_closed, stream_interrupted, errors_is,
  join_with, errors_join, Result, ok, err,
}
use nekiro_sdk_go.Contracts.{StreamContract}
use nekiro_sdk_go.Json.Decoder.{new_decoder}
use nekiro_sdk_go.Client.Members.{reject_duplicate_json_members, require_eof}
use nekiro_sdk_go.Client.Sse.{Reader, read_sse_frame}

-- The struct, over the type of the sequence validator. `close_error` is what the body's `Close`
-- returns, and `closes` counts its calls.
pub record Stream (Sequence : Type 0) : Type 0 where
  pub reader : Reader
  pub close_error : Option GoError
  pub closes : ℕ
  pub event_limit : ℕ
  pub trace_id : Bytes
  pub sequence : Option Sequence
  pub terminal : Bool
  pub finished : Bool
  pub failure : Option GoError
  pub closed : Bool
  pub close_outcome : Option GoError
  pub body_closed : Bool

abbrev pub is_closed_error : GoError
is_closed_error = wrap "clientsdk: result stream is closed" (sentinel stream_closed)

abbrev pub context_ended : GoError → GoError
context_ended e =
    join (wrap "clientsdk: result stream context ended" e) (sentinel stream_interrupted)

abbrev pub ended_early : GoError
ended_early =
    wrap "clientsdk: result stream ended before a terminal event" (sentinel stream_interrupted)

abbrev pub invalid_event : GoError
invalid_event = plain "clientsdk: Gateway stream event is invalid"

abbrev pub not_accepted_first : GoError
not_accepted_first = plain "clientsdk: result stream must begin with accepted"

abbrev pub wrong_trace : GoError
wrong_trace = plain "clientsdk: first stream event Trace does not match response header"

abbrev pub closed_early : GoError
closed_early =
    wrap "clientsdk: result stream closed before terminal EOF" (sentinel stream_interrupted)

module _ {Sequence : Type 0} where
  unfoldable pub close_body : Stream Sequence → Stream Sequence × Option GoError
  close_body s =
      if s.body_closed
      then (s, none)
      else (record s { body_closed = true; closes = suc s.closes }, s.close_error)

  unfoldable pub record_failure : Stream Sequence → GoError → Stream Sequence × GoError
  unfolding close_body
  record_failure s e = elim s.failure [
    | some old ↦ (s, old)
    | none ↦
        let (s', ce) = close_body s in
        (record s' { failure = some (join_with e ce) }, join_with e ce)
  ]

  -- `return StreamEvent{}, stream.recordFailure(err)`
  unfoldable pub fail {ℓ} : {A : Type ℓ} → Stream Sequence → GoError → Stream Sequence × Result A
  unfolding record_failure
  fail s e = let (s', e') = record_failure s e in (s', err e')

  unfoldable pub close : Stream Sequence → Stream Sequence × Option GoError
  unfolding close_body
  close s =
      if s.closed
      then (s, s.close_outcome)
      else (let t = record s { closed = true } in
          elim s.failure [
            | some e ↦ (record t { close_outcome = some e }, some e)
            | none ↦
                if s.finished
                then (record t { close_outcome = none }, none)
                else (let (t', ce) = close_body t in
                    let outcome = some (join_with closed_early ce) in
                    (record t' { close_outcome = outcome }, outcome))
          ])

module _ (c : StreamContract) where
  open c use {Event, Sequence, event_type, event_invocation, event_root_task, event_trace}
  open c use {accepted_type, decode_event, new_sequence, accept, finish, is_terminal}

  -- The end of the input: clean only behind a terminal event.
  unfoldable pub recv_eof : Stream Sequence → Stream Sequence × Result Event
  recv_eof s = elim s.sequence [
    | none ↦ fail s ended_early
    | some q ↦
        if s.terminal
        then (let (q', fe) = finish q in
            let t = record s { sequence = some q' } in
            elim fe [
              | some e ↦ fail t (wrap "clientsdk: finish result stream" e)
              | none ↦
                  let (t', ce) = close_body t in
                  elim ce [
                    | some e ↦ fail t' (wrap "clientsdk: close completed result stream" e)
                    | none ↦ (record t' { finished = true }, err (sentinel eof))
                  ]
            ])
        else fail s ended_early
  ]

  -- The validator accepts the event, or the stream fails.
  unfoldable pub recv_accept : Stream Sequence → Sequence → Event → Stream Sequence × Result Event
  recv_accept s q ev =
      let (q', ae) = accept q ev in
      let t = record s { sequence = some q' } in
      elim ae [
        | some e ↦ fail t invalid_event
        | none ↦ (record t { terminal = is_terminal q' }, ok ev)
      ]

  -- The first event starts the sequence.
  unfoldable pub recv_first : Stream Sequence → Event → Stream Sequence × Result Event
  recv_first s ev =
      if not (bytes_eq (event_type ev) accepted_type)
      then fail s not_accepted_first
      else if not (bytes_eq (event_trace ev) s.trace_id)
      then fail s wrong_trace
      else elim (new_sequence (event_invocation ev) (event_root_task ev) (event_trace ev)) [
        | err e ↦ fail s invalid_event
        | ok q ↦ recv_accept (record s { sequence = some q }) q ev
      ]

  unfoldable pub recv_event : Stream Sequence → Event → Stream Sequence × Result Event
  recv_event s ev = elim s.sequence [ none ↦ recv_first s ev | some q ↦ recv_accept s q ev ]

  -- One frame: no repeated member, one event, and nothing behind it. Every error is replaced by
  -- the same one.
  unfoldable pub decode_frame : Bytes → Option Event
  decode_frame frame = elim (reject_duplicate_json_members frame) [
    | err e ↦ none
    | ok _ ↦ elim (decode_event frame) [
      | err e ↦ none
      | ok d ↦ elim (require_eof (new_decoder d.1)) [ err e ↦ none | ok _ ↦ some d.0 ]
    ]
  ]

  unfoldable pub recv_frame :
      Option GoError → Stream Sequence → Result Bytes → Stream Sequence × Result Event
  recv_frame after s (ok frame) = elim (decode_frame frame) [
    | none ↦ fail s invalid_event
    | some ev ↦ recv_event s ev
  ]
  recv_frame after s (err e) = if errors_is e eof then recv_eof s else elim after [
    | some ce ↦ fail s (context_ended ce)
    | none ↦ fail s (wrap "clientsdk: read SSE frame" e)
  ]

  -- `Recv`, where `stream.ctx.Err()` is `before` at its start and `after` behind a failed read.
  unfoldable pub recv :
      Option GoError → Option GoError → Stream Sequence → Stream Sequence × Result Event
  recv before after s = if s.closed then (s, err is_closed_error) else elim s.failure [
    | some e ↦ (s, err e)
    | none ↦ if s.finished then (s, err (sentinel eof)) else elim before [
      | some ce ↦ fail s (context_ended ce)
      | none ↦
          let r = read_sse_frame s.event_limit s.reader in
          recv_frame after (record s { reader = r.1 }) r.0
    ]
  ]
