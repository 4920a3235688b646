-- ===== src/Client/Stream/Runs.antt =====
-- Sequences of calls on a new `Stream` of client/stream.go.
use nekiro_sdk_go.Prelude.{ℕ, ◌≤◌, Bytes, false, Option, none, List, [], ◌∷◌, ◌≡◌, arith}
use nekiro_sdk_go.Errors.{GoError, Result, ok, err}
use nekiro_sdk_go.Contracts.{StreamContract}
use nekiro_sdk_go.Client.Sse.{Reader}
use nekiro_sdk_go.Client.Stream.Invariant.{IsConsistent, recv-IsConsistent, close-IsConsistent}
use nekiro_sdk_go.Client.Stream.{Stream, close, recv}

-- The stream that `InvokeStream` returns.
unfoldable pub new_stream :
    {Sequence : Type 0} → Reader → Option GoError → ℕ → Bytes → Stream Sequence
new_stream reader close_error limit trace_id = record {
  reader = reader;
  close_error = close_error;
  closes = 0;
  event_limit = limit;
  trace_id = trace_id;
  sequence = none;
  terminal = false;
  finished = false;
  failure = none;
  closed = false;
  close_outcome = none;
  body_closed = false;
}

-- A call of the consumer, with what the context says at the start and behind a failed read.
pub data Call : Type 0 where
  recv_call : Option GoError → Option GoError → Call
  close_call : Call

module _ (c : StreamContract) where
  open c use {Event, Sequence}

  abbrev delivered : Result Event → List Event → List Event
  delivered (ok ev) evs = ev ∷ evs
  delivered (err e) evs = evs

  -- The state behind the calls, and the events that they delivered, in order.
  unfoldable pub run : List Call → Stream Sequence → Stream Sequence × List Event
  run [] s = (s, [])
  run (recv_call before after ∷ calls) s =
      let r = recv c before after s in let rest = run calls r.0 in (rest.0, delivered r.1 rest.1)
  run (close_call ∷ calls) s = run calls (close s).0

  run-IsConsistent :
      (calls : List Call) (s : Stream Sequence) → IsConsistent s → IsConsistent (run calls s).0
  unfolding run
  run-IsConsistent [] s v = v
  run-IsConsistent (recv_call before after ∷ calls) s v =
      run-IsConsistent calls _ (recv-IsConsistent c before after s v)
  run-IsConsistent (close_call ∷ calls) s v = run-IsConsistent calls _ (close-IsConsistent s v)

  new_stream-IsConsistent :
      (reader : Reader) (close_error : Option GoError) (limit : ℕ) (trace_id : Bytes)
      → IsConsistent (new_stream {Sequence = Sequence} reader close_error limit trace_id)
  unfolding new_stream
  new_stream-IsConsistent reader close_error limit trace_id = ground arith

  close-closes : (s : Stream Sequence) → IsConsistent s → (close s).0.closes ≡ 1
  unfolding close
  close-closes s v = ground arith

  consistent-closes : (s : Stream Sequence) → IsConsistent s → s.closes ≤ 1
  consistent-closes s v = ground arith

  -- Whatever calls of `Recv` and `Close` a consumer makes, in whatever order, the response body is
  -- closed at most once, and a `Close` behind them leaves it closed exactly once.
  pub run-closes :
      (calls : List Call) (reader : Reader) (close_error : Option GoError) (limit : ℕ)
      (trace_id : Bytes)
      → let s = (run calls (new_stream reader close_error limit trace_id)).0 in
        (s.closes ≤ 1) × ((close s).0.closes ≡ 1)
  run-closes calls reader close_error limit trace_id =
      let v =
        run-IsConsistent calls _ (new_stream-IsConsistent reader close_error limit trace_id) in
      (consistent-closes _ v, close-closes _ v)
