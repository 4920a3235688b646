-- ===== src/Agent/Tests.antt =====
-- Tests of agent/client.go.
use nekiro_sdk_go.Prelude.{
  ℕ, Bytes, true, false, codes, Option, none, some, ◌≡◌, refl, arith, [], ◌∷◌, ◌≤◌,
}
use nekiro_sdk_go.Errors.{errors_is, ok}
use nekiro_sdk_go.Client.Sse.{Reader}
use nekiro_sdk_go.Client.Sse as Sse
use nekiro_sdk_go.Client.Sse.Line.{IsLive}
use nekiro_sdk_go.Client.Samples.{stream_program, sample, text_a, two_frames, second_frame}
use nekiro_sdk_go.Agent.Sse.{read_sse_frame, Agrees, read_sse_frame-Agrees}
use nekiro_sdk_go.Agent.Stream.{NestedStream, recv, close}
use nekiro_sdk_go.Agent.Stream.Balance.{IsBalanced}
use nekiro_sdk_go.Agent.Stream.Events.{IsReceived, recv-IsReceived}
use nekiro_sdk_go.Agent.Stream.Runs.{receives, closes_stream, play, play-closes_once}
use nekiro_sdk_go.Client.Codes.{Code, timeout}
use nekiro_sdk_go.Agent.Status.{valid_router_error_status}

abbrev spelling : Code → Bytes
spelling timeout = codes "TIMEOUT"
spelling _ = codes "OTHER"

router-timeout : valid_router_error_status spelling 504 (codes "TIMEOUT") true ≡ true
unfolding valid_router_error_status
router-timeout = refl

abbrev nested : Reader → Option ℕ → Bytes → NestedStream ℕ
nested r q id = record {
  reader = r;
  close_error = none;
  closes = 0;
  event_limit = 100;
  root_task_id = codes "r";
  trace_id = codes "t";
  sequence = q;
  invocation_id = id;
  terminal = false;
  finished = false;
  closed = false;
  body_closed = false;
}

live : IsLive two_frames
unfolding errors_is
live = refl

nested-first :
    recv sample (nested two_frames none []) ≡ (nested second_frame (some 1) (codes "i"), ok text_a)
unfolding recv stream_program
nested-first = refl

recv-IsReceived_example :
    IsReceived sample (nested two_frames none []) (nested second_frame (some 1) (codes "i")) text_a
recv-IsReceived_example =
    recv-IsReceived sample (nested two_frames none []) (nested second_frame (some 1) (codes "i"))
      text_a live nested-first

balanced : IsBalanced (nested two_frames none [])
balanced = ground arith

read_sse_frame-Agrees_example :
    Agrees (read_sse_frame 10 two_frames) (Sse.read_sse_frame 10 two_frames)
read_sse_frame-Agrees_example = read_sse_frame-Agrees 10 two_frames

play-closes_once_example :
    ((play sample
        (receives ∷ receives ∷ closes_stream ∷ receives ∷ [])
        (nested two_frames none [])).closes
      ≤ 1)
    × ((close sample (
          play sample
            (receives ∷ receives ∷ closes_stream ∷ receives ∷ [])
            (nested two_frames none []))).0.closes
        ≡ 1)
play-closes_once_example =
    play-closes_once sample (receives ∷ receives ∷ closes_stream ∷ receives ∷ [])
      (nested two_frames none []) balanced
