-- ===== src/Client/StreamTests.antt =====
-- Tests of client/stream.go.
use nekiro_sdk_go.Prelude.{
  ◌≤◌, List, [], ◌∷◌, codes, Option, none, some, ◌≡◌, refl, arith, contains_byte,
}
use nekiro_sdk_go.Errors.{GoError, sentinel, eof, errors_is, ok, err}
use nekiro_sdk_go.Client.Sse.{reader_at, read_sse_line, read_sse_frame, is_compact}
use nekiro_sdk_go.Client.Sse.Line.{IsLive, outcome, line_of, split_line, read_sse_line-line_of}
use nekiro_sdk_go.Client.Sse.Frame.{IsPayload, frame_of, read_sse_frame-frame_of}
use nekiro_sdk_go.Client.Stream.{recv, close}
use nekiro_sdk_go.Client.Stream.Cases.{IsOpen}
use nekiro_sdk_go.Client.Stream.Invariant.{IsConsistent, recv-IsConsistent}
use nekiro_sdk_go.Client.Stream.Errors.{recv-recv_error}
use nekiro_sdk_go.Client.Stream.Events.{IsDelivered, recv-IsDelivered}
use nekiro_sdk_go.Client.Stream.Runs.{Call, recv_call, close_call, run, new_stream, run-closes}
use nekiro_sdk_go.Client.Samples.{
  stream_program, sample, text_a, text_b, two_frames, second_frame, stream_at, ended_stream,
  finished_stream,
}

live : IsLive two_frames
unfolding errors_is
live = refl

recv-first :
    recv sample none none (stream_at two_frames none) ≡ (stream_at second_frame (some 1), ok text_a)
unfolding stream_program
recv-first = refl

recv-IsDelivered_example :
    IsOpen (stream_at two_frames none)
    × (◌≡◌ {A = Option GoError} none none)
    × IsDelivered sample (stream_at two_frames none) (stream_at second_frame (some 1)) text_a
recv-IsDelivered_example =
    recv-IsDelivered sample none none (stream_at two_frames none) (stream_at second_frame (some 1))
      text_a live recv-first

consistent : IsConsistent ended_stream
consistent = ground arith

recv-IsConsistent_example : IsConsistent (recv sample none none ended_stream).0
recv-IsConsistent_example = recv-IsConsistent sample none none ended_stream consistent

recv-end : recv sample none none ended_stream ≡ (finished_stream, err (sentinel eof))
unfolding stream_program
recv-end = refl

recv-recv_error_example :
    recv sample (some (sentinel eof)) none finished_stream ≡ (finished_stream, err (sentinel eof))
recv-recv_error_example =
    recv-recv_error sample none none (some (sentinel eof)) none ended_stream finished_stream
      (sentinel eof) recv-end

ended-IsOpen : IsOpen ended_stream
ended-IsOpen = record { not_closed = refl; not_failed = refl; not_finished = refl }

abbrev some_calls : List Call
some_calls = recv_call none none ∷ close_call ∷ recv_call none none ∷ close_call ∷ []

run-closes_example :
    ((run sample some_calls (new_stream two_frames none 100 (codes "t"))).0.closes ≤ 1)
    × ((close (run sample some_calls (new_stream two_frames none 100 (codes "t"))).0).0.closes ≡ 1)
run-closes_example = run-closes sample some_calls two_frames none 100 (codes "t")

text_a-IsPayload : IsPayload 100 text_a
unfolding stream_program contains_byte is_compact
text_a-IsPayload = record {
  not_empty = omega arith;
  no_newline = refl;
  no_return = refl;
  compact_json = refl;
  within = omega arith;
}

read_sse_frame-frame_of_example :
    read_sse_frame 100 (reader_at (frame_of text_a (frame_of text_b [])) (sentinel eof))
    ≡ (ok text_a, second_frame)
read_sse_frame-frame_of_example =
    read_sse_frame-frame_of 100 text_a (frame_of text_b []) (sentinel eof) live text_a-IsPayload

frame-read : read_sse_frame 100 two_frames ≡ (ok text_a, second_frame)
unfolding stream_program
frame-read = refl

read_sse_line-line_of_example :
    outcome (read_sse_line 100 two_frames)
    ≡ line_of 100 [] two_frames.ending (split_line two_frames.pending)
read_sse_line-line_of_example = read_sse_line-line_of 100 two_frames live
