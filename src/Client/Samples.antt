-- ===== src/Client/Samples.antt =====
-- Sample inputs for the tests of the client's modules.
use nekiro_sdk_go.Prelude.{ℕ, suc, Bytes, [], ◌∷◌, codes, Option, none, some, leb, true, false}
use nekiro_sdk_go.Errors.{sentinel, eof, ok}
use nekiro_sdk_go.Contracts.{StreamContract}
use nekiro_sdk_go.Prelude.{bytes_eq}
use nekiro_sdk_go.Errors.{errors_is}
use nekiro_sdk_go.Json.Decoder.{token, new_decoder}
use nekiro_sdk_go.Client.Members as Members
use nekiro_sdk_go.Client.Sse.{
  Reader, reader_at, read_sse_frame, read_sse_line, is_data_line, frame_payload,
}
use nekiro_sdk_go.Client.Sse.Frame.{frame_of}
use nekiro_sdk_go.Client.Stream.{
  Stream, recv, close, recv_frame, recv_eof, decode_frame, recv_event, recv_first, recv_accept,
}

-- A contract whose events are JSON texts: the first is `"a"`, and the second ends the stream.
abbrev pub sample : StreamContract
sample = record {
  Event = Bytes;
  Sequence = ℕ;
  event_type = λ ev. ev;
  event_invocation = λ _. codes "i";
  event_root_task = λ _. codes "r";
  event_trace = λ _. codes "t";
  accepted_type = b'"' ∷ b'a' ∷ b'"' ∷ [];
  decode_event = λ content. ok (content, []);
  new_sequence = λ _ _ _. ok 0;
  accept = λ n _. (suc n, none);
  finish = λ n. (n, none);
  is_terminal = λ n. leb 2 n;
}

abbrev pub text_a : Bytes
text_a = b'"' ∷ b'a' ∷ b'"' ∷ []

abbrev pub text_b : Bytes
text_b = b'"' ∷ b'b' ∷ b'"' ∷ []

abbrev pub two_frames : Reader
two_frames = reader_at (frame_of text_a (frame_of text_b [])) (sentinel eof)

abbrev pub second_frame : Reader
second_frame = reader_at (frame_of text_b []) (sentinel eof)

abbrev pub stream_at : Reader → Option ℕ → Stream ℕ
stream_at r q = record {
  reader = r;
  close_error = none;
  closes = 0;
  event_limit = 100;
  trace_id = codes "t";
  sequence = q;
  terminal = false;
  finished = false;
  failure = none;
  closed = false;
  close_outcome = none;
  body_closed = false;
}

abbrev pub ended_stream : Stream ℕ
ended_stream = record (stream_at (reader_at [] (sentinel eof)) (some 2)) { terminal = true }

abbrev pub finished_stream : Stream ℕ
finished_stream = record ended_stream { finished = true; body_closed = true; closes = 1 }

-- One name that opens what a test of a stream runs.
unfoldable pub stream_program : Unit {0}
unfolding recv close recv_frame recv_eof decode_frame recv_event recv_first recv_accept
    read_sse_frame read_sse_line is_data_line frame_payload bytes_eq errors_is Members.program
    Members.reject_duplicate_json_members Members.reject_decoder Members.walk Members.require_eof
    token new_decoder
stream_program = tt
