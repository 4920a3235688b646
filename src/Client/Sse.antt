-- ===== src/Client/Sse.antt =====
-- `readSSELine` and `readSSEFrame` of client/stream.go over a buffered reader.
pub mod Line
pub mod Lines
mod DataLine
pub mod Frame
use nekiro_sdk_go.Prelude.{
  ℕ, zero, suc, ◌+◌, ◌-◌, Bytes, Bool, true, false, Option, none, some, List, [], ◌∷◌, ◌++◌, length,
  take, drop, codes, ltb, leb, ◌==◌, if◌then◌else◌, not, ◌&&◌, ◌||◌, bytes_eq, has_prefix,
  contains_byte,
}
use nekiro_sdk_go.Json.Compact.{compact}
use nekiro_sdk_go.Errors.{
  GoError, sentinel, plain, eof, unexpected_eof, buffer_full, errors_is, Result, ok, err,
}

-- A `*bufio.Reader` over a response body: the bytes still to come, and the error of the read that
-- follows them (`io.EOF` at the end of a whole body).
pub record Reader : Type 0 where
  pub pending : Bytes
  pub ending : GoError

abbrev pub reader_at : Bytes → GoError → Reader
reader_at pending ending = record { pending = pending; ending = ending }

pub data SliceStatus : Type 0 where
  delimited full ended : SliceStatus

pub record Slice : Type 0 where
  pub part : Bytes
  pub rest : Bytes
  pub status : SliceStatus

abbrev extend : ℕ → Slice → Slice
extend x s = record s { part = x ∷ s.part }

-- `reader.ReadSlice('\n')` with a buffer of `size` bytes: up to and with the first newline, a full
-- buffer that holds none (`bufio.ErrBufferFull`), or what precedes the body's error.
unfoldable pub read_slice : ℕ → Bytes → Slice
read_slice zero xs = record { part = []; rest = xs; status = full }
read_slice (suc n) [] = record { part = []; rest = []; status = ended }
read_slice (suc n) (x ∷ xs) =
    let more = read_slice n xs in
    if x == 10 then record { part = x ∷ []; rest = xs; status = delimited } else extend x more

abbrev pub frame_too_large : GoError
frame_too_large = plain "SSE frame exceeds the configured limit"

-- The error of `ReadSlice` that is neither nil nor `bufio.ErrBufferFull`.
abbrev line_failure : Bytes → GoError → GoError
line_failure line e =
    if errors_is e eof then elim line [ [] ↦ sentinel eof | _ ↦ sentinel unexpected_eof ] else e

-- The loop of `readSSELine`; `line` holds what was appended. Without fuel it reports that no
-- progress is made.
unfoldable pub read_line_from : ℕ → ℕ → ℕ → Bytes → Reader → Result Bytes × Reader
read_line_from zero size limit line r = (err (sentinel buffer_full), r)
read_line_from (suc fuel) size limit line r =
    let s = read_slice size r.pending in
    let line' = line ++ s.part in
    let r' = record r { pending = s.rest } in
    let again = read_line_from fuel size limit line' r' in
    let stopped =
      if errors_is r.ending buffer_full then again else (err (line_failure line' r.ending), r') in
    if ltb limit (length line')
    then (err frame_too_large, r')
    else elim s.status [ delimited ↦ (ok line', r') | full ↦ again | ended ↦ stopped ]

-- `bufio.NewReader` has a buffer of 4096 bytes.
abbrev pub buffer_size : ℕ
buffer_size = 4096

unfoldable pub read_sse_line : ℕ → Reader → Result Bytes × Reader
unfolding read_line_from read_slice
read_sse_line limit r = read_line_from (suc (length r.pending)) buffer_size limit [] r

abbrev pub data_prefix : Bytes
data_prefix = codes "data: "

-- `line[len(line)-1]` of a line that is not empty.
abbrev pub last_byte : Bytes → ℕ
last_byte [] = 0
last_byte (x ∷ []) = x
last_byte (x ∷ y ∷ xs) = last_byte (y ∷ xs)

-- The conditions on the first line of a frame.
unfoldable pub is_data_line : Bytes → Bool
unfolding has_prefix contains_byte
is_data_line line =
    has_prefix data_prefix line
    && not (contains_byte b'\r' line)
    && not (ltb (length line) 7)
    && last_byte line == b'\n'

-- `line[len("data: ") : len(line)-1]`
abbrev pub payload_of : Bytes → Bytes
payload_of line = take (length line - 7) (drop 6 line)

-- `json.Compact` succeeds and changes nothing.
unfoldable pub is_compact : Bytes → Bool
unfolding compact bytes_eq
is_compact payload = elim (compact payload) [ none ↦ false | some c ↦ bytes_eq c payload ]

abbrev pub not_one_line : GoError
not_one_line = plain "SSE frame must contain exactly one data line"

abbrev pub no_blank_line : GoError
no_blank_line = plain "SSE frame must end with one blank line"

abbrev pub empty_payload : GoError
empty_payload = plain "SSE data payload is empty"

abbrev pub not_compact : GoError
not_compact = plain "SSE data payload must be compact JSON"

-- The checks behind the blank line.
unfoldable pub frame_payload : ℕ → Bytes → Bytes → Result Bytes
unfolding is_compact
frame_payload limit line blank =
    if ltb limit (length line + length blank)
    then err frame_too_large
    else if leb (length (payload_of line)) 0
    then err empty_payload
    else if is_compact (payload_of line)
    then ok (payload_of line)
    else err not_compact

abbrev pub after_blank : ℕ → Bytes → Result Bytes × Reader → Result Bytes × Reader
after_blank limit line (err e, r) = (err no_blank_line, r)
after_blank limit line (ok blank, r) =
    if bytes_eq blank (10 ∷ []) then (frame_payload limit line blank, r) else (err no_blank_line, r)

abbrev pub after_line : ℕ → Result Bytes × Reader → Result Bytes × Reader
after_line limit (err e, r) = (err (if errors_is e eof then sentinel eof else e), r)
after_line limit (ok line, r) =
    if is_data_line line
    then after_blank limit line (read_sse_line limit r)
    else (err not_one_line, r)

unfoldable pub read_sse_frame : ℕ → Reader → Result Bytes × Reader
read_sse_frame limit r = after_line limit (read_sse_line limit r)
