-- ===== src/Agent/Sse.antt =====
-- `readSSEFrame` of agent/client.go, which looks at the limit last. Its `readSSELine` is that of
-- client/stream.go, word for word.
use nekiro_sdk_go.Prelude.{
  ℕ, ◌+◌, Bytes, [], ◌∷◌, length, ltb, leb, not, if◌then◌else◌, bytes_eq, Option, none, some, ◌≡◌,
  inl, inr, refl, arith, Bool-cases,
}
use nekiro_sdk_go.Errors.{sentinel, eof, errors_is, Result, ok, err}
use nekiro_sdk_go.Client.Sse.{
  Reader, read_sse_line, is_data_line, payload_of, is_compact, frame_too_large, empty_payload,
  not_compact, no_blank_line, not_one_line,
}
use nekiro_sdk_go.Client.Sse as Gateway

unfoldable pub frame_payload : ℕ → Bytes → Bytes → Result Bytes
unfolding is_compact
frame_payload limit line blank =
    if leb (length (payload_of line)) 0
    then err empty_payload
    else if not (is_compact (payload_of line))
    then err not_compact
    else if ltb limit (length line + length blank)
    then err frame_too_large
    else ok (payload_of line)

abbrev after_blank : ℕ → Bytes → Result Bytes × Reader → Result Bytes × Reader
after_blank limit line (err e, r) = (err no_blank_line, r)
after_blank limit line (ok blank, r) =
    if bytes_eq blank (10 ∷ []) then (frame_payload limit line blank, r) else (err no_blank_line, r)

abbrev after_line : ℕ → Result Bytes × Reader → Result Bytes × Reader
after_line limit (err e, r) = if errors_is e eof then (err (sentinel eof), r) else (err e, r)
after_line limit (ok line, r) =
    if is_data_line line
    then after_blank limit line (read_sse_line limit r)
    else (err not_one_line, r)

unfoldable pub read_sse_frame : ℕ → Reader → Result Bytes × Reader
unfolding read_sse_line is_data_line frame_payload bytes_eq errors_is
read_sse_frame limit r = after_line limit (read_sse_line limit r)

abbrev pub payload_read : Result Bytes → Option Bytes
payload_read (ok payload) = some payload
payload_read (err e) = none

-- The same payload, if any, and the same reader.
abbrev pub Agrees : Result Bytes × Reader → Result Bytes × Reader → Type 0
Agrees m n = (payload_read m.0 ≡ payload_read n.0) × (m.1 ≡ n.1)

frame_payload-Agrees :
    (limit : ℕ) (line blank : Bytes)
    → payload_read (frame_payload limit line blank)
      ≡ payload_read (Gateway.frame_payload limit line blank)
unfolding frame_payload Gateway.frame_payload
frame_payload-Agrees limit line blank = ground arith

after_blank-Agrees :
    (limit : ℕ) (line : Bytes) (m : Result Bytes × Reader)
    → Agrees (after_blank limit line m) (Gateway.after_blank limit line m)
after_blank-Agrees limit line (err e, r) = (refl, refl)
after_blank-Agrees limit line (ok blank, r) = elim (Bool-cases (bytes_eq blank (10 ∷ []))) [
  | inl e ↦ rw e (frame_payload-Agrees limit line blank, refl)
  | inr e ↦ rw e (refl, refl)
]

after_line-Agrees :
    (limit : ℕ) (m : Result Bytes × Reader)
    → Agrees (after_line limit m) (Gateway.after_line limit m)
after_line-Agrees limit (err e, r) = elim (Bool-cases (errors_is e eof)) [
  | inl t ↦ rw t (refl, refl)
  | inr t ↦ rw t (refl, refl)
]
after_line-Agrees limit (ok line, r) = elim (Bool-cases (is_data_line line)) [
  | inl t ↦ rw t (after_blank-Agrees limit line (read_sse_line limit r))
  | inr t ↦ rw t (refl, refl)
]

-- The two SDKs read the same frames: on every input and limit they yield the same payload, or both
-- fail, and leave the reader at the same place; only the error can differ.
pub read_sse_frame-Agrees :
    (limit : ℕ) (r : Reader) → Agrees (read_sse_frame limit r) (Gateway.read_sse_frame limit r)
unfolding read_sse_frame Gateway.read_sse_frame
read_sse_frame-Agrees limit r = after_line-Agrees limit (read_sse_line limit r)
