-- ===== src/Client/Body.antt =====
-- A response body, `readBounded`, `readAndCloseBounded`, `closeWithError` and the header checks of
-- client/json.go.
pub mod Laws
use nekiro_sdk_go.Prelude.{
  ℕ, suc, ◌+◌, Bytes, Bool, true, false, List, [], ◌∷◌, length, take, drop, ltb, leb, bytes_eq,
  codes, not, if◌then◌else◌, Option, none, some,
}
use nekiro_sdk_go.Errors.{
  GoError, plain, quoted, eof, errors_is, Result, ok, err, ◌>>=◌, guard, join_with, or_error,
}
use nekiro_sdk_go.Http.{Header, values}
use nekiro_sdk_go.Client.Sse.{Reader, reader_at}

-- What is left to read, what `Close` returns, and how often it was called.
pub record Body : Type 0 where
  pub reader : Reader
  pub close_error : Option GoError
  pub closes : ℕ

abbrev pub closed_once : Body → Body
closed_once b = record b { closes = suc b.closes }

-- `io.ReadAll(io.LimitReader(reader, n))`: the error behind the bytes is only met when they are
-- fewer than `n`, and `io.EOF` is none.
abbrev ended : GoError → Bytes → Result Bytes
ended e content = if errors_is e eof then ok content else err e

unfoldable pub read_all_limited : ℕ → Reader → Result Bytes × Reader
unfolding errors_is
read_all_limited n r =
    if leb n (length r.pending)
    then (ok (take n r.pending), reader_at (drop n r.pending) r.ending)
    else (ended r.ending r.pending, reader_at [] r.ending)

abbrev pub too_large : GoError
too_large = plain "response exceeds the configured limit"

abbrev within : ℕ → Result Bytes → Result Bytes
within limit (ok content) = if ltb limit (length content) then err too_large else ok content
within limit (err e) = err e

unfoldable pub read_bounded : ℕ → Reader → Result Bytes × Reader
unfolding read_all_limited
read_bounded limit r =
    let (content, r') = read_all_limited (limit + 1) r in (within limit content, r')

abbrev joined : Result Bytes → Option GoError → Result Bytes
joined (ok content) none = ok content
joined (ok content) (some e) = err e
joined (err e) ce = err (join_with e ce)

unfoldable pub read_and_close_bounded : ℕ → Body → Result Bytes × Body
unfolding read_bounded
read_and_close_bounded limit b =
    let (content, r) = read_bounded limit b.reader in
    (joined content b.close_error, closed_once (record b { reader = r }))

-- `closeWithError(body, err)`
unfoldable pub close_with_error : Body → GoError → GoError × Body
close_with_error b e = (join_with e b.close_error, closed_once b)

abbrev single_value : Bytes → List Bytes → Result Bytes
single_value name (v ∷ []) =
    if bytes_eq v []
    then err (quoted "clientsdk: response must contain exactly one header" name)
    else ok v
single_value name _ = err (quoted "clientsdk: response must contain exactly one header" name)

unfoldable pub require_single_header : Header → Bytes → Result Bytes
unfolding values bytes_eq
require_single_header header name = single_value name (values header name)

abbrev pub trace_header : Bytes
trace_header = codes "x-nek-trace-id"

-- `parse_trace` is `ParseTraceID` of the contracts module.
unfoldable pub require_trace_header : (Bytes → Option GoError) → Header → Result Bytes
unfolding require_single_header
require_trace_header parse_trace header = do
  value ← require_single_header header trace_header
  elim (parse_trace value) [
    | none ↦ ok value
    | some _ ↦ err (plain "clientsdk: response Trace header is invalid")
  ]

unfoldable pub require_media_type : Header → Bytes → Result (Unit {0})
unfolding require_single_header bytes_eq
require_media_type header expected = do
  value ← require_single_header header (codes "Content-Type")
  guard (bytes_eq value expected) (plain "clientsdk: response Content-Type is invalid")
