-- ===== src/Client/Invoke.antt =====
-- `Invoke` of client/client.go and `InvokeStream` of client/stream.go.
pub mod Closing
pub mod Checked
use nekiro_sdk_go.Prelude.{
  ℕ, Bytes, Bool, true, false, List, [], ◌∷◌, ◌==◌, bytes_eq, codes, if◌then◌else◌, Option, none,
  some,
}
use nekiro_sdk_go.Errors.{GoError, plain, wrap, Result, ok, err}
use nekiro_sdk_go.Http.{Header}
use nekiro_sdk_go.Json.Decoder.{new_decoder}
use nekiro_sdk_go.Client.Members.{reject_duplicate_json_members, require_eof}
use nekiro_sdk_go.Client.Body.{
  Body, require_media_type, require_trace_header, read_and_close_bounded, close_with_error,
}
use nekiro_sdk_go.Client.Failure.{FailureContract, decode_platform_error}
use nekiro_sdk_go.Client.Request.{
  Client, Context, HttpRequest, InvokeRequest, Response, Http, do_request,
}
use nekiro_sdk_go.Client.Stream.{Stream}
use nekiro_sdk_go.Client.Stream.Runs.{new_stream}

-- `Result`, and the fields of `contracts.InvocationResult` that it is made of.
pub record InvokeResult : Type 0 where
  pub invocation_id : Bytes
  pub root_task_id : Bytes
  pub trace_id : Bytes
  pub output : Bytes

-- The result's strict decoding (with the input behind it) and its validation.
pub record ResultContract : Type 0 where
  pub failure_contract : FailureContract
  pub decode_result : Bytes → Result (InvokeResult × Bytes)
  pub validate_result : InvokeResult → Option GoError

-- What a call comes to: its result, and the response's body, if there was one.
pub record Exchange {ℓ} (A : Type ℓ) : Type ℓ where
  pub outcome : Result A
  pub body : Option Body

abbrev pub failed {ℓ} : {A : Type ℓ} → GoError × Body → Exchange A
failed (e, b) = record { outcome = err e; body = some b }

abbrev pub response_empty : GoError
response_empty = plain "clientsdk: Gateway response is empty"

abbrev pub result_invalid : GoError
result_invalid = plain "clientsdk: Gateway result response is invalid"

abbrev pub trace_differs : GoError
trace_differs = plain "clientsdk: Gateway result Trace does not match response header"

module _ (contract : ResultContract) where
  -- The part of `Invoke` behind the reading of the body.
  unfoldable pub decode_result_body : Bytes → Bytes → Result InvokeResult
  unfolding reject_duplicate_json_members require_eof new_decoder bytes_eq
  decode_result_body trace body = elim (reject_duplicate_json_members body) [
    | err _ ↦ err result_invalid
    | ok _ ↦ elim (contract.decode_result body) [
      | err _ ↦ err result_invalid
      | ok d ↦ elim (require_eof (new_decoder d.1)) [
        | err _ ↦ err result_invalid
        | ok _ ↦ elim (contract.validate_result d.0) [
          | some _ ↦ err result_invalid
          | none ↦ if bytes_eq d.0.trace_id trace then ok d.0 else err trace_differs
        ]
      ]
    ]
  ]

  abbrev pub result_read : Bytes → Result Bytes × Body → Exchange InvokeResult
  result_read trace (err e, b) = record {
    outcome = err (wrap "clientsdk: read Gateway result" e);
    body = some b;
  }
  result_read trace (ok body, b) = record { outcome = decode_result_body trace body; body = some b }

  abbrev pub read_result : ℕ → Bytes → Body → Exchange InvokeResult
  read_result limit trace b = result_read trace (read_and_close_bounded limit b)

  -- The checks that `Invoke` and `InvokeStream` share, and what follows them.
  abbrev pub receive {ℓ} :
      {A : Type ℓ} → ℕ → Bytes → (Bytes → Body → Exchange A) → Response → Exchange A
  receive limit media continue r =
      if r.status == 200
      then elim (require_media_type r.header media) [
        | err e ↦ failed (close_with_error r.body e)
        | ok _ ↦ elim (require_trace_header contract.failure_contract.parse_trace r.header) [
          | err e ↦ failed (close_with_error r.body e)
          | ok trace ↦ continue trace r.body
        ]
      ]
      else failed (decode_platform_error contract.failure_contract limit r.status r.header r.body)

  abbrev pub received {ℓ} :
      {A : Type ℓ} → ℕ → Bytes → (Bytes → Body → Exchange A) → Result (Option Response) → Exchange A
  received limit media continue (err e) = record { outcome = err e; body = none }
  received limit media continue (ok none) = record { outcome = err response_empty; body = none }
  received limit media continue (ok (some r)) = receive limit media continue r

  unfoldable pub invoke : Http → Client → Context → InvokeRequest → Exchange InvokeResult
  unfolding do_request decode_result_body require_media_type require_trace_header
      read_and_close_bounded close_with_error decode_platform_error
  invoke http client ctx request =
      received client.response_limit (codes "application/json") (read_result client.response_limit)
        (do_request http client ctx request false (codes "application/json")).1

  abbrev pub open_stream : {Sequence : Type 0} → ℕ → Bytes → Body → Exchange (Stream Sequence)
  open_stream limit trace b = record {
    outcome = ok (new_stream b.reader b.close_error limit trace);
    body = some b;
  }

  unfoldable pub invoke_stream :
      {Sequence : Type 0} → Http → Client → Context → InvokeRequest → Exchange (Stream Sequence)
  unfolding do_request new_stream require_media_type require_trace_header close_with_error
      decode_platform_error
  invoke_stream http client ctx request =
      received client.response_limit (codes "text/event-stream")
        (open_stream client.stream_event_limit)
        (do_request http client ctx request true (codes "text/event-stream")).1
