-- ===== src/Client/CallSamples.antt =====
-- Sample calls of the Gateway for the tests of client/client.go.
use nekiro_sdk_go.Prelude.{ℕ, Bytes, [], ◌∷◌, codes, none, some}
use nekiro_sdk_go.Errors.{plain, sentinel, eof, ok, err, PlatformError}
use nekiro_sdk_go.Http.{Header}
use nekiro_sdk_go.Client.Sse.{reader_at}
use nekiro_sdk_go.Client.Body.{Body}
use nekiro_sdk_go.Client.Codes.{Code, validation_error}
use nekiro_sdk_go.Client.Failure.{FailureContract}
use nekiro_sdk_go.Client.Request.{Client, Context, context, InvokeRequest, Response, Http}
use nekiro_sdk_go.Client.Invoke.{InvokeResult, ResultContract}

abbrev pub spelling : Code → Bytes
spelling validation_error = codes "VALIDATION_ERROR"
spelling _ = codes "OTHER"

abbrev pub failure_contract : FailureContract
failure_contract = record {
  spelling = spelling;
  parse_trace = λ _. none;
  validate_correlated = λ _. none;
  validate_pre_correlation = λ _. none;
  decode_correlated = λ _. err (plain "unused");
  decode_pre_correlation = λ _. ok (codes "VALIDATION_ERROR", codes "t1");
}

abbrev pub sample_result : InvokeResult
sample_result = record {
  invocation_id = codes "i1";
  root_task_id = codes "r1";
  trace_id = codes "t1";
  output = codes "1";
}

abbrev pub result_contract : ResultContract
result_contract = record {
  failure_contract = failure_contract;
  decode_result = λ _. ok (sample_result, []);
  validate_result = λ _. none;
}

abbrev pub json_header : Header
json_header =
    (codes "Content-Type", codes "application/json" ∷ [])
    ∷ (codes "X-Nek-Trace-Id", codes "t1" ∷ [])
    ∷ []

abbrev pub sample_body : Body
sample_body = record {
  reader = reader_at (codes "{}") (sentinel eof);
  close_error = none;
  closes = 0;
}

abbrev pub response_with : ℕ → Response
response_with status = record { status = status; header = json_header; body = sample_body }

abbrev pub sample_http : Http
sample_http = record { new_request = λ _. none; transport = λ _. ok (some (response_with 200)) }

abbrev pub client : Client
client = record {
  gateway_origin = codes "https://gateway.example";
  workspace_id = codes "w1";
  application_credential = codes "secret";
  request_limit = 1000;
  response_limit = 1000;
  stream_event_limit = 1000;
}

abbrev pub request : InvokeRequest
request = record { agent_id = codes "a1"; capability = codes "c1"; input = some (codes "{}") }

abbrev pub live_context : Context
live_context = context none

abbrev pub reported : PlatformError
reported = record {
  status_code = 400;
  code = codes "VALIDATION_ERROR";
  trace_id = codes "t1";
  invocation_id = [];
  root_task_id = [];
}
