-- ===== src/Agent/Call.antt =====
-- `NewClient`, `Invoke`, `InvokeStream` and `do` of agent/client.go. The HTTP doer is a parameter.
pub mod Sent
pub mod Checked
pub mod Closing
use nekiro_sdk_go.Prelude.{
  ℕ, Bytes, Bool, true, false, List, [], ◌∷◌, ◌++◌, ◌==◌, ◌||◌, not, bytes_eq, codes, if◌then◌else◌,
  Option, none, some,
}
use nekiro_sdk_go.Errors.{GoError, plain, wrap, Result, ok, err, ◌>>=◌, ◌>>◌, guard, check, or_wrap}
use nekiro_sdk_go.Client.Body.{Body, closed_once}
use nekiro_sdk_go.Client.Failure.{FailureContract}
use nekiro_sdk_go.Client.Request.{HttpRequest, Response}
use nekiro_sdk_go.Client.Invoke.{Exchange, failed}
use nekiro_sdk_go.Agent.Context.{PlatformContext, NestedRequest, validate_context, validate_request}
use nekiro_sdk_go.Agent.Failure.{media_type, read_body, router_error}
use nekiro_sdk_go.Agent.Stream.{NestedStream}

-- The fields of `Client` that a call reads; the limits lie in 1..2147483647.
pub record Client : Type 0 where
  pub router_url : Bytes
  pub token : Bytes
  pub response_limit : ℕ
  pub event_limit : ℕ

-- `NestedInvocationRequestV1` of the contracts module.
pub record InvocationBody : Type 0 where
  pub parent_invocation_id : Bytes
  pub target_agent_id : Bytes
  pub capability : Bytes
  pub input : Option Bytes
  pub stream : Bool

-- `NestedResult`, and the fields of `contracts.InvocationResult` that it is made of.
pub record NestedResult : Type 0 where
  pub invocation_id : Bytes
  pub root_task_id : Bytes
  pub trace_id : Bytes
  pub status : Bytes
  pub output : Bytes

-- What the contracts module and `json.Marshal` and `json.Unmarshal` of its types supply.
pub record CallContract : Type 0 where
  pub failure_contract : FailureContract
  pub encode_request : InvocationBody → Result Bytes
  pub decode_result : Bytes → Result NestedResult
  pub validate_result : NestedResult → Option GoError

-- `new_request` is the error of `http.NewRequestWithContext` on a target; `transport` is the doer's
-- `Do`, which returns a response with a body where it returns no error.
pub record Doer : Type 0 where
  pub new_request : Bytes → Option GoError
  pub transport : HttpRequest → Result Response

abbrev pub target_of : Client → Bytes
target_of client = client.router_url ++ codes "/agent/v1/invocations"

abbrev pub accept_of : Bool → Bytes
accept_of stream = if stream then codes "text/event-stream" else codes "application/json"

abbrev pub body_of : PlatformContext → NestedRequest → Bool → InvocationBody
body_of pc nr stream = record {
  parent_invocation_id = pc.invocation_id;
  target_agent_id = nr.target_agent_id;
  capability = nr.capability;
  input = nr.input;
  stream = stream;
}

abbrev pub request_of : Client → Bool → Bytes → HttpRequest
request_of client stream payload = record {
  target = target_of client;
  authorization = codes "Bearer " ++ client.token;
  content_type = codes "application/json";
  accept = accept_of stream;
  payload = payload;
}

module _ (contract : CallContract) (doer : Doer) where
  -- `do` before it calls the doer.
  unfoldable pub prepare : Client → PlatformContext → NestedRequest → Bool → Result HttpRequest
  prepare client pc nr stream = do
    validate_context contract.failure_contract.parse_trace pc
    validate_request nr
    payload ←
        or_wrap (contract.encode_request (body_of pc nr stream)) "agentsdk: encode nested request"
    or_wrap (check (doer.new_request (target_of client))) "agentsdk: construct nested request"
    ok (request_of client stream payload)

  abbrev pub send : Result HttpRequest → List HttpRequest × Result Response
  send (err e) = ([], err e)
  send (ok r) = (r ∷ [], or_wrap (doer.transport r) "agentsdk: nested request failed")

  -- `do`, with the requests that went out.
  unfoldable pub do_request :
      Client → PlatformContext → NestedRequest → Bool → List HttpRequest × Result Response
  do_request client pc nr stream = send (prepare client pc nr stream)

  abbrev pub correlated : PlatformContext → NestedResult → Bool
  correlated pc result = not (
      not (bytes_eq result.root_task_id pc.root_task_id)
      || not (bytes_eq result.trace_id pc.trace_id))

  -- The part of `Invoke` behind the reading of the body.
  unfoldable pub decode_nested : PlatformContext → Bytes → Result NestedResult
  decode_nested pc body = do
    result ← or_wrap (contract.decode_result body) "agentsdk: decode nested result"
    or_wrap (check (contract.validate_result result)) "agentsdk: validate nested result"
    guard (correlated pc result)
        (plain "agentsdk: nested result correlation does not match platform context")
    ok result

  abbrev pub nested_read : PlatformContext → Result Bytes × Body → Exchange NestedResult
  nested_read pc (err e, b) = failed (wrap "agentsdk: read nested response" e, closed_once b)
  nested_read pc (ok body, b) = record {
    outcome = decode_nested pc body;
    body = some (closed_once b);
  }

  abbrev pub closed_failure {ℓ} : {A : Type ℓ} → GoError × Body → Exchange A
  closed_failure (e, b) = failed (e, closed_once b)

  -- `Invoke` on a response; the deferred `Close` comes last, and its error is dropped.
  unfoldable pub answer : Client → PlatformContext → Response → Exchange NestedResult
  answer client pc r =
      if not (r.status == 200)
      then closed_failure
          (router_error contract.failure_contract client.response_limit r.status r.header r.body)
      else if not (bytes_eq (media_type r.header) (codes "application/json"))
      then closed_failure (plain "agentsdk: nested JSON response media is invalid", r.body)
      else nested_read pc (read_body client.response_limit r.body)

  abbrev pub answered {ℓ} : {A : Type ℓ} → (Response → Exchange A) → Result Response → Exchange A
  answered next (err e) = record { outcome = err e; body = none }
  answered next (ok r) = next r

  -- `Invoke`, with the requests that went out.
  unfoldable pub invoke :
      Client → PlatformContext → NestedRequest → List HttpRequest × Exchange NestedResult
  invoke client pc nr =
      if nr.stream
      then (
        [],
        record {
          outcome = err (plain "agentsdk: streaming requests must use InvokeStream");
          body = none;
        },
      )
      else (let sent = do_request client pc nr false in
          (sent.0, answered (answer client pc) sent.1))

  -- The stream that `InvokeStream` returns.
  unfoldable pub new_nested_stream :
      {Sequence : Type 0} → Client → PlatformContext → Body → NestedStream Sequence
  new_nested_stream client pc b = record {
    reader = b.reader;
    close_error = b.close_error;
    closes = b.closes;
    event_limit = client.event_limit;
    root_task_id = pc.root_task_id;
    trace_id = pc.trace_id;
    sequence = none;
    invocation_id = [];
    terminal = false;
    finished = false;
    closed = false;
    body_closed = false;
  }

  unfoldable pub open_stream :
      {Sequence : Type 0} → Client → PlatformContext → Response → Exchange (NestedStream Sequence)
  open_stream client pc r =
      if not (r.status == 200)
      then closed_failure
          (router_error contract.failure_contract client.response_limit r.status r.header r.body)
      else if not (bytes_eq (media_type r.header) (codes "text/event-stream"))
      then closed_failure (plain "agentsdk: nested stream response media is invalid", r.body)
      else record { outcome = ok (new_nested_stream client pc r.body); body = some r.body }

  -- `InvokeStream`, with the requests that went out.
  unfoldable pub invoke_stream :
      {Sequence : Type 0}
      → Client
      → PlatformContext
      → NestedRequest
      → List HttpRequest × Exchange (NestedStream Sequence)
  invoke_stream client pc nr =
      if not nr.stream
      then (
        [],
        record {
          outcome = err (plain "agentsdk: InvokeStream requires NestedRequest.Stream=true");
          body = none;
        },
      )
      else (let sent = do_request client pc nr true in
          (sent.0, answered (open_stream client pc) sent.1))
