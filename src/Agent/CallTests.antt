-- ===== src/Agent/CallTests.antt =====
-- Tests of the calls of agent/client.go.
use nekiro_sdk_go.Client.Request.{Response}
use nekiro_sdk_go.Prelude.{ℕ, true, false, codes, [], ◌∷◌, none, some, ◌≡◌, refl, sym, ap, bytes_eq}
use nekiro_sdk_go.Prelude.Int.{pos}
use nekiro_sdk_go.Errors.{platform, ok}
use nekiro_sdk_go.Client.Failure.{is_object, has_member}
use nekiro_sdk_go.Client.Members
use nekiro_sdk_go.Client.CallSamples.{
  failure_contract, response_with, sample_body, json_header, reported,
}
use nekiro_sdk_go.Agent.Context.{
  PlatformContext, NestedRequest, check_fields, validate_context, validate_request,
}
use nekiro_sdk_go.Agent.Identifier.{safe_identifier}
use nekiro_sdk_go.Agent.Failure.{router_error, router_error_body, read_body, header_get}
use nekiro_sdk_go.Agent.Failure.Rules.{IsReported, router_error-IsReported}
use nekiro_sdk_go.Agent.Status.{valid_router_error_status}
use nekiro_sdk_go.Agent.Call.{
  Client, CallContract, Doer, NestedResult, prepare, do_request, answer, decode_nested, invoke,
  invoke_stream,
}
use nekiro_sdk_go.Agent.Call.Checked.{IsInvoked, invoke-IsInvoked}
use nekiro_sdk_go.Agent.Call.Closing.{ReturnsOpen, IsOpened, nested_invoke_stream-IsOpened}
use nekiro_sdk_go.Agent.Construct.{http_client, new_client}

abbrev platform_context : PlatformContext
platform_context = record {
  invocation_id = codes "i1";
  root_task_id = codes "r1";
  trace_id = codes "t1";
  workspace_id = codes "w1";
  agent_id = codes "a1";
}

abbrev nested_request : NestedRequest
nested_request = record {
  target_agent_id = codes "a2";
  capability = codes "c1";
  input = some (codes "{}");
  stream = false;
}

abbrev result : NestedResult
result = record {
  invocation_id = codes "i2";
  root_task_id = codes "r1";
  trace_id = codes "t1";
  status = codes "succeeded";
  output = codes "1";
}

abbrev contract : CallContract
contract = record {
  failure_contract = failure_contract;
  encode_request = λ _. ok (codes "{}");
  decode_result = λ _. ok result;
  validate_result = λ _. none;
}

abbrev doer : Doer
doer = record { new_request = λ _. none; transport = λ _. ok (response_with 200) }

abbrev client : Client
client = record {
  router_url = codes "https://router.example";
  token = codes "secret";
  response_limit = 1000;
  event_limit = 1000;
}

invoked : (invoke contract doer client platform_context nested_request).1.outcome ≡ ok result
unfolding invoke do_request prepare validate_context check_fields bytes_eq safe_identifier
    validate_request is_object answer header_get read_body decode_nested
invoked = refl

invoke-IsInvoked_example :
    (nested_request.stream ≡ false)
    × IsInvoked contract doer client platform_context nested_request
        (invoke contract doer client platform_context nested_request).0
        result
invoke-IsInvoked_example =
    invoke-IsInvoked contract doer client platform_context nested_request result invoked

abbrev stream_request : NestedRequest
stream_request = record nested_request { stream = true }

abbrev event_response : Response
event_response = record {
  status = 200;
  header = (codes "Content-Type", codes "text/event-stream" ∷ []) ∷ [];
  body = sample_body;
}

abbrev stream_doer : Doer
stream_doer = record { new_request = λ _. none; transport = λ _. ok event_response }

stream_doer-ReturnsOpen : ReturnsOpen stream_doer
stream_doer-ReturnsOpen request r h =
    let e : event_response ≡ r = cc in ap (λ x. x.body.closes) (sym e)

nested_invoke_stream-IsOpened_example :
    IsOpened client platform_context
      (invoke_stream contract stream_doer {Sequence = ℕ} client platform_context stream_request).1
nested_invoke_stream-IsOpened_example =
    nested_invoke_stream-IsOpened contract stream_doer ℕ client platform_context stream_request
      stream_doer-ReturnsOpen

router_rejects :
    (router_error failure_contract 1000 400 json_header sample_body).0 ≡ platform reported
unfolding router_error bytes_eq header_get read_body router_error_body is_object has_member
    Members.program valid_router_error_status
router_rejects = refl

router_error-IsReported_example :
    IsReported failure_contract 1000 400 json_header sample_body reported
router_error-IsReported_example =
    router_error-IsReported failure_contract 1000 400 json_header sample_body reported
      router_rejects

-- A copy of an `*http.Client` no longer follows redirects.
client_built :
    new_client none none
      (http_client false true)
      (codes "https://router.example")
      (codes "secret")
      (pos 1000)
      (pos 1000)
    ≡ ok (record { follows_redirects = false; client = client })
unfolding new_client bytes_eq
client_built = refl
