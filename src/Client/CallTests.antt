-- ===== src/Client/CallTests.antt =====
-- Tests of client/client.go, client/json.go and client/errors.go.
use nekiro_sdk_go.Prelude.{ℕ, false, ◌∷◌, ◌++◌, codes, ◌≡◌, refl, arith}
use nekiro_sdk_go.Errors.{ok, platform}
use nekiro_sdk_go.Client.Members as Members
use nekiro_sdk_go.Client.Failure.{decode_platform_error}
use nekiro_sdk_go.Client.Failure.Rules.{IsReported, decode_platform_error-IsReported}
use nekiro_sdk_go.Client.Request.{do_request, request_prefix}
use nekiro_sdk_go.Client.Request.Sent.{IsSent, do_request-IsSent}
use nekiro_sdk_go.Client.Invoke.{invoke, invoke_stream}
use nekiro_sdk_go.Client.Invoke.Closing.{
  AllClosed, IsSettled, ReturnsOpen, invoke-AllClosed, invoke_stream-IsSettled,
}
use nekiro_sdk_go.Client.Invoke.Checked.{IsChecked, invoke-IsChecked}
use nekiro_sdk_go.Client.CallSamples.{
  failure_contract, result_contract, sample_result, json_header, sample_body, sample_http, client,
  request, live_context, reported,
}

request-text :
    request_prefix request
    ≡ codes "{"
      ++ b'"' ∷ codes "agentId"
      ++ b'"' ∷ codes ":"
      ++ b'"' ∷ codes "a1"
      ++ b'"' ∷ codes ","
      ++ b'"' ∷ codes "capability"
      ++ b'"' ∷ codes ":"
      ++ b'"' ∷ codes "c1"
      ++ b'"' ∷ codes ","
      ++ b'"' ∷ codes "input"
      ++ b'"' ∷ codes ":"
request-text = refl

do_request-IsSent_example :
    IsSent sample_http client live_context request false
      (codes "application/json")
      (do_request sample_http client live_context request false (codes "application/json"))
do_request-IsSent_example =
    do_request-IsSent sample_http client live_context request false (codes "application/json")

returns_open : ReturnsOpen sample_http
returns_open q r h = ground arith

invoke-AllClosed_example :
    AllClosed (invoke result_contract sample_http client live_context request).body
invoke-AllClosed_example =
    invoke-AllClosed result_contract sample_http client live_context request returns_open

invoke_stream-IsSettled_example :
    IsSettled (invoke_stream result_contract {Sequence = ℕ} sample_http client live_context request)
invoke_stream-IsSettled_example =
    invoke_stream-IsSettled result_contract sample_http client live_context request ℕ returns_open

invoke-result :
    (invoke result_contract sample_http client live_context request).outcome ≡ ok sample_result
unfolding invoke Members.program
invoke-result = refl

invoke-IsChecked_example :
    IsChecked result_contract client
      (do_request sample_http client live_context request false (codes "application/json")).1
      sample_result
invoke-IsChecked_example =
    invoke-IsChecked result_contract sample_http client live_context request sample_result
      invoke-result

decode-reported :
    (decode_platform_error failure_contract 100 400 json_header sample_body).0 ≡ platform reported
unfolding decode_platform_error Members.program
decode-reported = refl

decode_platform_error-IsReported_example :
    IsReported failure_contract 100 400 json_header sample_body reported
decode_platform_error-IsReported_example =
    decode_platform_error-IsReported failure_contract 100 400 json_header sample_body reported
      decode-reported
