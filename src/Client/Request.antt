-- ===== src/Client/Request.antt =====
-- `validateJSONObject` and `encodeInvocationRequest` of client/json.go, and `do` of
-- client/client.go. The HTTP client is a parameter.
pub mod Sent
use nekiro_sdk_go.Prelude.{
  ℕ, ◌+◌, Bytes, Bool, true, false, List, [], ◌∷◌, ◌++◌, length, ltb, ◌==◌, not, bytes_eq, codes,
  if◌then◌else◌, Option, none, some,
}
use nekiro_sdk_go.Prelude.Spaces.{trim_space}
use nekiro_sdk_go.Errors.{
  GoError, plain, wrap, Result, ok, err, ◌>>=◌, ◌>>◌, guard, check, or_error, or_wrap,
}
use nekiro_sdk_go.Http.{Header}
use nekiro_sdk_go.Client.Members.{reject_duplicate_json_members}
use nekiro_sdk_go.Client.Identifier.{safe_identifier}
use nekiro_sdk_go.Client.Body.{Body}

-- `input` is nil or some bytes.
pub record InvokeRequest : Type 0 where
  pub agent_id : Bytes
  pub capability : Bytes
  pub input : Option Bytes

-- The fields of `Client` that a call reads.
pub record Client : Type 0 where
  pub gateway_origin : Bytes
  pub workspace_id : Bytes
  pub application_credential : Bytes
  pub request_limit : ℕ
  pub response_limit : ℕ
  pub stream_event_limit : ℕ

abbrev pub starts_object : Bytes → Bool
starts_object [] = false
starts_object (c ∷ cs) = c == b'{'

unfoldable pub validate_json_object : Option Bytes → Result (Unit {0})
unfolding reject_duplicate_json_members trim_space
validate_json_object none = err (plain "clientsdk: input is required")
validate_json_object (some content) = do
  _ ← or_error (reject_duplicate_json_members content) (plain "clientsdk: input is invalid")
  guard (starts_object (trim_space content)) (plain "clientsdk: input must be a JSON object")

abbrev pub input_bytes : Option Bytes → Bytes
input_bytes none = []
input_bytes (some content) = content

abbrev quote : Bytes
quote = b'"' ∷ []

-- `{"agentId":"…","capability":"…","input":`
abbrev pub request_prefix : InvokeRequest → Bytes
request_prefix r =
    b'{' ∷ quote
    ++ codes "agentId"
    ++ quote
    ++ b':' ∷ quote
    ++ r.agent_id
    ++ quote
    ++ b',' ∷ quote
    ++ codes "capability"
    ++ quote
    ++ b':' ∷ quote
    ++ r.capability
    ++ quote
    ++ b',' ∷ quote
    ++ codes "input"
    ++ quote
    ++ b':' ∷ []

-- `,"stream":true}`
abbrev pub request_suffix : Bool → Bytes
request_suffix stream =
    b',' ∷ quote
    ++ codes "stream"
    ++ quote
    ++ b':' ∷ (if stream then codes "true" else codes "false")
    ++ b'}' ∷ []

unfoldable pub encode_invocation_request : InvokeRequest → Bool → ℕ → Result Bytes
unfolding validate_json_object
encode_invocation_request r stream limit = do
  let content = input_bytes r.input
  guard
      (not
        (ltb limit (length (request_prefix r) + length content + length (request_suffix stream))))
      (plain "clientsdk: invocation request exceeds the configured limit")
  validate_json_object r.input
  ok (request_prefix r ++ content ++ request_suffix stream)

-- The `*http.Request` as `do` builds it.
pub record HttpRequest : Type 0 where
  pub target : Bytes
  pub authorization : Bytes
  pub content_type : Bytes
  pub accept : Bytes
  pub payload : Bytes

pub record Response : Type 0 where
  pub status : ℕ
  pub header : Header
  pub body : Body

-- A context, with what `Err` says of it.
pub data Context : Type 0 where
  nil_context : Context
  context : Option GoError → Context

abbrev pub context_check : Context → Result (Unit {0})
context_check nil_context = err (plain "clientsdk: context is required")
context_check (context e) = or_wrap (check e) "clientsdk: invocation context is done"

abbrev pub target_of : Client → Bytes
target_of client =
    client.gateway_origin ++ codes "/v1/workspaces/" ++ client.workspace_id ++ codes "/invocations"

-- `new_request` is the error of `http.NewRequestWithContext` on a target; `transport` is the HTTP
-- client's `Do`, where a nil response or a nil body is `none`.
pub record Http : Type 0 where
  pub new_request : Bytes → Option GoError
  pub transport : HttpRequest → Result (Option Response)

module _ (http : Http) where
  -- `do` before it calls the HTTP client.
  unfoldable pub prepare : Client → Context → InvokeRequest → Bool → Bytes → Result HttpRequest
  unfolding safe_identifier encode_invocation_request
  prepare client ctx request stream accept = do
    context_check ctx
    guard (safe_identifier request.agent_id) (plain "clientsdk: Agent ID is invalid")
    guard (safe_identifier request.capability) (plain "clientsdk: capability is invalid")
    payload ← encode_invocation_request request stream client.request_limit
    or_wrap (check (http.new_request (target_of client))) "clientsdk: construct Gateway request"
    ok (record {
      target = target_of client;
      authorization = codes "Bearer " ++ client.application_credential;
      content_type = codes "application/json";
      accept = accept;
      payload = payload;
    })

  abbrev pub send : Result HttpRequest → List HttpRequest × Result (Option Response)
  send (err e) = ([], err e)
  send (ok r) = (r ∷ [], or_wrap (http.transport r) "clientsdk: Gateway invocation failed")

  -- `do`, with the requests that went out.
  unfoldable pub do_request :
      Client → Context → InvokeRequest → Bool → Bytes → List HttpRequest × Result (Option Response)
  unfolding prepare
  do_request client ctx request stream accept = send (prepare client ctx request stream accept)
