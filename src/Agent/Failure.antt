-- ===== src/Agent/Failure.antt =====
-- `RouterError`, `routerError` and `readBounded` of agent/client.go, which reads the first value of a
-- header and leaves the closing of the body to its caller.
pub mod Rules
use nekiro_sdk_go.Prelude.{
  ℕ, Bytes, Bool, true, false, List, [], ◌∷◌, not, bytes_eq, codes, if◌then◌else◌, Option, none,
  some,
}
use nekiro_sdk_go.Errors.{GoError, plain, wrap, platform, PlatformError, Result, ok, err}
use nekiro_sdk_go.Http.{Header, values}
use nekiro_sdk_go.Client.Members.{reject_duplicate_json_members}
use nekiro_sdk_go.Client.Body.{Body, read_bounded, trace_header}
use nekiro_sdk_go.Client.Failure.{FailureContract, is_object, has_member, same_bool, wire_error}
use nekiro_sdk_go.Agent.Status.{valid_router_error_status}

abbrev pub first : List Bytes → Bytes
first [] = []
first (v ∷ vs) = v

-- `Header.Get`
unfoldable pub header_get : Header → Bytes → Bytes
unfolding values
header_get header name = first (values header name)

-- `mediaType(resp.Header.Get("Content-Type"))`
abbrev pub media_type : Header → Bytes
media_type header = header_get header (codes "Content-Type")

-- The body behind a bounded read.
unfoldable pub read_body : ℕ → Body → Result Bytes × Body
unfolding read_bounded
read_body limit b =
    let (content, r) = read_bounded limit b.reader in (content, record b { reader = r })

abbrev pub body_invalid : GoError
body_invalid = plain "agentsdk: router error body is invalid"

abbrev pub shape_invalid : Bool → GoError
shape_invalid true = plain "agentsdk: router correlated error body is invalid"
shape_invalid false = plain "agentsdk: router pre-correlation error body is invalid"

module _ (contract : FailureContract) where
  -- The last two checks, on the decoded error.
  abbrev pub settled : ℕ → Bool → Bytes → Option PlatformError → GoError
  settled status with_invocation trace none = shape_invalid with_invocation
  settled status with_invocation trace (some value) =
      if not (bytes_eq value.trace_id trace)
      then plain "agentsdk: router error trace header changed"
      else if not (valid_router_error_status contract.spelling status value.code with_invocation)
      then plain "agentsdk: router error status and code do not match"
      else platform value

  -- The part of `routerError` behind the reading of the body.
  unfoldable pub router_error_body : ℕ → Header → Bytes → GoError
  router_error_body status header body =
      let with_invocation = has_member (codes "invocationId") body in
      let with_root = has_member (codes "rootTaskId") body in
      if not (is_object body)
      then body_invalid
      else if not (same_bool with_invocation with_root)
      then plain "agentsdk: router error correlation is incomplete"
      else elim (reject_duplicate_json_members body) [
        | err _ ↦ body_invalid
        | ok _ ↦ elim (contract.parse_trace (header_get header trace_header)) [
          | some _ ↦ plain "agentsdk: router error trace header is invalid"
          | none ↦
              settled status with_invocation (header_get header trace_header)
                (wire_error contract with_invocation status body)
        ]
      ]

  abbrev pub error_read : ℕ → Header → Result Bytes × Body → GoError × Body
  error_read status header (err e, b) = (wrap "agentsdk: read router error" e, b)
  error_read status header (ok body, b) = (router_error_body status header body, b)

  -- `routerError`
  unfoldable pub router_error : ℕ → ℕ → Header → Body → GoError × Body
  router_error limit status header b =
      if not (bytes_eq (media_type header) (codes "application/json"))
      then (plain "agentsdk: router error media is invalid", b)
      else error_read status header (read_body limit b)
