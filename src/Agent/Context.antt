-- ===== src/Agent/Context.antt =====
-- `PlatformContext`, `NestedRequest` and their `Validate` of agent/client.go.
pub mod Laws
use nekiro_sdk_go.Prelude.{
  Bytes, Bool, List, [], ◌∷◌, Option, none, some, not, bytes_eq, codes, if◌then◌else◌,
}
use nekiro_sdk_go.Errors.{
  GoError, plain, quoted, Result, ok, err, ◌>>=◌, ◌>>◌, guard, check, or_wrap,
}
use nekiro_sdk_go.Agent.Identifier.{safe_identifier}
use nekiro_sdk_go.Client.Failure.{is_object}

pub record PlatformContext : Type 0 where
  pub invocation_id : Bytes
  pub root_task_id : Bytes
  pub trace_id : Bytes
  pub workspace_id : Bytes
  pub agent_id : Bytes

-- The names and the values that `Validate` goes through.
abbrev pub context_fields : PlatformContext → List (Bytes × Bytes)
context_fields pc =
    (codes "invocationId", pc.invocation_id)
    ∷ (codes "rootTaskId", pc.root_task_id)
    ∷ (codes "traceId", pc.trace_id)
    ∷ (codes "workspaceId", pc.workspace_id)
    ∷ (codes "agentId", pc.agent_id)
    ∷ []

unfoldable pub check_fields : List (Bytes × Bytes) → Result (Unit {0})
check_fields [] = ok tt
check_fields ((name, value) ∷ rest) =
    if bytes_eq value []
    then err (quoted "agentsdk: platform context field is required" name)
    else if not (safe_identifier value)
    then err (quoted "agentsdk: platform context field is invalid" name)
    else check_fields rest

-- `PlatformContext.Validate`; `parse_trace` is `ParseTraceID` of the contracts module.
unfoldable pub validate_context : (Bytes → Option GoError) → PlatformContext → Result (Unit {0})
validate_context parse_trace pc = do
  check_fields (context_fields pc)
  or_wrap (check (parse_trace pc.trace_id)) "agentsdk: platform context traceId is invalid"

-- `input` is nil or some bytes.
pub record NestedRequest : Type 0 where
  pub target_agent_id : Bytes
  pub capability : Bytes
  pub input : Option Bytes
  pub stream : Bool

-- `json.Unmarshal(nr.Input, &inputObj)` into a map that must not stay nil.
abbrev pub check_input : Option Bytes → Result (Unit {0})
check_input none = err (plain "agentsdk: input is required")
check_input (some content) =
    guard (is_object content) (plain "agentsdk: input must be a JSON object")

-- `NestedRequest.Validate`
unfoldable pub validate_request : NestedRequest → Result (Unit {0})
validate_request nr = do
  guard (not (bytes_eq nr.target_agent_id [])) (plain "agentsdk: targetAgentId is required")
  guard (safe_identifier nr.target_agent_id) (plain "agentsdk: targetAgentId is invalid")
  guard (not (bytes_eq nr.capability [])) (plain "agentsdk: capability is required")
  guard (safe_identifier nr.capability) (plain "agentsdk: capability is invalid")
  check_input nr.input
