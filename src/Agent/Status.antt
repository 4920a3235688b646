-- ===== src/Agent/Status.antt =====
-- `validRouterErrorStatus` of agent/client.go, and how it relates to the Gateway's table.
use nekiro_sdk_go.Prelude.{
  ℕ, Bytes, Bool, true, false, ◌&&◌, ◌||◌, not, ◌==◌, bytes_eq, if◌then◌else◌, ◌≡◌, arith,
}
use nekiro_sdk_go.Client.Codes.{
  Code, is_code, valid_platform_error_status, validation_error, unauthenticated, forbidden,
  not_found, not_acceptable, conflict, canceled, payload_too_large, agent_auth_unsupported,
  agent_response_too_large, a2a_protocol, agent_execution_failed, route_not_found,
  agent_unavailable, dependency, timeout,
}

module _ (spelling : Code → Bytes) where
  unfoldable pub valid_router_error_status : ℕ → Bytes → Bool → Bool
  unfolding bytes_eq
  valid_router_error_status status code correlated =
      let is = is_code spelling code in
      if status == 400
      then is validation_error && not correlated
      else if status == 401
      then is unauthenticated && not correlated
      else if status == 403
      then is forbidden && not correlated
      else if status == 404
      then is not_found && not correlated
      else if status == 406
      then is not_acceptable && not correlated
      else if status == 409
      then (is conflict && not correlated) || (is canceled && correlated)
      else if status == 413
      then is payload_too_large && not correlated
      else if status == 502
      then correlated
        && (is agent_auth_unsupported
            || is agent_response_too_large
            || is a2a_protocol
            || is agent_execution_failed)
      else if status == 503
      then is route_not_found || is agent_unavailable || is dependency
      else if status == 504
      then is timeout
      else false

  -- Whatever the Router may answer, in a status, a code and a correlation that the nested SDK accepts,
  -- the Gateway's SDK accepts too.
  pub valid_router_error_status-platform :
      (status : ℕ) (code : Bytes) (correlated : Bool)
      → valid_router_error_status status code correlated ≡ true
      → valid_platform_error_status spelling status code correlated ≡ true
  unfolding valid_router_error_status valid_platform_error_status
  valid_router_error_status-platform status code correlated h = ground arith
