-- ===== src/Client/Codes.antt =====
-- The platform error codes of the contracts module, and `validPlatformErrorStatus` of
-- client/errors.go.
use nekiro_sdk_go.Prelude.{ℕ, Bytes, Bool, false, ◌&&◌, ◌||◌, not, ◌==◌, bytes_eq, if◌then◌else◌}

-- The constants `contracts.ErrorCode…` that the SDKs name.
pub data Code : Type 0 where
  validation_error unauthenticated forbidden capability_not_allowed not_found agent_not_installed :
      Code
  not_acceptable conflict installation_disabled agent_disabled agent_release_unpublished : Code
  agent_release_suspended agent_release_revoked canceled payload_too_large internal : Code
  agent_auth_unsupported agent_response_too_large agent_execution_failed a2a_protocol : Code
  route_not_found agent_unavailable dependency timeout : Code

-- `spelling` gives the constants' values.
module _ (spelling : Code → Bytes) where
  -- `code == contracts.ErrorCode…`
  abbrev pub is_code : Bytes → Code → Bool
  is_code code c = bytes_eq code (spelling c)

  unfoldable pub valid_platform_error_status : ℕ → Bytes → Bool → Bool
  unfolding bytes_eq
  valid_platform_error_status status code correlated =
      if status == 400
      then not correlated && is_code code validation_error
      else if status == 401
      then not correlated && is_code code unauthenticated
      else if status == 403
      then not correlated && (is_code code forbidden || is_code code capability_not_allowed)
      else if status == 404
      then not correlated && (is_code code not_found || is_code code agent_not_installed)
      else if status == 406
      then not correlated && is_code code not_acceptable
      else if status == 409
      then is_code code conflict
        || is_code code installation_disabled
        || is_code code agent_disabled
        || is_code code agent_release_unpublished
        || is_code code agent_release_suspended
        || is_code code agent_release_revoked
        || is_code code canceled
      else if status == 413
      then not correlated && is_code code payload_too_large
      else if status == 500
      then is_code code internal
      else if status == 502
      then correlated
        && (is_code code agent_auth_unsupported
            || is_code code agent_response_too_large
            || is_code code agent_execution_failed
            || is_code code a2a_protocol)
      else if status == 503
      then is_code code route_not_found || is_code code agent_unavailable || is_code code dependency
      else if status == 504
      then is_code code timeout
      else false
