-- ===== src/Client/Construct.antt =====
-- `Config` and `NewClient` of client/config.go.
pub mod Built
use nekiro_sdk_go.Prelude.{
  ℕ, Bytes, Bool, true, false, List, [], ◌∷◌, ◌||◌, not, codes, if◌then◌else◌, Option, none, some,
}
use nekiro_sdk_go.Prelude.Int.{ℤ, pos, pos_part, ltb_ℤ}
use nekiro_sdk_go.Errors.{
  GoError, plain, quoted, Result, ok, err, ◌>>=◌, ◌>>◌, guard, check, or_wrap,
}
use nekiro_sdk_go.Url.{UrlLibrary}
use nekiro_sdk_go.Client.Identifier.{safe_identifier, valid_application_credential}
use nekiro_sdk_go.Client.Origin.{validate_gateway_origin}
use nekiro_sdk_go.Client.Request.{Client}

-- `http_client` is nil, or a client that follows redirects or not.
pub record ClientConfig : Type 0 where
  pub http_client : Option Bool
  pub gateway_origin : Bytes
  pub workspace_id : Bytes
  pub application_credential : Bytes
  pub request_limit_bytes : ℤ
  pub response_limit_bytes : ℤ
  pub stream_event_limit_bytes : ℤ

-- The client, and whether its copy of the HTTP client follows redirects.
pub record GatewayClient : Type 0 where
  pub redirects_followed : Bool
  pub bound : Client

-- The byte limits of the contracts module, 1 to 2147483647 by the comment on `NewClient` of
-- agent/client.go.
abbrev pub limit_refused : ℤ → Bool
limit_refused limit = ltb_ℤ limit (pos 1) || ltb_ℤ (pos 2147483647) limit

unfoldable pub check_limits : List (Bytes × ℤ) → Result (Unit {0})
check_limits [] = ok tt
check_limits ((name, value) ∷ rest) =
    if limit_refused value
    then err (quoted "clientsdk: limit is invalid" name)
    else check_limits rest

abbrev pub limits_of : ClientConfig → List (Bytes × ℤ)
limits_of config =
    (codes "request", config.request_limit_bytes)
    ∷ (codes "response", config.response_limit_bytes)
    ∷ (codes "stream event", config.stream_event_limit_bytes)
    ∷ []

abbrev pub is_given : Option Bool → Bool
is_given none = false
is_given (some follows) = true

abbrev pub client_of : ClientConfig → Bytes → Client
client_of config origin = record {
  gateway_origin = origin;
  workspace_id = config.workspace_id;
  application_credential = config.application_credential;
  request_limit = pos_part config.request_limit_bytes;
  response_limit = pos_part config.response_limit_bytes;
  stream_event_limit = pos_part config.stream_event_limit_bytes;
}

-- `NewClient`; `result_error` and `runtime_error` are the errors of the two validators' constructors in
-- the contracts module.
unfoldable pub new_client :
    UrlLibrary → Option GoError → Option GoError → ClientConfig → Result GatewayClient
new_client lib result_error runtime_error config = do
  guard (is_given config.http_client) (plain "clientsdk: HTTP client is required")
  origin ← validate_gateway_origin lib config.gateway_origin
  guard (safe_identifier config.workspace_id) (plain "clientsdk: Workspace ID is invalid")
  guard (valid_application_credential config.application_credential)
      (plain "clientsdk: application credential is invalid")
  check_limits (limits_of config)
  or_wrap (check result_error) "clientsdk: initialize result validator"
  or_wrap (check runtime_error) "clientsdk: initialize runtime validator"
  ok (record { redirects_followed = false; bound = client_of config origin })
