-- ===== src/RouterAuth/Config.antt =====
-- `Config` of agent/routerauth/config.go, and `NewVerifier` of agent/routerauth/verifier.go.
pub mod Loading
use nekiro_sdk_go.Prelude.{
  Bytes, Bool, true, false, length, ◌==◌, ◌&&◌, not, bytes_eq, codes, if◌then◌else◌, Option, none,
  some, [],
}
use nekiro_sdk_go.Prelude.Spaces.{trim_space}
use nekiro_sdk_go.Errors.{
  GoError, plain, quoted, wrap, Result, ok, err, ◌>>=◌, ◌>>◌, check, guard, or_error, or_wrap,
}
use nekiro_sdk_go.Base64.{decode_base64}
use nekiro_sdk_go.RouterAuth.Replay.{ReplayGuard, new_replay_guard}
use nekiro_sdk_go.RouterAuth.Verify.{VerifierConfig}

-- The three validators of the contracts module.
pub record ConfigContract : Type 0 where
  pub validate_issuer : Bytes → Option GoError
  pub validate_audience : Bytes → Option GoError
  pub validate_key_id : Bytes → Option GoError

abbrev pub issuer_environment : Bytes
issuer_environment = codes "NEKIRO_AGENT_ROUTER_ISSUER"

abbrev pub audience_environment : Bytes
audience_environment = codes "NEKIRO_AGENT_ROUTER_AUDIENCE"

abbrev pub key_id_environment : Bytes
key_id_environment = codes "NEKIRO_AGENT_ROUTER_KEY_ID"

abbrev pub public_key_environment : Bytes
public_key_environment = codes "NEKIRO_AGENT_ROUTER_PUBLIC_KEY_BASE64URL"

abbrev required_text : Bytes → Bool → Option Bytes → Result Bytes
required_text name secret none = err (quoted "is required" name)
required_text name secret (some value) =
    if bytes_eq value []
    then err (quoted "must not be empty" name)
    else if not secret && not (bytes_eq value (trim_space value))
    then err (quoted "must not contain surrounding whitespace" name)
    else ok value

unfoldable pub required_value : (Bytes → Option Bytes) → Bytes → Bool → Result Bytes
unfolding bytes_eq trim_space
required_value lookup name secret = required_text name secret (lookup name)

abbrev bad_key : GoError
bad_key = plain "public key must be 32 raw bytes encoded as strict unpadded Base64url"

abbrev pub sized_key : Option Bytes → Result Bytes
sized_key none = err bad_key
sized_key (some decoded) = if length decoded == 32 then ok decoded else err bad_key

unfoldable pub decode_public_key : Bytes → Result Bytes
unfolding decode_base64
decode_public_key value = sized_key (decode_base64 value)

-- `LoadConfig`
unfoldable pub load_config : ConfigContract → (Bytes → Option Bytes) → Result VerifierConfig
unfolding required_value decode_public_key
load_config contract lookup = do
  issuer ← required_value lookup issuer_environment false
  or_wrap (check (contract.validate_issuer issuer)) "NEKIRO_AGENT_ROUTER_ISSUER is invalid"
  audience ← required_value lookup audience_environment false
  or_wrap (check (contract.validate_audience audience)) "NEKIRO_AGENT_ROUTER_AUDIENCE is invalid"
  key_id ← required_value lookup key_id_environment false
  or_wrap (check (contract.validate_key_id key_id)) "NEKIRO_AGENT_ROUTER_KEY_ID is invalid"
  encoded_key ← required_value lookup public_key_environment true
  public_key ←
      or_error (decode_public_key encoded_key)
        (plain "NEKIRO_AGENT_ROUTER_PUBLIC_KEY_BASE64URL is invalid")
  ok (record {
    config_issuer = issuer;
    config_audience = audience;
    key_id = key_id;
    public_key = public_key;
  })

-- `Config.Validate`
unfoldable pub validate : ConfigContract → VerifierConfig → Result (Unit {0})
validate contract config = do
  or_wrap (check (contract.validate_issuer config.config_issuer)) "router issuer is invalid"
  or_wrap (check (contract.validate_audience config.config_audience)) "router audience is invalid"
  or_wrap (check (contract.validate_key_id config.key_id)) "router key ID is invalid"
  guard (length config.public_key == 32) (plain "router public key is invalid")

pub record Verifier : Type 0 where
  pub config : VerifierConfig
  pub replay : ReplayGuard

-- `NewVerifier`: the clock is there or nil.
unfoldable pub new_verifier : ConfigContract → VerifierConfig → Bool → Result Verifier
unfolding validate new_replay_guard
new_verifier contract config has_clock = do
  validate contract config
  guard has_clock (plain "router credential verification clock is required")
  replay ← new_replay_guard has_clock
  ok (record { config = config; replay = replay })
