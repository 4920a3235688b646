-- ===== src/RouterAuth/Verify.antt =====
-- `Verifier` of agent/routerauth/verifier.go. What the contracts module and `crypto/ed25519` supply
-- is a record of parameters.
pub mod Steps
pub mod Sound
pub mod Admission
pub mod Outcomes
use nekiro_sdk_go.Prelude.{
  Bytes, Bool, true, false, List, [], ◌∷◌, ◌++◌, ◌&&◌, not, length, ◌==◌, Option, none, some,
  bytes_eq, codes, if◌then◌else◌,
}
use nekiro_sdk_go.Prelude.Int.{ℤ}
use nekiro_sdk_go.Errors.{GoError, plain, Result, ok, err}
use nekiro_sdk_go.Http.{Header}
use nekiro_sdk_go.RouterAuth.Replay.{ReplayGuard, accept}
use nekiro_sdk_go.RouterAuth.Headers.{
  Verified, verified, refused, panicked, ◌>>=◌, ◌>>◌, unauthenticated, forbidden, Claims,
  HeaderNames, credential_from_headers, validate_context_headers,
}
use nekiro_sdk_go.RouterAuth.Object.{Object, member, decode_object, decode_string}
use nekiro_sdk_go.RouterAuth.Credential.{decode_segment, split_dots, decode_claims}

-- `validate_claims` is `ValidateRouterInvocationCredentialClaimsV1`, the clock in Unix seconds;
-- `verify_signature` is `ed25519.Verify` of a key of 32 bytes: the key, the message, the signature.
pub record CredentialContract : Type 0 where
  pub names : HeaderNames
  pub algorithm : Bytes
  pub credential_type : Bytes
  pub validate_claims : Claims → ℤ → Option GoError
  pub verify_signature : Bytes → Bytes → Bytes → Bool

-- The fields of `Config` that `Verify` reads.
pub record VerifierConfig : Type 0 where
  pub config_issuer : Bytes
  pub config_audience : Bytes
  pub key_id : Bytes
  pub public_key : Bytes

-- `if err != nil { return unauthenticated(err) }`
abbrev pub or_unauthenticated {ℓ} : {A : Type ℓ} → Result A → Verified A
or_unauthenticated (ok a) = verified a
or_unauthenticated (err e) = unauthenticated e

abbrev pub or_unauthenticated_as {ℓ} : {A : Type ℓ} → Result A → GoError → Verified A
or_unauthenticated_as (ok a) e = verified a
or_unauthenticated_as (err d) e = unauthenticated e

abbrev pub require : Bool → Verified (Unit {0}) → Verified (Unit {0})
require true refusal = verified tt
require false refusal = refusal

abbrev has_bytes : Bytes → Bool
has_bytes s = not (bytes_eq s [])

pub record Segments : Type 0 where
  pub header_segment : Bytes
  pub claims_segment : Bytes
  pub signature_segment : Bytes

abbrev pub segments_of : Bytes × List Bytes → Verified Segments
segments_of (p, q ∷ r ∷ []) =
    if has_bytes p && has_bytes q && has_bytes r
    then verified (record { header_segment = p; claims_segment = q; signature_segment = r })
    else unauthenticated (plain "compact credential must contain exactly three non-empty segments")
segments_of _ =
    unauthenticated (plain "compact credential must contain exactly three non-empty segments")

-- `decodeJSONString(header[name])` compared to what the header must say.
abbrev pub states : Bytes → Bytes → Object → Bool
states name value members = elim (decode_string (member name members)) [
  | none ↦ false
  | some s ↦ bytes_eq s value
]

abbrev pub header_members : List Bytes
header_members = codes "alg" ∷ codes "typ" ∷ codes "kid" ∷ []

abbrev pub is_supported : CredentialContract → VerifierConfig → Object → Bool
is_supported contract config header =
    states (codes "alg") contract.algorithm header
    && states (codes "typ") contract.credential_type header
    && states (codes "kid") config.key_id header

abbrev pub header_invalid : GoError
header_invalid = plain "credential protected header is invalid"

abbrev pub header_unsupported : GoError
header_unsupported = plain "credential protected header is unsupported"

abbrev pub signature_invalid : GoError
signature_invalid = plain "credential signature is invalid"

abbrev pub parent_empty : GoError
parent_empty = plain "credential claim parentInvocationId must not be empty"

abbrev pub issuer_invalid : GoError
issuer_invalid = plain "credential issuer is invalid"

abbrev pub replayed : GoError
replayed = plain "credential has already been used"

abbrev pub signature_malformed : GoError
signature_malformed = plain "credential signature is malformed"

abbrev pub check_signature_size : Bytes → Verified Bytes
check_signature_size signature =
    if length signature == 64 then verified signature else unauthenticated signature_malformed

-- `!ed25519.Verify(key, message, signature)`, which panics on a key that has not 32 bytes.
abbrev pub check_signature : CredentialContract → Bytes → Bytes → Bytes → Verified (Unit {0})
check_signature contract key message signature =
    if length key == 32
    then require (contract.verify_signature key message signature)
        (unauthenticated signature_invalid)
    else panicked

-- The part of `Verify` up to the signature: the claims segment, decoded.
unfoldable pub verify_envelope : CredentialContract → VerifierConfig → Bytes → Verified Bytes
unfolding split_dots decode_segment decode_object decode_string member bytes_eq
verify_envelope contract config credential = do
  s ← segments_of (split_dots credential)
  header_json ← or_unauthenticated (decode_segment s.header_segment)
  claims_json ← or_unauthenticated (decode_segment s.claims_segment)
  signature ← or_unauthenticated_as (decode_segment s.signature_segment) signature_malformed
  signature ← check_signature_size signature
  header ← or_unauthenticated_as (decode_object header_json header_members) header_invalid
  require (length header == 3) (unauthenticated header_invalid)
  require (is_supported contract config header) (unauthenticated header_unsupported)
  check_signature contract config.public_key (s.header_segment ++ b'.' ∷ s.claims_segment) signature
  verified claims_json

abbrev pub validity : Option GoError → Verified (Unit {0})
validity none = verified tt
validity (some e) = unauthenticated e

-- `claims.Audience[0] != config.Audience`, which panics on an empty slice.
abbrev pub audience_check : Bytes → List Bytes → Verified (Unit {0})
audience_check expected [] = panicked
audience_check expected (a ∷ rest) =
    if bytes_eq a expected then verified tt else forbidden (plain "credential audience is invalid")

-- `parentPresent && claims.ParentInvocationID == ""`
abbrev pub parent_is_empty : Bool → Bytes → Bool
parent_is_empty present id = present && bytes_eq id []

-- The part of `Verify` behind the signature and before the replay guard.
unfoldable pub verify_claims :
    CredentialContract → VerifierConfig → ℤ → Header → Bytes → Verified Claims
unfolding decode_claims bytes_eq validate_context_headers
verify_claims contract config now header claims_json = do
  decoded ← or_unauthenticated (decode_claims claims_json)
  require (not (parent_is_empty decoded.1 decoded.0.parent_invocation_id))
      (unauthenticated parent_empty)
  validity (contract.validate_claims decoded.0 now)
  require (bytes_eq decoded.0.issuer config.config_issuer) (unauthenticated issuer_invalid)
  audience_check config.config_audience decoded.0.audience
  validate_context_headers contract.names header decoded.0 decoded.1
  verified decoded.0

-- `Verify` up to the replay guard.
unfoldable pub verify_request : CredentialContract → VerifierConfig → ℤ → Header → Verified Claims
unfolding credential_from_headers verify_envelope verify_claims
verify_request contract config now header = do
  credential ← credential_from_headers contract.names header
  claims_json ← verify_envelope contract config credential
  verify_claims contract config now header claims_json

abbrev pub admit : ReplayGuard × Bool → Claims → ReplayGuard × Verified Claims
admit (g, true) claims = (g, verified claims)
admit (g, false) claims = (g, unauthenticated replayed)

abbrev pub settle : Verified Claims → ℤ → ReplayGuard → ReplayGuard × Verified Claims
settle (verified claims) now g = admit (accept now claims.jwt_id claims.expires_at g) claims
settle (refused status e) now g = (g, refused status e)
settle panicked now g = (g, panicked)

-- `Verify`. The clock is read once by `Verify` and once by the replay guard.
unfoldable pub verify :
    CredentialContract
    → VerifierConfig
    → ℤ
    → ℤ
    → Header
    → ReplayGuard
    → ReplayGuard × Verified Claims
unfolding verify_request accept
verify contract config now later header g =
    settle (verify_request contract config now header) later g
