-- ===== src/RouterAuth/Credential.antt =====
-- `decodeSegment` and `decodeClaims` of agent/routerauth/verifier.go.
use nekiro_sdk_go.Prelude.{
  ℕ, ◌==◌, Bytes, Bool, true, false, List, [], ◌∷◌, Option, none, some, contains_byte, codes,
  if◌then◌else◌,
}
use nekiro_sdk_go.Errors.{GoError, plain, quoted, Result, ok, err, ◌>>=◌, ◌>>◌}
use nekiro_sdk_go.Base64.{decode_base64}
use nekiro_sdk_go.RouterAuth.Headers.{Claims}
use nekiro_sdk_go.RouterAuth.Object.{
  RawMessage, Object, member, decode_object, decode_string, decode_strings, decode_int64,
}

abbrev not_base64 : GoError
not_base64 = plain "compact credential segment is not strict Base64url"

abbrev of_option {ℓ} : {A : Type ℓ} → Option A → GoError → Result A
of_option none e = err e
of_option (some a) e = ok a

unfoldable pub decode_segment : Bytes → Result Bytes
unfolding contains_byte decode_base64
decode_segment value =
    if contains_byte b'=' value
    then err (plain "compact credential segments must be unpadded")
    else of_option (decode_base64 value) not_base64

abbrev split_byte : ℕ → Bytes × List Bytes → Bytes × List Bytes
split_byte c (part, parts) = if c == b'.' then ([], part ∷ parts) else (c ∷ part, parts)

-- `strings.Split(s, ".")`, the first part apart from the others.
unfoldable pub split_dots : Bytes → Bytes × List Bytes
split_dots [] = ([], [])
split_dots (c ∷ cs) = split_byte c (split_dots cs)

-- `claimMembers`
abbrev pub claim_members : List Bytes
claim_members =
    codes "iss"
    ∷ codes "aud"
    ∷ codes "exp"
    ∷ codes "iat"
    ∷ codes "jti"
    ∷ codes "workspaceId"
    ∷ codes "agentId"
    ∷ codes "agentVersion"
    ∷ codes "releaseId"
    ∷ codes "cardDigest"
    ∷ codes "capability"
    ∷ codes "invocationId"
    ∷ codes "rootTaskId"
    ∷ codes "parentInvocationId"
    ∷ codes "traceId"
    ∷ []

-- `required`
abbrev pub required_claims : List Bytes
required_claims =
    codes "iss"
    ∷ codes "aud"
    ∷ codes "exp"
    ∷ codes "iat"
    ∷ codes "jti"
    ∷ codes "workspaceId"
    ∷ codes "agentId"
    ∷ codes "agentVersion"
    ∷ codes "releaseId"
    ∷ codes "cardDigest"
    ∷ codes "capability"
    ∷ codes "invocationId"
    ∷ codes "rootTaskId"
    ∷ codes "traceId"
    ∷ []

unfoldable pub require_claims : List Bytes → Object → Result (Unit {0})
unfolding member
require_claims [] members = ok tt
require_claims (name ∷ names) members = elim (member name members) [
  | none ↦ err (quoted "credential claim is required" name)
  | some _ ↦ require_claims names members
]

-- A member of `stringClaims`.
unfoldable pub string_claim : Bytes → Object → Result Bytes
unfolding member decode_string
string_claim name members =
    of_option (decode_string (member name members))
      (quoted "credential claim must be a string" name)

abbrev parent_claim : Option RawMessage → Result (Bytes × Bool)
parent_claim none = ok ([], false)
parent_claim (some raw) =
    of_option (decode_string (some raw))
      (plain "credential claim parentInvocationId must be a string")
    >>= λ value. ok (value, true)

-- The claims, and whether the parent claim is present.
unfoldable pub decode_claims : Bytes → Result (Claims × Bool)
unfolding decode_object require_claims string_claim decode_strings decode_int64 decode_string member
decode_claims content = do
  members ← decode_object content claim_members
  require_claims required_claims members
  issuer ← string_claim (codes "iss") members
  jwt_id ← string_claim (codes "jti") members
  workspace_id ← string_claim (codes "workspaceId") members
  agent_id ← string_claim (codes "agentId") members
  agent_version ← string_claim (codes "agentVersion") members
  release_id ← string_claim (codes "releaseId") members
  card_digest ← string_claim (codes "cardDigest") members
  capability ← string_claim (codes "capability") members
  invocation_id ← string_claim (codes "invocationId") members
  root_task_id ← string_claim (codes "rootTaskId") members
  trace_id ← string_claim (codes "traceId") members
  audience ←
      of_option (decode_strings (member (codes "aud") members))
        (plain "credential claim aud must be an array of strings")
  expires_at ←
      of_option (decode_int64 (member (codes "exp") members))
        (plain "credential claim exp must be an integer")
  issued_at ←
      of_option (decode_int64 (member (codes "iat") members))
        (plain "credential claim iat must be an integer")
  parent ← parent_claim (member (codes "parentInvocationId") members)
  ok (
    record {
      issuer = issuer;
      audience = audience;
      expires_at = expires_at;
      issued_at = issued_at;
      jwt_id = jwt_id;
      workspace_id = workspace_id;
      agent_id = agent_id;
      agent_version = agent_version;
      release_id = release_id;
      card_digest = card_digest;
      capability = capability;
      invocation_id = invocation_id;
      root_task_id = root_task_id;
      parent_invocation_id = parent.0;
      trace_id = trace_id;
    },
    parent.1,
  )
