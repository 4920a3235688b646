-- ===== src/RouterAuth/Headers.antt =====
-- agent/routerauth/headers.go and the error type of agent/routerauth/errors.go.
pub mod Laws
pub mod Order
use nekiro_sdk_go.Prelude.{
  ℕ, Bytes, Bool, true, false, List, [], ◌∷◌, ◌++◌, ◌&&◌, ◌||◌, not, drop, length, codes, leb, ◌==◌,
  if◌then◌else◌, bytes_eq, has_prefix, contains_byte,
}
use nekiro_sdk_go.Prelude.Int.{ℤ}
use nekiro_sdk_go.Errors.{GoError, plain}
use nekiro_sdk_go.Http.{Header, to_lower}

-- A result, a `*verificationError` with its status and its cause, or a run-time panic.
pub data Verified {ℓ} (A : Type ℓ) : Type ℓ where
  verified : A → Verified A
  refused : ℕ → GoError → Verified A
  panicked : Verified A

infixl 5 ◌>>=◌ ◌>>◌
abbrev pub ◌>>=◌ {ℓ κ} : {A : Type ℓ} {B : Type κ} → Verified A → (A → Verified B) → Verified B
verified a >>= f = f a
refused status e >>= f = refused status e
panicked >>= f = panicked

abbrev pub ◌>>◌ {ℓ} : {B : Type ℓ} → Verified (Unit {0}) → Verified B → Verified B
m >> k = m >>= λ _. k

-- `http.StatusUnauthorized` and `http.StatusForbidden`.
abbrev pub unauthenticated {ℓ} : {A : Type ℓ} → GoError → Verified A
unauthenticated e = refused 401 e

abbrev pub forbidden {ℓ} : {A : Type ℓ} → GoError → Verified A
forbidden e = refused 403 e

-- The fields of `RouterInvocationCredentialClaimsV1` that the package reads and writes.
pub record Claims : Type 0 where
  pub issuer : Bytes
  pub audience : List Bytes
  pub expires_at : ℤ
  pub issued_at : ℤ
  pub jwt_id : Bytes
  pub workspace_id : Bytes
  pub agent_id : Bytes
  pub agent_version : Bytes
  pub release_id : Bytes
  pub card_digest : Bytes
  pub capability : Bytes
  pub invocation_id : Bytes
  pub root_task_id : Bytes
  pub parent_invocation_id : Bytes
  pub trace_id : Bytes

-- The header names of the contracts module.
pub record HeaderNames : Type 0 where
  pub authorization : Bytes
  pub workspace : Bytes
  pub target_agent : Bytes
  pub card_version : Bytes
  pub release : Bytes
  pub card_digest : Bytes
  pub capability : Bytes
  pub invocation : Bytes
  pub root_task : Bytes
  pub trace : Bytes
  pub parent_invocation : Bytes

-- The case folding of `strings.EqualFold` against an ASCII name: besides the letters only U+017F
-- and U+212A fold to ASCII.
fold : Bytes → Bytes
fold [] = []
fold (a ∷ []) = to_lower a ∷ []
fold (a ∷ b ∷ []) = if a == 0xc5 && b == 0xbf then b's' ∷ [] else to_lower a ∷ fold (b ∷ [])
fold (a ∷ b ∷ c ∷ cs) =
    let long_s = b's' ∷ fold (c ∷ cs) in
    let kelvin = b'k' ∷ fold cs in
    let other = to_lower a ∷ fold (b ∷ c ∷ cs) in
    if a == 0xc5 && b == 0xbf
    then long_s
    else if a == 0xe2 && b == 0x84 && c == 0xaa
    then kelvin
    else other

unfoldable pub equal_fold : Bytes → Bytes → Bool
unfolding fold bytes_eq
equal_fold candidate name = bytes_eq (fold candidate) (fold name)

unfoldable pub header_values : Header → Bytes → List Bytes
header_values [] name = []
header_values ((candidate, vs) ∷ h) name =
    (if equal_fold candidate name then vs else []) ++ header_values h name

abbrev pub bearer : Bytes
bearer = codes "Bearer "

-- `strings.ContainsAny(credential, " \t\r\n,")`
abbrev pub has_separator : Bytes → Bool
has_separator s =
    contains_byte 32 s
    || contains_byte 9 s
    || contains_byte 13 s
    || contains_byte 10 s
    || contains_byte b',' s

abbrev pub no_bearer : GoError
no_bearer = plain "one Bearer authorization header is required"

abbrev pub malformed : GoError
malformed = plain "bearer credential is malformed"

abbrev pub bearer_credential : Bytes → Verified Bytes
bearer_credential value =
    if not (has_prefix bearer value)
    then unauthenticated no_bearer
    else if bytes_eq (drop 7 value) [] || has_separator (drop 7 value)
    then unauthenticated malformed
    else verified (drop 7 value)

abbrev pub single_credential : List Bytes → Verified Bytes
single_credential (value ∷ []) = bearer_credential value
single_credential _ = unauthenticated no_bearer

unfoldable pub credential_from_headers : HeaderNames → Header → Verified Bytes
credential_from_headers names header = single_credential (header_values header names.authorization)

-- `len(values) == 1 && values[0] == value`
abbrev pub is_single : Bytes → List Bytes → Bool
is_single value (v ∷ []) = bytes_eq v value
is_single value _ = false

-- The map `expected`.
abbrev pub expected_headers : HeaderNames → Claims → List (Bytes × Bytes)
expected_headers names claims =
    (names.workspace, claims.workspace_id)
    ∷ (names.target_agent, claims.agent_id)
    ∷ (names.card_version, claims.agent_version)
    ∷ (names.release, claims.release_id)
    ∷ (names.card_digest, claims.card_digest)
    ∷ (names.capability, claims.capability)
    ∷ (names.invocation, claims.invocation_id)
    ∷ (names.root_task, claims.root_task_id)
    ∷ (names.trace, claims.trace_id)
    ∷ []

-- The loop over `expected`: every mismatch is the same error, so the order of the map is not seen.
unfoldable pub match_expected : Header → List (Bytes × Bytes) → Verified (Unit {0})
match_expected header [] = verified tt
match_expected header ((name, value) ∷ expected) =
    if is_single value (header_values header name)
    then match_expected header expected
    else forbidden (plain "signed context header mismatch")

abbrev pub is_empty : List Bytes → Bool
is_empty [] = true
is_empty _ = false

abbrev pub match_parent : List Bytes → Claims → Bool → Verified (Unit {0})
match_parent values claims true =
    if is_single claims.parent_invocation_id values
    then verified tt
    else forbidden (plain "signed parent context header mismatch")
match_parent values claims false =
    if is_empty values then verified tt else forbidden (plain "unexpected parent context header")

unfoldable pub validate_context_headers : HeaderNames → Header → Claims → Bool → Verified (Unit {0})
validate_context_headers names header claims parent_present = do
  match_expected header (expected_headers names claims)
  match_parent (header_values header names.parent_invocation) claims parent_present
