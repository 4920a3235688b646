-- ===== src/RouterAuth/Verify/Outcomes.antt =====
-- How `Verify` of agent/routerauth/verifier.go refuses.
use nekiro_sdk_go.Prelude.{
  ◌==◌, length, not, Bytes, Bool, true, false, List, [], ◌∷◌, ◌++◌, Option, none, some, ◌≡◌, ◌≢◌,
  inl, inr, refl, arith, Bool-cases, bytes_eq,
}
use nekiro_sdk_go.Prelude.Int.{ℤ}
use nekiro_sdk_go.Http.{Header}
use nekiro_sdk_go.Errors.{GoError, Result, ok, err}
use nekiro_sdk_go.RouterAuth.Replay.{ReplayGuard, accept}
use nekiro_sdk_go.RouterAuth.Headers.{
  Verified, verified, refused, panicked, Claims, HeaderNames, header_values,
  credential_from_headers, single_credential, match_expected, expected_headers, match_parent,
  validate_context_headers,
}
use nekiro_sdk_go.RouterAuth.Object.{decode_object}
use nekiro_sdk_go.RouterAuth.Credential.{decode_segment, split_dots, decode_claims}
use nekiro_sdk_go.RouterAuth.Verify.{
  CredentialContract, VerifierConfig, segments_of, verify_envelope, verify_claims, verify_request,
  verify, settle, require, or_unauthenticated, or_unauthenticated_as, validity, audience_check,
  check_signature_size, check_signature, is_supported, parent_is_empty, signature_malformed,
  header_members, header_invalid, header_unsupported, parent_empty, issuer_invalid,
}
use nekiro_sdk_go.RouterAuth.Verify.Steps.{IsAnswered, >>=-IsAnswered}

or_unauthenticated-IsAnswered {ℓ} : {A : Type ℓ} (r : Result A) → IsAnswered (or_unauthenticated r)
or_unauthenticated-IsAnswered (ok a) = tt
or_unauthenticated-IsAnswered (err e) = inl refl

or_unauthenticated_as-IsAnswered {ℓ} :
    {A : Type ℓ} (r : Result A) (e : GoError) → IsAnswered (or_unauthenticated_as r e)
or_unauthenticated_as-IsAnswered (ok a) e = tt
or_unauthenticated_as-IsAnswered (err d) e = inl refl

require-IsAnswered : (b : Bool) (e : GoError) → IsAnswered (require b (refused 401 e))
require-IsAnswered true e = tt
require-IsAnswered false e = inl refl

segments_of-IsAnswered : (p : Bytes × List Bytes) → IsAnswered (segments_of p)
segments_of-IsAnswered (p, []) = inl refl
segments_of-IsAnswered (p, q ∷ []) = inl refl
segments_of-IsAnswered (p, q ∷ r ∷ []) = ground arith
segments_of-IsAnswered (p, q ∷ r ∷ x ∷ rest) = inl refl

validity-IsAnswered : (e : Option GoError) → IsAnswered (validity e)
validity-IsAnswered none = tt
validity-IsAnswered (some e) = inl refl

single_credential-IsAnswered : (vs : List Bytes) → IsAnswered (single_credential vs)
single_credential-IsAnswered [] = inl refl
single_credential-IsAnswered (v ∷ []) = ground arith
single_credential-IsAnswered (v ∷ w ∷ vs) = inl refl

match_expected-IsAnswered :
    (header : Header) (expected : List (Bytes × Bytes))
    → IsAnswered (match_expected header expected)
unfolding match_expected
match_expected-IsAnswered header [] = tt
match_expected-IsAnswered header ((name, value) ∷ expected) =
    ground (arith, match_expected-IsAnswered header expected)

match_parent-IsAnswered :
    (vs : List Bytes) (claims : Claims) (present : Bool)
    → IsAnswered (match_parent vs claims present)
match_parent-IsAnswered vs claims true = ground arith
match_parent-IsAnswered vs claims false = ground arith

validate_context_headers-IsAnswered :
    (names : HeaderNames) (header : Header) (claims : Claims) (present : Bool)
    → IsAnswered (validate_context_headers names header claims present)
unfolding validate_context_headers
validate_context_headers-IsAnswered names header claims present =
    >>=-IsAnswered (match_expected header (expected_headers names claims)) _
      (match_expected-IsAnswered header (expected_headers names claims))
      (λ _ _. match_parent-IsAnswered _ claims present)

audience_check-IsAnswered :
    (expected : Bytes) (values : List Bytes)
    → values ≢ []
    → IsAnswered (audience_check expected values)
audience_check-IsAnswered expected [] n = absurd (n refl)
audience_check-IsAnswered expected (a ∷ rest) n = ground arith

check_signature-IsAnswered :
    (contract : CredentialContract) (key message signature : Bytes)
    → length key ≡ 32
    → IsAnswered (check_signature contract key message signature)
check_signature-IsAnswered contract key message signature sized = ground arith

verify_envelope-IsAnswered :
    (contract : CredentialContract) (config : VerifierConfig) (credential : Bytes)
    → length config.public_key ≡ 32
    → IsAnswered (verify_envelope contract config credential)
unfolding verify_envelope
verify_envelope-IsAnswered contract config credential sized =
    >>=-IsAnswered (segments_of (split_dots credential)) _
      (segments_of-IsAnswered (split_dots credential))
      λ s _.
        >>=-IsAnswered (or_unauthenticated (decode_segment s.header_segment)) _
          (or_unauthenticated-IsAnswered (decode_segment s.header_segment))
          λ hj _.
            >>=-IsAnswered (or_unauthenticated (decode_segment s.claims_segment)) _
              (or_unauthenticated-IsAnswered (decode_segment s.claims_segment))
              λ cj _.
                >>=-IsAnswered
                  (or_unauthenticated_as (decode_segment s.signature_segment) signature_malformed) _
                  (or_unauthenticated_as-IsAnswered (decode_segment s.signature_segment) _)
                  λ raw _. >>=-IsAnswered (check_signature_size raw) _ (ground arith) λ sig _.
                    >>=-IsAnswered
                      (or_unauthenticated_as (decode_object hj header_members) header_invalid) _
                      (or_unauthenticated_as-IsAnswered (decode_object hj header_members) _)
                      λ header _.
                        >>=-IsAnswered (require (length header == 3) (refused 401 header_invalid)) _
                          (require-IsAnswered (length header == 3) header_invalid)
                          λ _ _.
                            >>=-IsAnswered
                              (require (is_supported contract config header)
                                (refused 401 header_unsupported))
                              _
                              (require-IsAnswered (is_supported contract config header)
                                header_unsupported)
                              λ _ _.
                                >>=-IsAnswered
                                  (check_signature contract config.public_key
                                    (s.header_segment ++ b'.' ∷ s.claims_segment) sig)
                                  _
                                  (check_signature-IsAnswered contract config.public_key _ sig
                                    sized)
                                  λ _ _. tt

-- The contract's claim validation refuses an empty audience.
abbrev pub RequiresAudience : CredentialContract → Type 0
RequiresAudience contract =
    (claims : Claims) (now : ℤ) → contract.validate_claims claims now ≡ none → claims.audience ≢ []

validity-none : (e : Option GoError) (u : Unit {0}) → validity e ≡ verified u → e ≡ none
validity-none none u h = refl
validity-none (some e) u h = cc

verify_claims-IsAnswered :
    (contract : CredentialContract) (config : VerifierConfig) (now : ℤ) (header : Header)
    (claims_json : Bytes)
    → RequiresAudience contract
    → IsAnswered (verify_claims contract config now header claims_json)
unfolding verify_claims
verify_claims-IsAnswered contract config now header claims_json r =
    >>=-IsAnswered (or_unauthenticated (decode_claims claims_json)) _
      (or_unauthenticated-IsAnswered (decode_claims claims_json))
      λ d _.
        >>=-IsAnswered
          (require (not (parent_is_empty d.1 d.0.parent_invocation_id)) (refused 401 parent_empty))
          _ (require-IsAnswered (not (parent_is_empty d.1 d.0.parent_invocation_id)) parent_empty)
          λ _ _.
            >>=-IsAnswered (validity (contract.validate_claims d.0 now)) _
              (validity-IsAnswered (contract.validate_claims d.0 now))
              λ u valid.
                >>=-IsAnswered
                  (require (bytes_eq d.0.issuer config.config_issuer) (refused 401 issuer_invalid))
                  _ (require-IsAnswered (bytes_eq d.0.issuer config.config_issuer) issuer_invalid)
                  λ _ _.
                    >>=-IsAnswered (audience_check config.config_audience d.0.audience) _
                      (audience_check-IsAnswered config.config_audience d.0.audience
                        (r d.0 now (validity-none (contract.validate_claims d.0 now) u valid)))
                      λ _ _.
                        >>=-IsAnswered (validate_context_headers contract.names header d.0 d.1) _
                          (validate_context_headers-IsAnswered contract.names header d.0 d.1)
                          λ _ _. tt

settle-IsAnswered :
    (m : Verified Claims) (later : ℤ) (g : ReplayGuard)
    → IsAnswered m
    → IsAnswered (settle m later g).1
settle-IsAnswered (verified c) later g h =
    elim (Bool-cases (accept later c.jwt_id c.expires_at g).1) [
      | inl e ↦ ground arith
      | inr e ↦ ground arith
    ]
settle-IsAnswered (refused status e) later g h = h
settle-IsAnswered panicked later g h = elim h [ ]

-- When the claim validation refuses an empty audience and the key has 32 bytes, every request either
-- verifies or is refused with status 401 or 403: neither the index into the audience nor the check of
-- the signature panics, and no other status reaches the error writer.
pub verify-IsAnswered :
    (contract : CredentialContract) (config : VerifierConfig) (now later : ℤ) (header : Header)
    (g : ReplayGuard)
    → length config.public_key ≡ 32
    → RequiresAudience contract
    → IsAnswered (verify contract config now later header g).1
unfolding verify verify_request credential_from_headers
verify-IsAnswered contract config now later header g sized r =
    settle-IsAnswered (verify_request contract config now header) later g (
      >>=-IsAnswered (single_credential (header_values header contract.names.authorization)) _
        (single_credential-IsAnswered (header_values header contract.names.authorization))
        λ credential _.
          >>=-IsAnswered (verify_envelope contract config credential) _
            (verify_envelope-IsAnswered contract config credential sized)
            λ claims_json _. verify_claims-IsAnswered contract config now header claims_json r)
