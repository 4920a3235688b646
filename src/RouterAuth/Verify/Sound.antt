-- ===== src/RouterAuth/Verify/Sound.antt =====
-- What a verified request has passed in `Verify` of agent/routerauth/verifier.go.
use nekiro_sdk_go.Prelude.{
  ℕ, Bytes, Bool, true, false, List, [], ◌∷◌, ◌++◌, not, length, ◌==◌, ==_iff, Option, none, some,
  bytes_eq, bytes_eq_iff, subst, ◌≡◌, ◌≢◌, refl, arith,
}
use nekiro_sdk_go.Prelude.Int.{ℤ}
use nekiro_sdk_go.Errors.{GoError, ok}
use nekiro_sdk_go.Http.{Header}
use nekiro_sdk_go.RouterAuth.Headers.{
  verified, refused, unauthenticated, Claims, header_values, expected_headers,
  validate_context_headers,
}
use nekiro_sdk_go.RouterAuth.Headers.Laws.{CarriesAll, parent_values, validate_context_headers_iff}
use nekiro_sdk_go.RouterAuth.Object.{Object, decode_object}
use nekiro_sdk_go.RouterAuth.Credential.{decode_segment, split_dots, decode_claims}
use nekiro_sdk_go.RouterAuth.Verify.{
  CredentialContract, VerifierConfig, Segments, segments_of, is_supported, check_signature_size,
  check_signature, header_members, verify_envelope, verify_claims, validity, audience_check,
  parent_is_empty, require, or_unauthenticated, or_unauthenticated_as, signature_malformed,
  header_invalid, header_unsupported, parent_empty, issuer_invalid,
}
use nekiro_sdk_go.RouterAuth.Verify.Steps.{
  >>=-verified, require-verified, or_unauthenticated-ok, or_unauthenticated_as-ok,
}

-- The credential's three segments, its header and its signature are what the verifier demands, and
-- `claims_json` is its second segment, decoded.
pub record IsSigned (contract : CredentialContract) (config : VerifierConfig)
    (credential claims_json : Bytes) : Type 0 where
  pub segments : Segments
  pub signature : Bytes
  pub header_json : Bytes
  pub header : Object
  pub split :
      split_dots credential
      ≡ (segments.header_segment, segments.claims_segment ∷ segments.signature_segment ∷ [])
  pub header_decoded : decode_segment segments.header_segment ≡ ok header_json
  pub claims_decoded : decode_segment segments.claims_segment ≡ ok claims_json
  pub signature_decoded : decode_segment segments.signature_segment ≡ ok signature
  pub signature_size : length signature ≡ 64
  pub object : decode_object header_json header_members ≡ ok header
  pub members : length header ≡ 3
  pub supported : is_supported contract config header ≡ true
  pub signed :
      contract.verify_signature config.public_key
        (segments.header_segment ++ b'.' ∷ segments.claims_segment)
        signature
      ≡ true

refused_pass : {status : ℕ} {e : GoError} → refused status e ≢ verified (tt {0})
refused_pass h = cc

not-true : (b : Bool) → not b ≡ true → b ≡ false
not-true true h = cc
not-true false h = refl

segments_of-split :
    (p : Bytes × List Bytes) (s : Segments)
    → segments_of p ≡ verified s
    → p ≡ (s.header_segment, s.claims_segment ∷ s.signature_segment ∷ [])
segments_of-split (p, []) s h = cc
segments_of-split (p, q ∷ []) s h = cc
segments_of-split (p, q ∷ r ∷ []) s h = ground arith
segments_of-split (p, q ∷ r ∷ x ∷ rest) s h = cc

check_signature_size-eq :
    (signature s : Bytes)
    → check_signature_size signature ≡ verified s
    → (signature ≡ s) × (length s ≡ 64)
check_signature_size-eq signature s h = ground arith

check_signature-verified :
    (contract : CredentialContract) (key message signature : Bytes) (done : Unit {0})
    → check_signature contract key message signature ≡ verified done
    → contract.verify_signature key message signature ≡ true
check_signature-verified contract key message signature done h = ground arith

pub verify_envelope-IsSigned :
    (contract : CredentialContract) (config : VerifierConfig) (credential claims_json : Bytes)
    → verify_envelope contract config credential ≡ verified claims_json
    → IsSigned contract config credential claims_json
unfolding verify_envelope
verify_envelope-IsSigned contract config credential claims_json h0 =
    let (s, e1, h1) = >>=-verified (segments_of (split_dots credential)) _ _ h0 in
    let (hj, e2, h2) = >>=-verified (or_unauthenticated (decode_segment s.header_segment)) _ _ h1 in
    let (cj, e3, h3) = >>=-verified (or_unauthenticated (decode_segment s.claims_segment)) _ _ h2 in
    let (raw, e4, h4) =
      >>=-verified (or_unauthenticated_as (decode_segment s.signature_segment) signature_malformed)
        _ _ h3 in
    let (sig, e5, h5) = >>=-verified (check_signature_size raw) _ _ h4 in
    let (header, e6, h6) =
      >>=-verified (or_unauthenticated_as (decode_object hj header_members) header_invalid) _ _
        h5 in
    let (_, e7, h7) =
      >>=-verified (require (length header == 3) (unauthenticated header_invalid)) _ _ h6 in
    let (_, e8, h8) =
      >>=-verified
        (require (is_supported contract config header) (unauthenticated header_unsupported)) _ _
        h7 in
    let message = s.header_segment ++ b'.' ∷ s.claims_segment in
    let (done, e9, h9) =
      >>=-verified (check_signature contract config.public_key message sig) _ _ h8 in
    let (size_eq, size) = check_signature_size-eq raw sig e5 in
    let last : cj ≡ claims_json = cc in
    let sig_ok = or_unauthenticated_as-ok (decode_segment s.signature_segment) _ raw e4 in
    record {
      segments = s;
      signature = sig;
      header_json = hj;
      header = header;
      split = segments_of-split _ s e1;
      header_decoded = or_unauthenticated-ok _ hj e2;
      claims_decoded =
          subst (λ x. decode_segment s.claims_segment ≡ ok x) last (or_unauthenticated-ok _ cj e3);
      signature_decoded = subst (λ x. decode_segment s.signature_segment ≡ ok x) size_eq sig_ok;
      signature_size = size;
      object = or_unauthenticated_as-ok (decode_object hj header_members) _ header e6;
      members =
          (==_iff (length header) 3).0 (require-verified (length header == 3) _ _ refused_pass e7);
      supported = require-verified (is_supported contract config header) _ _ refused_pass e8;
      signed = check_signature-verified contract config.public_key message sig done e9;
    }

validity-none : (e : Option GoError) (u : Unit {0}) → validity e ≡ verified u → e ≡ none
validity-none none u h = refl
validity-none (some e) u h = cc

audience_check-eq :
    (expected : Bytes) (values : List Bytes) (u : Unit {0})
    → audience_check expected values ≡ verified u
    → (rest : List Bytes) × (values ≡ expected ∷ rest)
audience_check-eq expected [] u h = cc
audience_check-eq expected (a ∷ rest) u h = (rest, ground (arith, bytes_eq_iff a expected))

-- The claims are the decoded segment's, and every rule on claims and headers holds of them.
pub record IsBound (contract : CredentialContract) (config : VerifierConfig) (now : ℤ)
    (header : Header) (claims_json : Bytes) (claims : Claims) : Type 0 where
  pub parent_present : Bool
  pub others : List Bytes
  pub decoded : decode_claims claims_json ≡ ok (claims, parent_present)
  pub parent : parent_is_empty parent_present claims.parent_invocation_id ≡ false
  pub valid : contract.validate_claims claims now ≡ none
  pub issuer : claims.issuer ≡ config.config_issuer
  pub audience : claims.audience ≡ config.config_audience ∷ others
  pub headers : CarriesAll header (expected_headers contract.names claims)
  pub parent_header :
      header_values header contract.names.parent_invocation ≡ parent_values claims parent_present

pub verify_claims-IsBound :
    (contract : CredentialContract) (config : VerifierConfig) (now : ℤ) (header : Header)
    (claims_json : Bytes) (claims : Claims)
    → verify_claims contract config now header claims_json ≡ verified claims
    → IsBound contract config now header claims_json claims
unfolding verify_claims
verify_claims-IsBound contract config now header claims_json claims h0 =
    let (decoded, e1, h1) = >>=-verified (or_unauthenticated (decode_claims claims_json)) _ _ h0 in
    let lone = parent_is_empty decoded.1 decoded.0.parent_invocation_id in
    let (_, e2, h2) = >>=-verified (require (not lone) (unauthenticated parent_empty)) _ _ h1 in
    let (_, e3, h3) = >>=-verified (validity (contract.validate_claims decoded.0 now)) _ _ h2 in
    let same = bytes_eq decoded.0.issuer config.config_issuer in
    let (_, e4, h4) = >>=-verified (require same (unauthenticated issuer_invalid)) _ _ h3 in
    let (_, e5, h5) =
      >>=-verified (audience_check config.config_audience decoded.0.audience) _ _ h4 in
    let (_, e6, h6) =
      >>=-verified (validate_context_headers contract.names header decoded.0 decoded.1) _ _ h5 in
    let last : decoded.0 ≡ claims = cc in
    let (rest, aud) = audience_check-eq _ decoded.0.audience _ e5 in
    let (all_headers, parent) =
      (validate_context_headers_iff contract.names header decoded.0 decoded.1).0 e6 in
    subst (λ c. IsBound contract config now header claims_json c) last
      (record {
        parent_present = decoded.1;
        others = rest;
        decoded = or_unauthenticated-ok _ decoded e1;
        parent = not-true lone (require-verified (not lone) _ _ refused_pass e2);
        valid = validity-none (contract.validate_claims decoded.0 now) _ e3;
        issuer = (bytes_eq_iff _ _).0 (require-verified same _ _ refused_pass e4);
        audience = aud;
        headers = all_headers;
        parent_header = parent;
      })
