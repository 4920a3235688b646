-- ===== src/RouterAuth/Verify/Admission.antt =====
-- `Verify` of agent/routerauth/verifier.go as a whole: what a verified request has passed, and that
-- a credential verifies once.
use nekiro_sdk_go.Prelude.{
  Bytes, true, false, List, [], ◌∷◌, ◌++◌, All, some, ◌≡◌, ◌≢◌, inl, inr, refl, sym, subst, arith,
  Bool-cases,
}
use nekiro_sdk_go.Prelude.Int.{ℤ, ◌<ℤ◌}
use nekiro_sdk_go.Http.{Header}
use nekiro_sdk_go.RouterAuth.Replay.{ReplayGuard, accept}
use nekiro_sdk_go.RouterAuth.Replay.Laws.{
  accept-true_iff, accept-stored, accept-live, accept-refused,
}
use nekiro_sdk_go.RouterAuth.Headers.{
  Verified, verified, refused, panicked, Claims, header_values, bearer, has_separator,
  credential_from_headers,
}
use nekiro_sdk_go.RouterAuth.Headers.Laws.{credential_from_headers_iff}
use nekiro_sdk_go.RouterAuth.Verify.{
  CredentialContract, VerifierConfig, verify_envelope, verify_request, verify, settle,
}
use nekiro_sdk_go.RouterAuth.Verify.Steps.{>>=-verified}
use nekiro_sdk_go.RouterAuth.Verify.Sound.{
  IsSigned, IsBound, verify_envelope-IsSigned, verify_claims-IsBound,
}

-- The request carries one credential, signed by the configured key, with claims that hold of the
-- request, and not expired.
pub record IsAuthentic (contract : CredentialContract) (config : VerifierConfig) (now later : ℤ)
    (header : Header) (claims : Claims) : Type 0 where
  pub credential : Bytes
  pub claims_json : Bytes
  pub bearer_header :
      header_values header contract.names.authorization ≡ (bearer ++ credential) ∷ []
  pub clean : has_separator credential ≡ false
  pub is_signed : IsSigned contract config credential claims_json
  pub is_bound : IsBound contract config now header claims_json claims
  pub unexpired : later <ℤ claims.expires_at

settle-verified :
    (m : Verified Claims) (later : ℤ) (g : ReplayGuard) (claims : Claims)
    → (settle m later g).1 ≡ verified claims
    → (m ≡ verified claims) × ((accept later claims.jwt_id claims.expires_at g).1 ≡ true)
settle-verified (verified c) later g claims h =
    elim (Bool-cases (accept later c.jwt_id c.expires_at g).1) [
      | inl e ↦
          let same : c ≡ claims = ground arith in
          subst (λ x. (verified c ≡ verified x) × ((accept later x.jwt_id x.expires_at g).1 ≡ true))
            same (refl, e)
      | inr e ↦ absurd (ground arith)
    ]
settle-verified (refused status e) later g claims h = cc
settle-verified panicked later g claims h = cc

-- A request verifies only if it has one bearer credential, of three segments, whose header names
-- the algorithm, the type and the key; whose signature the configured key verifies; whose claims
-- are valid, are the configured issuer's for the configured audience, and agree with each context
-- header; and which has not expired.
pub verify-IsAuthentic :
    (contract : CredentialContract) (config : VerifierConfig) (now later : ℤ) (header : Header)
    (g : ReplayGuard) (claims : Claims)
    → (verify contract config now later header g).1 ≡ verified claims
    → IsAuthentic contract config now later header claims
unfolding verify verify_request
verify-IsAuthentic contract config now later header g claims h =
    let (request, admitted) =
      settle-verified (verify_request contract config now header) later g claims h in
    let (credential, e1, h1) =
      >>=-verified (credential_from_headers contract.names header) _ _ request in
    let (claims_json, e2, h2) = >>=-verified (verify_envelope contract config credential) _ _ h1 in
    let (value, full, clean) =
      (credential_from_headers_iff contract.names header credential).0 e1 in
    record {
      credential = credential;
      claims_json = claims_json;
      bearer_header = value;
      clean = clean;
      is_signed = verify_envelope-IsSigned contract config credential claims_json e2;
      is_bound = verify_claims-IsBound contract config now header claims_json claims h2;
      unexpired = ((accept-true_iff later claims.jwt_id claims.expires_at g).0 admitted).0;
    }

pub record Request : Type 0 where
  pub now : ℤ
  pub later : ℤ
  pub header : Header

-- The guard behind some requests, in the order in which they reach it.
unfoldable pub verify_all :
    CredentialContract → VerifierConfig → List Request → ReplayGuard → ReplayGuard
unfolding verify
verify_all contract config [] g = g
verify_all contract config (r ∷ requests) g =
    verify_all contract config requests (verify contract config r.now r.later r.header g).0

settle-stored :
    (m : Verified Claims) (later : ℤ) (g : ReplayGuard) (claims : Claims)
    → (settle m later g).1 ≡ verified claims
    → (settle m later g).0.expires claims.jwt_id ≡ some claims.expires_at
settle-stored (verified c) later g claims h =
    elim (Bool-cases (accept later c.jwt_id c.expires_at g).1) [
      | inl e ↦ ground (arith, accept-stored later c.jwt_id c.expires_at g e)
      | inr e ↦ absurd (ground arith)
    ]
settle-stored (refused status e) later g claims h = cc
settle-stored panicked later g claims h = cc

settle-live :
    (m : Verified Claims) (later : ℤ) (g : ReplayGuard) (id : Bytes) (e : ℤ)
    → g.expires id ≡ some e
    → later <ℤ e
    → (settle m later g).0.expires id ≡ some e
settle-live (verified c) later g id e h l =
    let kept = accept-live later c.jwt_id c.expires_at g id e h l in
    elim (Bool-cases (accept later c.jwt_id c.expires_at g).1) [
      | inl t ↦ ground (arith, kept)
      | inr t ↦ ground (arith, kept)
    ]
settle-live (refused status x) later g id e h l = h
settle-live panicked later g id e h l = h

verify_all-live :
    (contract : CredentialContract) (config : VerifierConfig) (requests : List Request)
    (g : ReplayGuard) (id : Bytes) (e : ℤ)
    → g.expires id ≡ some e
    → All (λ r. r.later <ℤ e) requests
    → (verify_all contract config requests g).expires id ≡ some e
unfolding verify_all verify
verify_all-live contract config [] g id e h l = h
verify_all-live contract config (r ∷ requests) g id e h l =
    verify_all-live contract config requests _ id e
      (settle-live (verify_request contract config r.now r.header) r.later g id e h l.0) l.1

-- A credential verifies once: when a request has verified, and later requests, whatever they were,
-- came before the credential's expiry by the guard's clock, a request that verifies before that
-- expiry has another identifier.
pub verify-once :
    (contract : CredentialContract) (config : VerifierConfig) (first : Request)
    (between : List Request) (last : Request) (g : ReplayGuard) (claims again : Claims)
    → (verify contract config first.now first.later first.header g).1 ≡ verified claims
    → All (λ r. r.later <ℤ claims.expires_at) between
    → last.later <ℤ claims.expires_at
    → (verify contract config last.now last.later last.header (
        verify_all contract config between
          (verify contract config first.now first.later first.header g).0)).1
      ≡ verified again
    → again.jwt_id ≢ claims.jwt_id
unfolding verify
verify-once contract config first between last g claims again h before l t same =
    let stored =
      settle-stored (verify_request contract config first.now first.header) first.later g claims
        h in
    let live =
      verify_all-live contract config between _ claims.jwt_id claims.expires_at stored before in
    let g' =
      verify_all contract config between
        (settle (verify_request contract config first.now first.header) first.later g).0 in
    let admitted =
      (settle-verified (verify_request contract config last.now last.header) last.later g' again
        t).1 in
    let refused_again =
      accept-refused last.later again.jwt_id again.expires_at g' claims.expires_at
        (subst (λ x. g'.expires x ≡ some claims.expires_at) (sym same) live) l in
    cc
