-- ===== src/RouterAuth/Middleware/Replies.antt =====
-- What the middleware of agent/routerauth/middleware.go does with a request.
use nekiro_sdk_go.Prelude.{ℕ, Bytes, Bool, length, subst, ◌≡◌, ◌≢◌, ◌⊎◌, inl, inr, ◌↔◌, refl, arith}
use nekiro_sdk_go.Prelude.Int.{ℤ}
use nekiro_sdk_go.Errors.{Result, ok, err, >>=-ok}
use nekiro_sdk_go.RouterAuth.Config.{ConfigContract, new_verifier}
use nekiro_sdk_go.RouterAuth.Config.Loading.{new_verifier-length}
use nekiro_sdk_go.Http.{Header}
use nekiro_sdk_go.RouterAuth.Replay.{ReplayGuard}
use nekiro_sdk_go.RouterAuth.Headers.{Verified, verified, refused, panicked, Claims}
use nekiro_sdk_go.RouterAuth.Verify.{CredentialContract, VerifierConfig, verify}
use nekiro_sdk_go.RouterAuth.Verify.Steps.{IsAnswered}
use nekiro_sdk_go.RouterAuth.Verify.Outcomes.{RequiresAudience, verify-IsAnswered}
use nekiro_sdk_go.RouterAuth.Middleware.{
  Middleware, new_middleware, ErrorContract, Outcome, served, written, crashed, error_headers,
  bearer_challenge, write_verification_error, write_error, answer, handle,
}

written_served :
    (status : ℕ) (header : Header) (r : Result Bytes) (claims : Claims)
    → write_error status header r ≢ served claims
written_served status header (ok p) claims h = cc
written_served status header (err e) claims h = cc

write_verification_error-served :
    (errors : ErrorContract) (status : ℕ) (claims : Claims)
    → write_verification_error errors status ≢ served claims
unfolding write_verification_error
write_verification_error-served errors status claims h = ground (
  arith,
  written_served 401 bearer_challenge (errors.encode_error errors.code_unauthenticated) claims,
  written_served 403 error_headers (errors.encode_error errors.code_forbidden) claims,
)

answer-served :
    (errors : ErrorContract) (m : Verified Claims) (claims : Claims)
    → (answer errors m ≡ served claims) ↔ (m ≡ verified claims)
answer-served errors (verified c) claims = (λ h. ground arith, λ h. ground arith)
answer-served errors (refused status e) claims =
    (λ h. absurd (write_verification_error-served errors status claims h), λ h. cc)
answer-served errors panicked claims = (λ h. cc, λ h. cc)

-- The next handler runs, with some claims in its context, exactly when the request verifies with
-- these claims.
pub handle-served_iff :
    (contract : CredentialContract) (errors : ErrorContract) (config : VerifierConfig)
    (now later : ℤ) (header : Header) (g : ReplayGuard) (claims : Claims)
    → ((handle contract errors config now later header g).1 ≡ served claims)
      ↔ ((verify contract config now later header g).1 ≡ verified claims)
unfolding handle
handle-served_iff contract errors config now later header g claims =
    answer-served errors (verify contract config now later header g).1 claims

-- A request is served, or answered by 401 with a challenge, or by 403 without one, each marked as
-- JSON that is not to be stored.
abbrev pub IsReply : Outcome → Type 0
IsReply (served claims) = Unit
IsReply (written status header payload) =
    ((status ≡ 401) × (header ≡ bearer_challenge)) ⊎ ((status ≡ 403) × (header ≡ error_headers))
IsReply crashed = ⊥

written-IsReply :
    (errors : ErrorContract) (status : ℕ) (u f : Bytes)
    → (status ≡ 401) ⊎ (status ≡ 403)
    → errors.encode_error errors.code_unauthenticated ≡ ok u
    → errors.encode_error errors.code_forbidden ≡ ok f
    → IsReply (write_verification_error errors status)
unfolding write_verification_error
written-IsReply errors status u f (inl e) p q = rw (e, p) (inl (refl, refl))
written-IsReply errors status u f (inr e) p q = rw (e, q) (inr (refl, refl))

answer-IsReply :
    (errors : ErrorContract) (m : Verified Claims) (u f : Bytes)
    → IsAnswered m
    → errors.encode_error errors.code_unauthenticated ≡ ok u
    → errors.encode_error errors.code_forbidden ≡ ok f
    → IsReply (answer errors m)
answer-IsReply errors (verified c) u f a p q = tt
answer-IsReply errors (refused status e) u f a p q = written-IsReply errors status u f a p q
answer-IsReply errors panicked u f a p q = elim a [ ]

-- When the claim validation refuses an empty audience and the two error payloads encode, a middleware
-- that `NewMiddleware` has built never panics, whatever its replay guard has seen: it serves the
-- request, or answers with 401 and a Bearer challenge, or with 403, as JSON that is not to be stored.
pub handle-IsReply :
    (contract : CredentialContract) (errors : ErrorContract) (config_contract : ConfigContract)
    (config : VerifierConfig) (has_clock : Bool) (m : Middleware) (now later : ℤ) (header : Header)
    (g : ReplayGuard) (u f : Bytes)
    → new_middleware config_contract config has_clock ≡ ok m
    → RequiresAudience contract
    → errors.encode_error errors.code_unauthenticated ≡ ok u
    → errors.encode_error errors.code_forbidden ≡ ok f
    → IsReply (handle contract errors m.verifier.config now later header g).1
unfolding handle new_middleware
handle-IsReply contract errors config_contract config has_clock m now later header g u f built r p
      q =
    let (v, made, same) = >>=-ok (new_verifier config_contract config has_clock) _ _ built in
    let kept : v ≡ m.verifier = ground arith in
    let sized =
      subst (λ w. length w.config.public_key ≡ 32) kept
        (new_verifier-length config_contract config has_clock v made) in
    answer-IsReply errors (verify contract m.verifier.config now later header g).1 u f
      (verify-IsAnswered contract m.verifier.config now later header g sized r) p q
