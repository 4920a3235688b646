-- ===== src/RouterAuth/Middleware.antt =====
-- `Middleware` of agent/routerauth/middleware.go and `writeVerificationError` of
-- agent/routerauth/errors.go. The error codes, the error payload and its encoding are the contracts
-- module's.
pub mod Replies
use nekiro_sdk_go.Prelude.{ℕ, Bytes, Bool, true, false, List, [], ◌∷◌, ◌==◌, codes, if◌then◌else◌}
use nekiro_sdk_go.Prelude.Int.{ℤ}
use nekiro_sdk_go.Errors.{GoError, Result, ok, err, ◌>>=◌}
use nekiro_sdk_go.Http.{Header}
use nekiro_sdk_go.RouterAuth.Replay.{ReplayGuard}
use nekiro_sdk_go.RouterAuth.Headers.{Verified, verified, refused, panicked, Claims}
use nekiro_sdk_go.RouterAuth.Verify.{CredentialContract, VerifierConfig, verify}
use nekiro_sdk_go.RouterAuth.Config.{ConfigContract, Verifier, new_verifier}

pub record ErrorContract : Type 0 where
  pub code_unauthenticated : Bytes
  pub code_forbidden : Bytes
  pub encode_error : Bytes → Result Bytes

-- `Middleware` of agent/routerauth/middleware.go.
pub record Middleware : Type 0 where
  pub verifier : Verifier

-- `NewMiddleware`: the clock is there or nil.
unfoldable pub new_middleware : ConfigContract → VerifierConfig → Bool → Result Middleware
new_middleware contract config has_clock = do
  verifier ← new_verifier contract config has_clock
  ok (record { verifier = verifier })

-- What one request comes to: the next handler runs with the claims in its context, or a response is
-- written, or the handler panics.
pub data Outcome : Type 0 where
  served : Claims → Outcome
  written : ℕ → Header → Bytes → Outcome
  crashed : Outcome

abbrev pub error_headers : Header
error_headers =
    (codes "Content-Type", codes "application/json" ∷ [])
    ∷ (codes "Cache-Control", codes "no-store" ∷ [])
    ∷ []

abbrev pub bearer_challenge : Header
bearer_challenge = (codes "WWW-Authenticate", codes "Bearer" ∷ []) ∷ error_headers

abbrev pub write_error : ℕ → Header → Result Bytes → Outcome
write_error status header (ok payload) = written status header payload
write_error status header (err e) = crashed

unfoldable pub write_verification_error : ErrorContract → ℕ → Outcome
write_verification_error errors status =
    if status == 401
    then write_error 401 bearer_challenge (errors.encode_error errors.code_unauthenticated)
    else if status == 403
    then write_error 403 error_headers (errors.encode_error errors.code_forbidden)
    else crashed

abbrev pub answer : ErrorContract → Verified Claims → Outcome
answer errors (verified claims) = served claims
answer errors (refused status e) = write_verification_error errors status
answer errors panicked = crashed

-- `Middleware.Handler`
unfoldable pub handle :
    CredentialContract
    → ErrorContract
    → VerifierConfig
    → ℤ
    → ℤ
    → Header
    → ReplayGuard
    → ReplayGuard × Outcome
unfolding verify write_verification_error
handle contract errors config now later header g =
    let r = verify contract config now later header g in (r.0, answer errors r.1)
