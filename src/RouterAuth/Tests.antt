-- ===== src/RouterAuth/Tests.antt =====
-- Tests of agent/routerauth/*.go.
use mathlib.Core.List.{Permᴰ}
use nekiro_sdk_go.Http.{Header}
use nekiro_sdk_go.RouterAuth.Headers.Order.{credential-context-perm}
use nekiro_sdk_go.Prelude.{
  ℕ, suc, ◌+◌, ◌≤◌, ◌<◌, Bytes, Bool, true, false, List, [], ◌∷◌, ◌++◌, length, codes, Option, none,
  some, ◌≡◌, ◌≢◌, ◌↔◌, refl, arith, All, has_prefix,
}
use nekiro_sdk_go.Prelude.Int.{pos}
use nekiro_sdk_go.Errors.{ok, err, plain}
use nekiro_sdk_go.Json.Decoder.{new_decoder}
use nekiro_sdk_go.Json.Scanner.{punct, number, open_array, close_array}
use nekiro_sdk_go.RouterAuth.Replay.{ReplayGuard, accept}
use nekiro_sdk_go.RouterAuth.Replay.Laws as Laws
use nekiro_sdk_go.RouterAuth.Replay.Laws.{
  accept_all, accept-true_iff, accept-unexpired, accept-other, accept-no_replay,
}
use nekiro_sdk_go.RouterAuth.Headers.{
  verified, header_values, equal_fold, match_expected, credential_from_headers,
  validate_context_headers, expected_headers, bearer, has_separator,
}
use nekiro_sdk_go.RouterAuth.Headers.Laws.{
  CarriesAll, parent_values, validate_context_headers_iff, credential_from_headers_iff,
}
use nekiro_sdk_go.RouterAuth.Object.{RawMessage, decode_object}
use nekiro_sdk_go.RouterAuth.Object.Strict.{IsStrict, decode_object-IsStrict}
use nekiro_sdk_go.RouterAuth.Verify.{VerifierConfig, verify}
use nekiro_sdk_go.RouterAuth.Verify.Outcomes.{RequiresAudience}
use nekiro_sdk_go.RouterAuth.Verify.Admission.{
  IsAuthentic, verify-IsAuthentic, Request, verify_all, verify-once,
}
use nekiro_sdk_go.RouterAuth.Config.{load_config, new_verifier}
use nekiro_sdk_go.RouterAuth.Config.Loading.{IsLoaded, load_config-IsLoaded}
use nekiro_sdk_go.RouterAuth.Middleware.{Middleware, new_middleware, crashed, handle}
use nekiro_sdk_go.RouterAuth.Middleware.Replies.{IsReply, handle-IsReply}
use nekiro_sdk_go.RouterAuth.Samples.{
  names, contract, config, credential, second_credential, header, header_with, claims,
  second_claims, no_replay, error_contract, config_contract, environment,
}

verify-sample : (verify contract config (pos 120) (pos 121) header no_replay).1 ≡ verified claims
unfolding verify header_values equal_fold has_prefix match_expected
verify-sample = refl

verify-IsAuthentic_example : IsAuthentic contract config (pos 120) (pos 121) header claims
verify-IsAuthentic_example =
    verify-IsAuthentic contract config (pos 120) (pos 121) header no_replay claims verify-sample

abbrev first_request : Request
first_request = record { now = pos 120; later = pos 121; header = header }

abbrev last_request : Request
last_request = record { now = pos 130; later = pos 131; header = header_with second_credential }

abbrev guard_behind : ReplayGuard
guard_behind =
    verify_all contract config (first_request ∷ [])
      (verify contract config (pos 120) (pos 121) header no_replay).0

verify-second :
    (verify contract config (pos 130) (pos 131) (header_with second_credential) guard_behind).1
    ≡ verified second_claims
unfolding verify verify_all header_values equal_fold has_prefix match_expected
verify-second = refl

verify-once_example : second_claims.jwt_id ≢ claims.jwt_id
verify-once_example =
    verify-once contract config first_request (first_request ∷ []) last_request no_replay claims
      second_claims verify-sample (omega arith, tt) (omega arith) verify-second

requires_audience : RequiresAudience contract
requires_audience c now h e = ground arith

abbrev short_key : VerifierConfig
short_key = record config { public_key = codes "1234" }

abbrev middleware : Middleware
middleware = record { verifier = record { config = config; replay = no_replay } }

middleware-built : new_middleware config_contract config true ≡ ok middleware
unfolding new_middleware new_verifier
middleware-built = refl

-- A key of another size would let `ed25519.Verify` panic, and no middleware is built with it.
short_key_panics :
    (handle contract error_contract short_key (pos 120) (pos 121) header no_replay).1 ≡ crashed
unfolding handle verify header_values equal_fold has_prefix match_expected
short_key_panics = refl

short_key_refused :
    new_middleware config_contract short_key true ≡ err (plain "router public key is invalid")
unfolding new_middleware new_verifier
short_key_refused = refl

handle-IsReply_example :
    IsReply (handle contract error_contract config (pos 120) (pos 121) [] no_replay).1
handle-IsReply_example =
    handle-IsReply contract error_contract config_contract config true middleware (pos 120)
      (pos 121) [] no_replay (codes "UNAUTHENTICATED") (codes "FORBIDDEN") middleware-built
      requires_audience refl refl

accept-stores : (accept (pos 5) (codes "a") (pos 9) no_replay).0.expires (codes "a") ≡ some (pos 9)
unfolding accept nekiro_sdk_go.Prelude.bytes_eq
accept-stores = refl

accept-first : (accept (pos 5) (codes "a") (pos 9) no_replay).1 ≡ true
unfolding accept
accept-first = refl

abbrev other_call : Laws.Call
other_call = record { time = pos 6; jwt_id = codes "b"; expires_at = pos 7 }

accept-no_replay_example :
    (accept
      (pos 8)
      (codes "a")
      (pos 20)
      (accept_all (other_call ∷ []) (accept (pos 5) (codes "a") (pos 9) no_replay).0)).1
    ≡ false
accept-no_replay_example =
    accept-no_replay (pos 5) (codes "a") (pos 9) no_replay (other_call ∷ []) (pos 8) (pos 20)
      accept-first (omega arith, tt) (omega arith)

validate_context_headers_iff_example :
    (validate_context_headers names header claims false ≡ verified tt) ↔ (
      CarriesAll header (expected_headers names claims)
      × (header_values header names.parent_invocation ≡ parent_values claims false))
validate_context_headers_iff_example = validate_context_headers_iff names header claims false

credential_from_headers_iff_example :
    (credential_from_headers names header ≡ verified credential) ↔ (
      (header_values header names.authorization ≡ (bearer ++ credential) ∷ [])
      × (credential ≢ [])
      × (has_separator credential ≡ false))
credential_from_headers_iff_example = credential_from_headers_iff names header credential

abbrev small_object : Bytes
small_object = codes "{" ++ b'"' ∷ codes "a" ++ b'"' ∷ codes ":[1]}"

abbrev small_value : RawMessage
small_value = punct open_array ∷ number (codes "1") ∷ punct close_array ∷ []

decode-small : decode_object small_object (codes "a" ∷ []) ≡ ok ((codes "a", small_value) ∷ [])
unfolding decode_object nekiro_sdk_go.Prelude.bytes_eq nekiro_sdk_go.Json.Unquote.unquote
decode-small = refl

decode_object-IsStrict_example : IsStrict (codes "a" ∷ []) ((codes "a", small_value) ∷ [])
decode_object-IsStrict_example =
    decode_object-IsStrict small_object (codes "a" ∷ []) ((codes "a", small_value) ∷ [])
      decode-small

fuel_enough : length (new_decoder small_object).items < 10
unfolding new_decoder
fuel_enough = omega arith

load-sample : load_config config_contract environment ≡ ok config
unfolding load_config environment
load-sample = refl

load_config-IsLoaded_example : IsLoaded config_contract environment config
load_config-IsLoaded_example = load_config-IsLoaded config_contract environment config load-sample

new-sample :
    new_verifier config_contract config true ≡ ok (record { config = config; replay = no_replay })
unfolding new_verifier
new-sample = refl

abbrev two_headers : Header
two_headers = (codes "N-Ws", codes "w1" ∷ []) ∷ (codes "n-ws", codes "w2" ∷ []) ∷ []

abbrev swapped_headers : Header
swapped_headers = (codes "n-ws", codes "w2" ∷ []) ∷ (codes "N-Ws", codes "w1" ∷ []) ∷ []

swapped : Permᴰ two_headers swapped_headers
swapped = Permᴰ.swap refl refl

credential-context-perm_example :
    (credential_from_headers names two_headers ≡ credential_from_headers names swapped_headers)
    × (validate_context_headers names two_headers claims false
        ≡ validate_context_headers names swapped_headers claims false)
credential-context-perm_example =
    credential-context-perm names two_headers swapped_headers claims false swapped
