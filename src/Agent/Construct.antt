-- ===== src/Agent/Construct.antt =====
-- `NewClient` of agent/client.go.
use nekiro_sdk_go.Prelude.{
  ℕ, ◌≤◌, Bytes, Bool, true, false, [], ◌||◌, bytes_eq, bytes_eq_iff, if◌then◌else◌, Option, none,
  some, ◌≡◌, ◌≢◌, ◌↔◌, refl, sym, ap, arith,
}
use nekiro_sdk_go.Prelude.Int.{ℤ, pos, negsuc, pos_part, ltb_ℤ}
use nekiro_sdk_go.Errors.{GoError, plain, wrap, Result, ok, err}
use nekiro_sdk_go.Agent.Call.{Client}

-- The doer that a caller passes: nil, an `*http.Client` that may be nil, or another type. The flag is
-- whether it follows redirects.
pub data GivenDoer : Type 0 where
  nil_doer : GivenDoer
  http_client : Bool → Bool → GivenDoer
  other_doer : Bool → GivenDoer

-- The client's doer, and the rest of its fields.
pub record NewClient : Type 0 where
  pub follows_redirects : Bool
  pub client : Client

abbrev is_nil_doer : GivenDoer → Bool
is_nil_doer nil_doer = true
is_nil_doer _ = false

abbrev pub byte_limit_minimum : ℤ
byte_limit_minimum = pos 1

abbrev pub byte_limit_maximum : ℤ
byte_limit_maximum = pos 2147483647

abbrev limit_invalid : ℤ → Bool
limit_invalid limit = ltb_ℤ limit byte_limit_minimum || ltb_ℤ byte_limit_maximum limit

-- The doer that is kept: a copy of an `*http.Client` never follows a redirect.
abbrev kept : GivenDoer → Result Bool
kept nil_doer = err (plain "agentsdk: HTTP doer is required")
kept (http_client true follows) = err (plain "agentsdk: HTTP doer is required")
kept (http_client false follows) = ok false
kept (other_doer follows) = ok follows

abbrev validators : Option GoError → Option GoError → NewClient → Result NewClient
validators (some e) r c = err (wrap "agentsdk: initialize runtime validator" e)
validators none (some e) c = err (wrap "agentsdk: initialize result validator" e)
validators none none c = ok c

abbrev with_doer : Result Bool → (Bool → Result NewClient) → Result NewClient
with_doer (err e) next = err e
with_doer (ok follows) next = next follows

-- `runtime_error` and `result_error` are the errors of the two validators' constructors in the
-- contracts module.
unfoldable pub new_client :
    Option GoError → Option GoError → GivenDoer → Bytes → Bytes → ℤ → ℤ → Result NewClient
new_client runtime_error result_error doer router_url token response_limit event_limit =
    if is_nil_doer doer
    then err (plain "agentsdk: HTTP doer is required")
    else if bytes_eq router_url []
    then err (plain "agentsdk: router URL is required")
    else if bytes_eq token []
    then err (plain "agentsdk: bearer token is required")
    else if limit_invalid response_limit
    then err (plain "agentsdk: response limit is invalid")
    else if limit_invalid event_limit
    then err (plain "agentsdk: event limit is invalid")
    else with_doer (kept doer) λ follows. validators runtime_error result_error (record {
      follows_redirects = follows;
      client = record {
        router_url = router_url;
        token = token;
        response_limit = pos_part response_limit;
        event_limit = pos_part event_limit;
      };
    })

abbrev IsUsableDoer : GivenDoer → Bool → Type 0
IsUsableDoer nil_doer kept = ⊥
IsUsableDoer (http_client true follows) kept = ⊥
IsUsableDoer (http_client false follows) kept = kept ≡ false
IsUsableDoer (other_doer follows) kept = kept ≡ follows

-- A client as its parameters describe it.
pub record IsBuilt (runtime_error result_error : Option GoError) (doer : GivenDoer)
    (router_url token : Bytes) (response_limit event_limit : ℤ) (c : NewClient) : Type 0 where
  pub usable : IsUsableDoer doer c.follows_redirects
  pub url : (router_url ≢ []) × (c.client.router_url ≡ router_url)
  pub token_kept : (token ≢ []) × (c.client.token ≡ token)
  pub responses :
      (pos c.client.response_limit ≡ response_limit)
      × (1 ≤ c.client.response_limit)
      × (c.client.response_limit ≤ 2147483647)
  pub events :
      (pos c.client.event_limit ≡ event_limit)
      × (1 ≤ c.client.event_limit)
      × (c.client.event_limit ≤ 2147483647)
  pub runtime_validator : runtime_error ≡ none
  pub result_validator : result_error ≡ none

valid_limit :
    (limit : ℤ)
    → limit_invalid limit ≡ false
    → (pos (pos_part limit) ≡ limit) × (1 ≤ pos_part limit) × (pos_part limit ≤ 2147483647)
valid_limit (pos n) h = ground arith
valid_limit (negsuc n) h = absurd (ground arith)

limit_valid :
    (limit : ℤ) (n : ℕ)
    → pos n ≡ limit
    → 1 ≤ n
    → n ≤ 2147483647
    → (limit_invalid limit ≡ false) × (pos_part limit ≡ n)
limit_valid limit n e low high = ground arith

kept-IsUsableDoer :
    (doer : GivenDoer) (follows : Bool) → kept doer ≡ ok follows → IsUsableDoer doer follows
kept-IsUsableDoer nil_doer follows h = cc
kept-IsUsableDoer (http_client true f) follows h = cc
kept-IsUsableDoer (http_client false f) follows h = cc
kept-IsUsableDoer (other_doer f) follows h = cc

IsUsableDoer-kept :
    (doer : GivenDoer) (follows : Bool)
    → IsUsableDoer doer follows
    → (is_nil_doer doer ≡ false) × (kept doer ≡ ok follows)
IsUsableDoer-kept nil_doer follows h = absurd h
IsUsableDoer-kept (http_client true f) follows h = absurd h
IsUsableDoer-kept (http_client false f) follows h = (refl, ap ok (sym h))
IsUsableDoer-kept (other_doer f) follows h = (refl, ap ok (sym h))

module _ (runtime_error result_error : Option GoError) (doer : GivenDoer) (router_url token : Bytes)
    (response_limit event_limit : ℤ) (c : NewClient) where
  -- `NewClient` succeeds exactly with a doer that is no nil `*http.Client`, a Router URL and a token
  -- that are not empty, limits from 1 to 2147483647, and two validators that could be made; the client
  -- holds just these values, and an `*http.Client` no longer follows redirects.
  pub new_client-ok_iff :
      (new_client runtime_error result_error doer router_url token response_limit event_limit
        ≡ ok c)
      ↔ IsBuilt runtime_error result_error doer router_url token response_limit event_limit c
  unfolding new_client
  new_client-ok_iff = (
    λ h. record {
      usable = kept-IsUsableDoer doer c.follows_redirects (ground arith);
      url = ground (arith, bytes_eq_iff router_url []);
      token_kept = ground (arith, bytes_eq_iff token []);
      responses = ground (arith, valid_limit response_limit);
      events = ground (arith, valid_limit event_limit);
      runtime_validator = ground arith;
      result_validator = ground arith;
    },
    λ b. ground (
      arith,
      IsUsableDoer-kept doer c.follows_redirects b.usable,
      bytes_eq_iff router_url [],
      bytes_eq_iff token [],
      limit_valid response_limit c.client.response_limit b.responses.0,
      limit_valid event_limit c.client.event_limit b.events.0,
    ),
  )
