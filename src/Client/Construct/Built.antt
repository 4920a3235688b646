-- ===== src/Client/Construct/Built.antt =====
-- What a client that `NewClient` of client/config.go has built holds.
use nekiro_sdk_go.Prelude.{
  ℕ, ◌≤◌, Bytes, Bool, true, false, not, [], ◌∷◌, Option, none, some, ◌≡◌, ◌≢◌, refl, subst, arith,
  all, ◌||◌, ltb, All, bytes_eq,
}
use nekiro_sdk_go.Prelude.Int.{ℤ, pos, negsuc, pos_part}
use nekiro_sdk_go.Errors.{GoError, ok, guard, check, or_wrap, >>=-ok, guard-ok_iff}
use nekiro_sdk_go.Url.{UrlLibrary}
use nekiro_sdk_go.Client.Identifier.{
  safe_identifier, safe_identifier_iff, IsIdentifier, valid_application_credential,
}
use nekiro_sdk_go.Client.Origin.{validate_gateway_origin}
use nekiro_sdk_go.Client.Origin.Laws.{IsOrigin, validate_gateway_origin-IsOrigin}
use nekiro_sdk_go.Client.Construct.{
  ClientConfig, GatewayClient, limit_refused, check_limits, limits_of, is_given, client_of,
  new_client,
}

-- A limit as it is kept: the given one, from 1 to 2147483647.
abbrev IsLimit : ℤ → ℕ → Type 0
IsLimit given kept = (pos kept ≡ given) × (1 ≤ kept) × (kept ≤ 2147483647)

-- Visible ASCII characters, and at least one.
abbrev IsCredential : Bytes → Type 0
IsCredential value = (value ≢ []) × All (λ c. (33 ≤ c) × (c ≤ 126)) value

-- A client as its configuration describes it.
pub record IsBuilt (lib : UrlLibrary) (config : ClientConfig) (c : GatewayClient) : Type 0 where
  pub http_given : config.http_client ≢ none
  pub no_redirects : c.redirects_followed ≡ false
  pub origin : (c.bound.gateway_origin ≡ config.gateway_origin) × IsOrigin lib config.gateway_origin
  pub workspace : (c.bound.workspace_id ≡ config.workspace_id) × IsIdentifier config.workspace_id
  pub credential :
      (c.bound.application_credential ≡ config.application_credential)
      × IsCredential config.application_credential
  pub requests : IsLimit config.request_limit_bytes c.bound.request_limit
  pub responses : IsLimit config.response_limit_bytes c.bound.response_limit
  pub events : IsLimit config.stream_event_limit_bytes c.bound.stream_event_limit

pos_part-IsLimit : (limit : ℤ) → limit_refused limit ≡ false → IsLimit limit (pos_part limit)
pos_part-IsLimit (pos n) h = ground arith
pos_part-IsLimit (negsuc n) h = absurd (ground arith)

check_limits-ok :
    (config : ClientConfig) (u : Unit {0})
    → check_limits (limits_of config) ≡ ok u
    → (limit_refused config.request_limit_bytes ≡ false)
      × (limit_refused config.response_limit_bytes ≡ false)
      × (limit_refused config.stream_event_limit_bytes ≡ false)
unfolding check_limits
check_limits-ok config u h = ground arith

all-visible :
    (value : Bytes)
    → all (λ c. not (ltb c 0x21 || ltb 0x7e c)) value ≡ true
    → All (λ c. (33 ≤ c) × (c ≤ 126)) value
all-visible [] h = tt
all-visible (c ∷ cs) h = ((ground arith, ground arith), all-visible cs (ground arith))

is_given-some : (client : Option Bool) → is_given client ≡ true → client ≢ none
is_given-some none h = absurd (ground arith)
is_given-some (some follows) h = λ e. ground arith

valid_application_credential-IsCredential :
    (value : Bytes) → valid_application_credential value ≡ true → IsCredential value
unfolding valid_application_credential bytes_eq
valid_application_credential-IsCredential [] h = absurd (ground arith)
valid_application_credential-IsCredential (c ∷ cs) h = (λ e. ground arith, all-visible (c ∷ cs) h)

-- `NewClient` succeeds only with an HTTP client, an acceptable origin, a Workspace that is an
-- identifier, a credential of visible characters, and three limits from 1 to 2147483647; the client
-- holds just these values, and never follows a redirect.
pub new_client-IsBuilt :
    (lib : UrlLibrary) (result_error runtime_error : Option GoError) (config : ClientConfig)
    (c : GatewayClient)
    → new_client lib result_error runtime_error config ≡ ok c
    → IsBuilt lib config c
unfolding new_client
new_client-IsBuilt lib result_error runtime_error config c h =
    let (given, e1, h1) = >>=-ok (guard (is_given config.http_client) _) _ _ h in
    let (origin, e2, h2) = >>=-ok (validate_gateway_origin lib config.gateway_origin) _ _ h1 in
    let (u, e3, h3) = >>=-ok (guard (safe_identifier config.workspace_id) _) _ _ h2 in
    let (v, e4, h4) =
      >>=-ok (guard (valid_application_credential config.application_credential) _) _ _ h3 in
    let (w, e5, h5) = >>=-ok (check_limits (limits_of config)) _ _ h4 in
    let (x, e6, h6) = >>=-ok (or_wrap (check result_error) _) _ _ h5 in
    let (y, e7, h7) = >>=-ok (or_wrap (check runtime_error) _) _ _ h6 in
    let (same, is_origin) = validate_gateway_origin-IsOrigin lib config.gateway_origin origin e2 in
    let (requests, responses, events) = check_limits-ok config w e5 in
    let built : GatewayClient = record {
      redirects_followed = false;
      bound = client_of config origin;
    } in
    let is : built ≡ c = cc in
    subst (IsBuilt lib config) is (record {
      http_given = is_given-some config.http_client ((guard-ok_iff _ _).0 e1);
      no_redirects = refl;
      origin = (same, is_origin);
      workspace = (refl, (safe_identifier_iff config.workspace_id).0 ((guard-ok_iff _ _).0 e3));
      credential = (
        refl,
        valid_application_credential-IsCredential config.application_credential
            ((guard-ok_iff _ _).0 e4),
      );
      requests = pos_part-IsLimit config.request_limit_bytes requests;
      responses = pos_part-IsLimit config.response_limit_bytes responses;
      events = pos_part-IsLimit config.stream_event_limit_bytes events;
    })
