-- ===== src/Client/Request/Sent.antt =====
-- What `do` of client/client.go sends.
use nekiro_sdk_go.Prelude.{
  ℕ, ◌+◌, ◌≤◌, Bytes, Bool, true, false, List, [], ◌∷◌, ◌++◌, length, length-append, ltb, not,
  codes, ◌≡◌, refl, sym, subst, arith, Option, none, some,
}
use nekiro_sdk_go.Errors.{>>=-ok, GoError, Result, ok, err, guard, check, or_error, or_wrap}
use nekiro_sdk_go.Prelude.Spaces.{trim_space}
use nekiro_sdk_go.Client.Members.{reject_duplicate_json_members}
use nekiro_sdk_go.Client.Identifier.{safe_identifier, IsIdentifier, safe_identifier_iff}
use nekiro_sdk_go.Client.Request.{
  Client, Context, HttpRequest, InvokeRequest, Response, Http, validate_json_object,
  encode_invocation_request, request_prefix, request_suffix, input_bytes, starts_object,
  context_check, target_of, prepare, send, do_request,
}

guard-true : (b : Bool) (e : GoError) (u : Unit {0}) → guard b e ≡ ok u → b ≡ true
guard-true true e u h = refl
guard-true false e u h = cc

-- The input is a JSON object in which no object repeats a member.
abbrev pub IsObjectInput : Option Bytes → Type 0
IsObjectInput none = ⊥
IsObjectInput (some content) =
    (reject_duplicate_json_members content ≡ ok tt) × (starts_object (trim_space content) ≡ true)

or_error-ok : (r : Result (Unit {0})) (e : GoError) (u : Unit {0}) → or_error r e ≡ ok u → r ≡ ok tt
or_error-ok (ok a) e u h = refl
or_error-ok (err d) e u h = cc

validate_json_object-IsObjectInput :
    (input : Option Bytes) (u : Unit {0}) → validate_json_object input ≡ ok u → IsObjectInput input
unfolding validate_json_object
validate_json_object-IsObjectInput none u h = cc
validate_json_object-IsObjectInput (some content) u h =
    let (v, e1, h1) = >>=-ok (or_error (reject_duplicate_json_members content) _) _ u h in
    (
      or_error-ok (reject_duplicate_json_members content) _ v e1,
      guard-true (starts_object (trim_space content)) _ u h1,
    )

abbrev encoded : InvokeRequest → Bool → Bytes
encoded r stream = request_prefix r ++ input_bytes r.input ++ request_suffix stream

sized :
    (a b c : Bytes) (limit : ℕ)
    → not (ltb limit (length a + length b + length c)) ≡ true
    → length (a ++ b ++ c) ≤ limit
sized a b c limit h = ground (
  arith,
  length-append (a ++ b) c,
  length-append a b,
  length-append a (b ++ c),
  length-append b c,
)

encode-parts :
    (r : InvokeRequest) (stream : Bool) (limit : ℕ) (payload : Bytes)
    → encode_invocation_request r stream limit ≡ ok payload
    → (payload ≡ encoded r stream) × (length payload ≤ limit) × IsObjectInput r.input
unfolding encode_invocation_request
encode-parts r stream limit payload h0 =
    let content = input_bytes r.input in
    let total = length (request_prefix r) + length content + length (request_suffix stream) in
    let (u, e1, h1) = >>=-ok (guard (not (ltb limit total)) _) _ _ h0 in
    let (v, e2, h2) = >>=-ok (validate_json_object r.input) _ _ h1 in
    let fits = guard-true (not (ltb limit total)) _ u e1 in
    let same : encoded r stream ≡ payload = cc in
    let size : length (encoded r stream) ≤ limit =
      sized (request_prefix r) content (request_suffix stream) limit fits in
    (
      sym same,
      subst (λ x. length x ≤ limit) same size,
      validate_json_object-IsObjectInput r.input v e2,
    )

-- A request as the Gateway expects it.
pub record IsWellFormed (client : Client) (request : InvokeRequest) (stream : Bool) (accept : Bytes)
    (r : HttpRequest) : Type 0 where
  pub agent : IsIdentifier request.agent_id
  pub capability : IsIdentifier request.capability
  pub input : IsObjectInput request.input
  pub payload :
      r.payload ≡ request_prefix request ++ input_bytes request.input ++ request_suffix stream
  pub size : length r.payload ≤ client.request_limit
  pub target : r.target ≡ target_of client
  pub authorization : r.authorization ≡ codes "Bearer " ++ client.application_credential
  pub accepts : r.accept ≡ accept

module _ (http : Http) (client : Client) (ctx : Context) (request : InvokeRequest) (stream : Bool)
    (accept : Bytes) where
  prepare-IsWellFormed :
      (r : HttpRequest)
      → prepare http client ctx request stream accept ≡ ok r
      → IsWellFormed client request stream accept r
  unfolding prepare
  prepare-IsWellFormed r h0 =
      let (_, e1, h1) = >>=-ok (context_check ctx) _ _ h0 in
      let (u, e2, h2) = >>=-ok (guard (safe_identifier request.agent_id) _) _ _ h1 in
      let (v, e3, h3) = >>=-ok (guard (safe_identifier request.capability) _) _ _ h2 in
      let (payload, e4, h4) =
        >>=-ok (encode_invocation_request request stream client.request_limit) _ _ h3 in
      let (_, e5, h5) = >>=-ok (or_wrap (check (http.new_request (target_of client))) _) _ _ h4 in
      let (body, size, input) = encode-parts request stream client.request_limit payload e4 in
      let built : HttpRequest = record {
        target = target_of client;
        authorization = codes "Bearer " ++ client.application_credential;
        content_type = codes "application/json";
        accept = accept;
        payload = payload;
      } in
      let same : built ≡ r = cc in
      subst (IsWellFormed client request stream accept) same (record {
        agent =
            (safe_identifier_iff request.agent_id).0
              (guard-true (safe_identifier request.agent_id) _ u e2);
        capability =
            (safe_identifier_iff request.capability).0
              (guard-true (safe_identifier request.capability) _ v e3);
        input = input;
        payload = body;
        size = size;
        target = refl;
        authorization = refl;
        accepts = refl;
      })

  -- What a call sends: nothing, and then it fails; or one request, whose outcome it returns.
  pub data IsSent (p : List HttpRequest × Result (Option Response)) : Type 0 where
    sent_none : p.0 ≡ [] → (e : GoError) → p.1 ≡ err e → IsSent p
    sent_one :
        (r : HttpRequest)
        → p.0 ≡ r ∷ []
        → IsWellFormed client request stream accept r
        → p.1 ≡ or_wrap (http.transport r) "clientsdk: Gateway invocation failed"
        → IsSent p

  send-IsSent :
      (m : Result HttpRequest)
      → ((r : HttpRequest) → m ≡ ok r → IsWellFormed client request stream accept r)
      → IsSent (send http m)
  send-IsSent (err e) k = sent_none refl e refl
  send-IsSent (ok r) k = sent_one r refl (k r refl) refl

  -- A call sends at most one request, and none if a check fails. The request goes to the configured
  -- Workspace with the configured credential; the Agent and the capability are identifiers; its
  -- body carries them and the input, a JSON object without repeated members, and fits the limit.
  pub do_request-IsSent : IsSent (do_request http client ctx request stream accept)
  unfolding do_request
  do_request-IsSent =
      send-IsSent (prepare http client ctx request stream accept) prepare-IsWellFormed
