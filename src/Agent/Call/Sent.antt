-- ===== src/Agent/Call/Sent.antt =====
-- What `do` of agent/client.go sends.
use nekiro_sdk_go.Prelude.{Bytes, Bool, String, List, [], ◌∷◌, ◌≡◌, refl}
use nekiro_sdk_go.Errors.{GoError, Result, ok, err, >>=-ok, check, or_wrap}
use nekiro_sdk_go.Client.Request.{HttpRequest, Response}
use nekiro_sdk_go.Agent.Context.{PlatformContext, NestedRequest, validate_context, validate_request}
use nekiro_sdk_go.Agent.Context.Laws.{
  IsTrusted, validate_context_iff, IsTarget, validate_request_iff,
}
use nekiro_sdk_go.Agent.Call.{
  Client, CallContract, Doer, target_of, body_of, request_of, prepare, send, do_request,
}

pub or_wrap-ok {ℓ} :
    {A : Type ℓ} (m : Result A) (s : String) (a : A) → or_wrap m s ≡ ok a → m ≡ ok a
or_wrap-ok (ok b) s a h = h
or_wrap-ok (err e) s a h = cc

module _ (contract : CallContract) (doer : Doer) (client : Client) (pc : PlatformContext)
    (nr : NestedRequest) (stream : Bool) where
  -- A request as the Router expects it, on behalf of the context's Invocation.
  pub record IsNested (r : HttpRequest) : Type 0 where
    pub payload : Bytes
    pub trusted : IsTrusted contract.failure_contract.parse_trace pc
    pub target : IsTarget nr
    pub encoded : contract.encode_request (body_of pc nr stream) ≡ ok payload
    pub built : r ≡ request_of client stream payload

  prepare-IsNested :
      (r : HttpRequest) → prepare contract doer client pc nr stream ≡ ok r → IsNested r
  unfolding prepare
  prepare-IsNested r h0 =
      let parse = contract.failure_contract.parse_trace in
      let (u, e1, h1) = >>=-ok (validate_context parse pc) _ _ h0 in
      let (v, e2, h2) = >>=-ok (validate_request nr) _ _ h1 in
      let (payload, e3, h3) =
        >>=-ok (or_wrap (contract.encode_request (body_of pc nr stream)) _) _ _ h2 in
      let (w, e4, h4) = >>=-ok (or_wrap (check (doer.new_request (target_of client))) _) _ _ h3 in
      record {
        payload = payload;
        trusted = (validate_context_iff parse pc).0 e1;
        target = (validate_request_iff nr).0 e2;
        encoded = or_wrap-ok (contract.encode_request (body_of pc nr stream)) _ payload e3;
        built = cc;
      }

  -- What a call sends: nothing, and then it fails; or one request, whose outcome it returns.
  pub data IsSent (p : List HttpRequest × Result Response) : Type 0 where
    sent_none : p.0 ≡ [] → (e : GoError) → p.1 ≡ err e → IsSent p
    sent_one :
        (r : HttpRequest)
        → p.0 ≡ r ∷ []
        → IsNested r
        → p.1 ≡ or_wrap (doer.transport r) "agentsdk: nested request failed"
        → IsSent p

  send-IsSent :
      (m : Result HttpRequest)
      → ((r : HttpRequest) → m ≡ ok r → IsNested r)
      → IsSent (send contract doer m)
  send-IsSent (err e) h = sent_none refl e refl
  send-IsSent (ok r) h = sent_one r refl (h r refl) refl

  -- A nested call sends at most one request, and none if a check fails. The request goes to the
  -- Router's invocations with the client's token and carries the encoding of the context's Invocation
  -- as the parent, the Agent, the capability and the input; the five values of the context are
  -- identifiers with a Trace that parses, the Agent and the capability are identifiers, and the input
  -- is a JSON object.
  pub do_request-IsNested : IsSent (do_request contract doer client pc nr stream)
  unfolding do_request
  do_request-IsNested = send-IsSent (prepare contract doer client pc nr stream) prepare-IsNested
