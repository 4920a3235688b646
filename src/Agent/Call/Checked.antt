-- ===== src/Agent/Call/Checked.antt =====
-- What the result of `Invoke` of agent/client.go has passed.
use nekiro_sdk_go.Prelude.{
  Bytes, Bool, true, false, not, ◌||◌, ◌==◌, ==_iff, bytes_eq, bytes_eq_iff, List, [], ◌∷◌, none,
  ◌≡◌, refl, sym, subst, codes, arith, inl, inr, Bool-cases,
}
use nekiro_sdk_go.Errors.{
  Result, ok, >>=-ok, check, or_wrap, guard, guard-ok_iff, or_wrap-check_iff, Result-cases,
}
use nekiro_sdk_go.Client.Body.{read_bounded}
use nekiro_sdk_go.Client.Body.Laws.{IsWhole, read_bounded-IsWhole}
use nekiro_sdk_go.Client.Request.{HttpRequest, Response}
use nekiro_sdk_go.Agent.Context.{PlatformContext, NestedRequest}
use nekiro_sdk_go.Agent.Failure.{media_type, read_body}
use nekiro_sdk_go.Agent.Call.{
  Client, CallContract, Doer, NestedResult, correlated, decode_nested, do_request, answer, answered,
  invoke,
}
use nekiro_sdk_go.Agent.Call.Sent.{
  IsSent, IsNested, sent_none, sent_one, or_wrap-ok, do_request-IsNested,
}

both : (a b : Bool) → not (not a || not b) ≡ true → (a ≡ true) × (b ≡ true)
both true true h = (refl, refl)
both true false h = cc
both false b h = cc

module _ (contract : CallContract) (doer : Doer) where
  -- The checks on the body of a result.
  pub record IsDecoded (pc : PlatformContext) (body : Bytes) (result : NestedResult) : Type 0 where
    pub decoded : contract.decode_result body ≡ ok result
    pub valid : contract.validate_result result ≡ none
    pub root_task : result.root_task_id ≡ pc.root_task_id
    pub trace : result.trace_id ≡ pc.trace_id

  decode_nested-IsDecoded :
      (pc : PlatformContext) (body : Bytes) (result : NestedResult)
      → decode_nested contract doer pc body ≡ ok result
      → IsDecoded pc body result
  unfolding decode_nested
  decode_nested-IsDecoded pc body result h =
      let (d, e1, h1) = >>=-ok (or_wrap (contract.decode_result body) _) _ _ h in
      let (u, e2, h2) = >>=-ok (or_wrap (check (contract.validate_result d)) _) _ _ h1 in
      let (v, e3, h3) = >>=-ok (guard (correlated contract doer pc d) _) _ _ h2 in
      let same : d ≡ result = cc in
      let (root, trace) =
        both (bytes_eq d.root_task_id pc.root_task_id) (bytes_eq d.trace_id pc.trace_id)
          ((guard-ok_iff (correlated contract doer pc d) _).0 e3) in
      subst (IsDecoded pc body) same (record {
        decoded = or_wrap-ok (contract.decode_result body) _ d e1;
        valid = (or_wrap-check_iff (contract.validate_result d) _).0 e2;
        root_task = (bytes_eq_iff _ _).0 root;
        trace = (bytes_eq_iff _ _).0 trace;
      })

  -- Where a result comes from.
  pub record IsChecked (client : Client) (pc : PlatformContext) (outcome : Result Response)
      (result : NestedResult) : Type 0 where
    pub response : Response
    pub body : Bytes
    pub answered : outcome ≡ ok response
    pub status_ok : response.status ≡ 200
    pub media : media_type response.header ≡ codes "application/json"
    pub whole : IsWhole client.response_limit response.body.reader body
    pub is_decoded : IsDecoded pc body result

  answer-IsChecked :
      (client : Client) (pc : PlatformContext) (r : Response) (result : NestedResult)
      → (answer contract doer client pc r).outcome ≡ ok result
      → IsChecked client pc (ok r) result
  unfolding answer read_body
  answer-IsChecked client pc r result h = elim (Bool-cases (r.status == 200)) [
    | inr s ↦ absurd (ground arith)
    | inl s ↦ elim (Bool-cases (bytes_eq (media_type r.header) (codes "application/json"))) [
      | inr m ↦ absurd (ground arith)
      | inl m ↦ elim (Result-cases (read_bounded client.response_limit r.body.reader).0) [
        | inr (x, b) ↦ absurd (ground arith)
        | inl (body, b) ↦ record {
          response = r;
          body = body;
          answered = refl;
          status_ok = (==_iff r.status 200).0 s;
          media = (bytes_eq_iff _ _).0 m;
          whole = (read_bounded-IsWhole client.response_limit r.body.reader body).0 b;
          is_decoded = decode_nested-IsDecoded pc body result (ground arith);
        }
      ]
    ]
  ]

  -- A call that has returned a result: its one request, and where the result comes from.
  pub record IsInvoked (client : Client) (pc : PlatformContext) (nr : NestedRequest)
      (requests : List HttpRequest) (result : NestedResult) : Type 0 where
    pub request : HttpRequest
    pub sent : requests ≡ request ∷ []
    pub nested : IsNested contract doer client pc nr false request
    pub checked : IsChecked client pc (doer.transport request) result

  answered-IsInvoked :
      (client : Client) (pc : PlatformContext) (nr : NestedRequest)
      (p : List HttpRequest × Result Response) (result : NestedResult)
      → IsSent contract doer client pc nr false p
      → (answered contract doer (answer contract doer client pc) p.1).outcome ≡ ok result
      → IsInvoked client pc nr p.0 result
  answered-IsInvoked client pc nr p result (sent_none none_sent e failed) h =
      absurd (ground (arith, failed))
  answered-IsInvoked client pc nr p result (sent_one r one n came) h =
      elim (Result-cases (doer.transport r)) [
        | inr (x, t) ↦ absurd (ground (arith, came, t))
        | inl (response, t) ↦ record {
          request = r;
          sent = one;
          nested = n;
          checked =
              subst (λ m. IsChecked client pc m result) (sym t)
                (answer-IsChecked client pc response result (ground (arith, came, t)));
        }
      ]

  -- A nested call returns a result only for a request that is not to be streamed. It has sent one
  -- request, which the Router's side may trust; the answer to that has status 200 and the one media
  -- type, its body is read whole within the limit and decodes to the result, which the contract's
  -- validator accepts and whose root task and Trace are those of the platform context.
  pub invoke-IsInvoked :
      (client : Client) (pc : PlatformContext) (nr : NestedRequest) (result : NestedResult)
      → (invoke contract doer client pc nr).1.outcome ≡ ok result
      → (nr.stream ≡ false) × IsInvoked client pc nr (invoke contract doer client pc nr).0 result
  unfolding invoke
  invoke-IsInvoked client pc nr result h = elim (Bool-cases nr.stream) [
    | inl s ↦ absurd (ground arith)
    | inr s ↦
        let same : (do_request contract doer client pc nr false).0
            ≡ (invoke contract doer client pc nr).0 =
          ground arith in
        (
          s,
          subst (λ requests. IsInvoked client pc nr requests result) same
              (answered-IsInvoked client pc nr (do_request contract doer client pc nr false) result
                (do_request-IsNested contract doer client pc nr false) (ground arith)),
        )
  ]
