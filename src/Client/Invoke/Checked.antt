-- ===== src/Client/Invoke/Checked.antt =====
-- What the result of `Invoke` of client/client.go has passed.
use nekiro_sdk_go.Prelude.{
  Bytes, Bool, true, false, ◌==◌, ==_iff, bytes_eq, bytes_eq_iff, codes, if◌then◌else◌, Option,
  none, some, ◌≡◌, inl, inr, refl, sym, subst, ap, ◌∙◌, arith, Bool-cases,
}
use nekiro_sdk_go.Errors.{GoError, Result, ok, err, Result-cases}
use nekiro_sdk_go.Json.Decoder.{new_decoder}
use nekiro_sdk_go.Client.Members.{reject_duplicate_json_members, require_eof}
use nekiro_sdk_go.Client.Body.{require_media_type, require_trace_header, read_and_close_bounded}
use nekiro_sdk_go.Client.Body.Laws.{IsWhole, read_and_close_bounded_iff}
use nekiro_sdk_go.Client.Request.{Client, Context, InvokeRequest, Response, Http, do_request}
use nekiro_sdk_go.Client.Invoke.{
  InvokeResult, ResultContract, receive, received, read_result, decode_result_body, invoke,
  trace_differs, result_invalid,
}

decoded_parts :
    (o : Option GoError) (b : Bool) (value result : InvokeResult)
    → elim o as (λ _. Result InvokeResult) [
      | some _ ↦ err result_invalid
      | none ↦ if b then ok value else err trace_differs
    ]
      ≡ ok result
    → (o ≡ none) × (value ≡ result) × (b ≡ true)
decoded_parts none true value result h = (refl, same value result h, refl)
  where
    same : (c d : InvokeResult) → ok c ≡ ok d → c ≡ d
    same c d h = cc
decoded_parts none false value result h = cc
decoded_parts (some e) b value result h = cc

module _ (contract : ResultContract) where
  -- The checks on the body of a result.
  pub record IsDecoded (trace body : Bytes) (result : InvokeResult) : Type 0 where
    pub rest : Bytes
    pub distinct : reject_duplicate_json_members body ≡ ok tt
    pub decoded : contract.decode_result body ≡ ok (result, rest)
    pub alone : require_eof (new_decoder rest) ≡ ok tt
    pub valid : contract.validate_result result ≡ none
    pub trace_agrees : result.trace_id ≡ trace

  decode_result_body-IsDecoded :
      (trace body : Bytes) (result : InvokeResult)
      → decode_result_body contract trace body ≡ ok result
      → IsDecoded trace body result
  unfolding decode_result_body
  decode_result_body-IsDecoded trace body result h =
      elim (Result-cases (reject_duplicate_json_members body)) [
        | inr (x, d) ↦ absurd (ground arith)
        | inl (u, d) ↦ elim (Result-cases (contract.decode_result body)) [
          | inr (x, e) ↦ absurd (ground arith)
          | inl ((value, rest), e) ↦ elim (Result-cases (require_eof (new_decoder rest))) [
            | inr (x, l) ↦ absurd (ground arith)
            | inl (v, l) ↦
                let (valid, same, agrees) =
                  decoded_parts (contract.validate_result value) (bytes_eq value.trace_id trace)
                    value result (rw (d, e, l, decode_result_body) at h) in
                subst (IsDecoded trace body) same (record {
                  rest = rest;
                  distinct = d;
                  decoded = e;
                  alone = l;
                  valid = valid;
                  trace_agrees = (bytes_eq_iff value.trace_id trace).0 agrees;
                })
          ]
        ]
      ]

  -- Where a result comes from.
  pub record IsChecked (client : Client) (outcome : Result (Option Response))
      (result : InvokeResult) : Type 0 where
    pub response : Response
    pub body : Bytes
    pub answered : outcome ≡ ok (some response)
    pub status_ok : response.status ≡ 200
    pub media : require_media_type response.header (codes "application/json") ≡ ok tt
    pub trace :
        require_trace_header contract.failure_contract.parse_trace response.header
        ≡ ok result.trace_id
    pub whole : IsWhole client.response_limit response.body.reader body
    pub is_decoded : IsDecoded result.trace_id body result

  receive-IsChecked :
      (client : Client) (r : Response) (result : InvokeResult)
      → (receive contract client.response_limit
          (codes "application/json")
          (read_result contract client.response_limit)
          r).outcome
        ≡ ok result
      → IsChecked client (ok (some r)) result
  receive-IsChecked client r result h = elim (Bool-cases (r.status == 200)) [
    | inr s ↦ absurd (ground arith)
    | inl s ↦ elim (Result-cases (require_media_type r.header (codes "application/json"))) [
      | inr (e, m) ↦ absurd (ground arith)
      | inl (u, m) ↦
          elim (Result-cases
            (require_trace_header contract.failure_contract.parse_trace r.header)) [
              | inr (e, t) ↦ absurd (ground arith)
              | inl (trace, t) ↦
                  elim (Result-cases (read_and_close_bounded client.response_limit r.body).0) [
                    | inr (e, b) ↦ absurd (ground arith)
                    | inl (body, b) ↦
                        let decoded : decode_result_body contract trace body ≡ ok result =
                          ground arith in
                        let d = decode_result_body-IsDecoded trace body result decoded in
                        record {
                          response = r;
                          body = body;
                          answered = refl;
                          status_ok = (==_iff r.status 200).0 s;
                          media = m;
                          trace = t ∙ ap ok (sym d.trace_agrees);
                          whole =
                              ((read_and_close_bounded_iff client.response_limit r.body body).0.0
                                b).0;
                          is_decoded = subst (λ x. IsDecoded x body result) (sym d.trace_agrees) d;
                        }
                  ]
            ]
    ]
  ]

  received-IsChecked :
      (client : Client) (m : Result (Option Response)) (result : InvokeResult)
      → (received contract client.response_limit
          (codes "application/json")
          (read_result contract client.response_limit)
          m).outcome
        ≡ ok result
      → IsChecked client m result
  received-IsChecked client (err e) result h = cc
  received-IsChecked client (ok none) result h = cc
  received-IsChecked client (ok (some r)) result h = receive-IsChecked client r result h

  -- `Invoke` returns a result only from a response of status 200, with the one media type and one
  -- valid Trace header, whose body is read whole within the limit, repeats no member, holds exactly
  -- one result, which the contract's validator accepts and whose Trace is the header's.
  pub invoke-IsChecked :
      (http : Http) (client : Client) (ctx : Context) (request : InvokeRequest)
      (result : InvokeResult)
      → (invoke contract http client ctx request).outcome ≡ ok result
      → IsChecked client
          (do_request http client ctx request false (codes "application/json")).1
          result
  unfolding invoke
  invoke-IsChecked http client ctx request result h =
      received-IsChecked client
        (do_request http client ctx request false (codes "application/json")).1 result h
