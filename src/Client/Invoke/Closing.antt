-- ===== src/Client/Invoke/Closing.antt =====
-- Who closes the response body in `Invoke` and `InvokeStream`.
use nekiro_sdk_go.Prelude.{
  ℕ, suc, Bytes, true, false, [], ◌==◌, codes, Option, none, some, ◌≡◌, inl, inr, refl, sym, subst,
  ap, ◌∙◌, arith, Bool-cases,
}
use nekiro_sdk_go.Errors.{GoError, Result, ok, err, Result-cases}
use nekiro_sdk_go.Client.Body.{
  Body, require_media_type, require_trace_header, read_and_close_bounded, close_with_error,
}
use nekiro_sdk_go.Client.Body.Laws.{read_and_close_bounded_iff}
use nekiro_sdk_go.Client.Failure.Rules.{decode_platform_error-closes}
use nekiro_sdk_go.Client.Request.{
  Client, Context, HttpRequest, InvokeRequest, Response, Http, prepare, send, do_request,
}
use nekiro_sdk_go.Client.Invoke.{
  ResultContract, Exchange, failed, receive, received, read_result, result_read, invoke,
  invoke_stream,
}

-- The HTTP client returns a body that nothing has closed yet.
abbrev pub ReturnsOpen : Http → Type 0
ReturnsOpen http =
    (request : HttpRequest) (r : Response)
    → http.transport request ≡ ok (some r)
    → r.body.closes ≡ 0

abbrev pub AllClosed : Option Body → Type 0
AllClosed none = Unit
AllClosed (some b) = b.closes ≡ 1

-- A failed call has closed the body, a good one leaves it open for the stream.
abbrev pub IsSettled {ℓ} : {A : Type ℓ} → Exchange A → Type 0
IsSettled x = elim x.outcome [
  | ok _ ↦ (b : Body) × (x.body ≡ some b) × (b.closes ≡ 0)
  | err _ ↦ AllClosed x.body
]

module _ {ℓ} {A : Type ℓ} (contract : ResultContract) (P : Exchange A → Type 0) where
  -- What holds of every way through the shared checks.
  receive-rule :
      (limit : ℕ) (media : Bytes) (continue : Bytes → Body → Exchange A) (r : Response)
      → r.body.closes ≡ 0
      → ((e : GoError) (b : Body) → b.closes ≡ 1 → P (failed (e, b)))
      → ((trace : Bytes) → P (continue trace r.body))
      → P (receive contract limit media continue r)
  unfolding close_with_error
  receive-rule limit media continue r fresh fails goes = elim (Bool-cases (r.status == 200)) [
    | inr s ↦ rw s (
        fails _ _ (
          decode_platform_error-closes contract.failure_contract limit r.status r.header r.body
          ∙ ap suc fresh))
    | inl s ↦ elim (Result-cases (require_media_type r.header media)) [
      | inr (e, m) ↦ rw (s, m) (fails _ _ (ap suc fresh))
      | inl (u, m) ↦
          elim (Result-cases
            (require_trace_header contract.failure_contract.parse_trace r.header)) [
              | inr (e, t) ↦ rw (s, m, t) (fails _ _ (ap suc fresh))
              | inl (trace, t) ↦ rw (s, m, t) (goes trace)
            ]
    ]
  ]

  received-rule :
      (limit : ℕ) (media : Bytes) (continue : Bytes → Body → Exchange A)
      (m : Result (Option Response))
      → ((r : Response) → m ≡ ok (some r) → r.body.closes ≡ 0)
      → ((e : GoError) → P (record { outcome = err e; body = none }))
      → ((e : GoError) (b : Body) → b.closes ≡ 1 → P (failed (e, b)))
      → ((trace : Bytes) (b : Body) → b.closes ≡ 0 → P (continue trace b))
      → P (received contract limit media continue m)
  received-rule limit media continue (err e) fresh nothing fails goes = nothing e
  received-rule limit media continue (ok none) fresh nothing fails goes = nothing _
  received-rule limit media continue (ok (some r)) fresh nothing fails goes =
      receive-rule limit media continue r (fresh r refl) fails
        (λ trace. goes trace r.body (fresh r refl))

send-fresh :
    (http : Http) (m : Result HttpRequest)
    → ReturnsOpen http
    → (r : Response) → (send http m).1 ≡ ok (some r)
    → r.body.closes ≡ 0
send-fresh http (err e) o r h = cc
send-fresh http (ok q) o r h = elim (Result-cases (http.transport q)) [
  | inl (a, t) ↦ o q r (ground arith)
  | inr (e, t) ↦ absurd (ground arith)
]

result_read-body :
    (contract : ResultContract) (trace : Bytes) (p : Result Bytes × Body)
    → (result_read contract trace p).body ≡ some p.1
result_read-body contract trace (ok content, b) = refl
result_read-body contract trace (err e, b) = refl

read_result-closes :
    (contract : ResultContract) (limit : ℕ) (trace : Bytes) (b : Body)
    → b.closes ≡ 0
    → AllClosed (read_result contract limit trace b).body
read_result-closes contract limit trace b h =
    subst AllClosed (sym (result_read-body contract trace (read_and_close_bounded limit b)))
      ((read_and_close_bounded_iff limit b []).1 ∙ ap suc h)

module _ (contract : ResultContract) (http : Http) (client : Client) (ctx : Context)
    (request : InvokeRequest) where
  -- If the HTTP client returns bodies that nothing has closed yet: `Invoke` closes the body of
  -- whatever response comes exactly once.
  pub invoke-AllClosed : ReturnsOpen http → AllClosed (invoke contract http client ctx request).body
  unfolding invoke do_request
  invoke-AllClosed o =
      received-rule contract (λ x. AllClosed x.body) _ _ _
        (do_request http client ctx request false (codes "application/json")).1
        (send-fresh http (prepare http client ctx request false (codes "application/json")) o)
        (λ e. tt) (λ e b h. h)
        (λ trace b h. read_result-closes contract client.response_limit trace b h)

  -- If the HTTP client returns bodies that nothing has closed yet: `InvokeStream` closes the body
  -- of whatever response comes exactly once if it fails, and leaves it open if it returns a stream.
  pub invoke_stream-IsSettled :
      (Sequence : Type 0)
      → ReturnsOpen http
      → IsSettled (invoke_stream contract {Sequence = Sequence} http client ctx request)
  unfolding invoke_stream do_request
  invoke_stream-IsSettled Sequence o =
      received-rule contract IsSettled _ _ _
        (do_request http client ctx request true (codes "text/event-stream")).1
        (send-fresh http (prepare http client ctx request true (codes "text/event-stream")) o)
        (λ e. tt) (λ e b h. h) (λ trace b h. (b, refl, h))
