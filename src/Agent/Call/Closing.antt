-- ===== src/Agent/Call/Closing.antt =====
-- Who closes the response body in `Invoke` and `InvokeStream` of agent/client.go.
use nekiro_sdk_go.Prelude.{
  suc, Bytes, Bool, true, false, not, ◌==◌, bytes_eq, List, none, ◌≡◌, refl, ap, ◌∙◌, codes, inl,
  inr, Bool-cases, if◌then◌else◌,
}
use nekiro_sdk_go.Errors.{GoError, Result, ok, err, Result-cases}
use nekiro_sdk_go.Client.Body.{Body}
use nekiro_sdk_go.Client.Request.{HttpRequest, Response}
use nekiro_sdk_go.Client.Invoke.{Exchange}
use nekiro_sdk_go.Client.Invoke.Closing.{AllClosed}
use nekiro_sdk_go.Agent.Context.{PlatformContext, NestedRequest}
use nekiro_sdk_go.Agent.Failure.{media_type, read_body}
use nekiro_sdk_go.Agent.Failure.Rules.{router_error-closes}
use nekiro_sdk_go.Agent.Stream.{NestedStream}
use nekiro_sdk_go.Agent.Stream.Balance.{IsBalanced}
use nekiro_sdk_go.Agent.Call.{
  Client, CallContract, Doer, NestedResult, prepare, send, do_request, nested_read, answer,
  answered, invoke, new_nested_stream, open_stream, invoke_stream,
}

-- The doer returns a body that nothing has closed yet.
abbrev pub ReturnsOpen : Doer → Type 0
ReturnsOpen doer =
    (request : HttpRequest) (r : Response) → doer.transport request ≡ ok r → r.body.closes ≡ 0

-- A failed call has closed the body; a good one returns a balanced stream over the open body, bound to
-- the context's root task and Trace and to the client's limit.
abbrev pub IsOpened :
    {Sequence : Type 0} → Client → PlatformContext → Exchange (NestedStream Sequence) → Type 0
IsOpened client pc x = elim x.outcome [
  | err _ ↦ AllClosed x.body
  | ok s ↦
      IsBalanced s
      × (s.closes ≡ 0)
      × (s.root_task_id ≡ pc.root_task_id)
      × (s.trace_id ≡ pc.trace_id)
      × (s.event_limit ≡ client.event_limit)
]

if-either {ℓ} :
    {A : Type ℓ} (P : A → Type 0) (b : Bool) (x y : A) → P x → P y → P (if b then x else y)
if-either P true x y p q = p
if-either P false x y p q = q

module _ (contract : CallContract) (doer : Doer) where
  nested_read-AllClosed :
      (pc : PlatformContext) (p : Result Bytes × Body)
      → p.1.closes ≡ 0
      → AllClosed (nested_read contract doer pc p).body
  nested_read-AllClosed pc (ok body, b) h = ap suc h
  nested_read-AllClosed pc (err e, b) h = ap suc h

  answer-AllClosed :
      (client : Client) (pc : PlatformContext) (r : Response)
      → r.body.closes ≡ 0
      → AllClosed (answer contract doer client pc r).body
  unfolding answer
  answer-AllClosed client pc r h = elim (Bool-cases (r.status == 200)) [
    | inr s ↦ rw s (
        ap suc (
          router_error-closes contract.failure_contract client.response_limit r.status r.header
            r.body
          ∙ h))
    | inl s ↦ elim (Bool-cases (bytes_eq (media_type r.header) (codes "application/json"))) [
      | inr m ↦ rw (s, m) (ap suc h)
      | inl m ↦
          rw (s, m)
            (nested_read-AllClosed pc (read_body client.response_limit r.body)
              (unfold read_body in h))
    ]
  ]

  open_stream-IsOpened :
      (Sequence : Type 0) (client : Client) (pc : PlatformContext) (r : Response)
      → r.body.closes ≡ 0
      → IsOpened client pc (open_stream contract doer {Sequence = Sequence} client pc r)
  unfolding open_stream new_nested_stream
  open_stream-IsOpened Sequence client pc r h = elim (Bool-cases (r.status == 200)) [
    | inr s ↦ rw s (
        ap suc (
          router_error-closes contract.failure_contract client.response_limit r.status r.header
            r.body
          ∙ h))
    | inl s ↦ elim (Bool-cases (bytes_eq (media_type r.header) (codes "text/event-stream"))) [
      | inr m ↦ rw (s, m) (ap suc h)
      | inl m ↦
          rw (s, m)
            (
              record { counted = h; finished_closed = λ k. cc; closed_closed = λ k. cc },
              h,
              refl,
              refl,
              refl,
            )
    ]
  ]

  answered-rule {ℓ} :
      {A : Type ℓ} (P : Exchange A → Type 0) (next : Response → Exchange A) (m : Result HttpRequest)
      → ReturnsOpen doer
      → ((e : GoError) → P (record { outcome = err e; body = none }))
      → ((r : Response) → r.body.closes ≡ 0 → P (next r))
      → P (answered contract doer next (send contract doer m).1)
  answered-rule P next (err e) o fails goes = fails e
  answered-rule P next (ok q) o fails goes = elim (Result-cases (doer.transport q)) [
    | inl (r, t) ↦ rw t (goes r (o q r t))
    | inr (e, t) ↦ rw t (fails _)
  ]

  -- If the doer returns bodies that nothing has closed yet: a nested `Invoke` closes the body of
  -- whatever response comes exactly once.
  pub nested_invoke-AllClosed :
      (client : Client) (pc : PlatformContext) (nr : NestedRequest)
      → ReturnsOpen doer
      → AllClosed (invoke contract doer client pc nr).1.body
  unfolding invoke do_request
  nested_invoke-AllClosed client pc nr o =
      let closed =
        answered-rule (λ x. AllClosed x.body) (answer contract doer client pc)
          (prepare contract doer client pc nr false) o (λ e. tt) (answer-AllClosed client pc) in
      if-either (λ (x : List HttpRequest × Exchange NestedResult). AllClosed x.1.body) nr.stream _ _
        tt closed

  -- If the doer returns bodies that nothing has closed yet: a nested `InvokeStream` closes the body of
  -- whatever response comes exactly once if it fails; if it returns a stream, the body is open, and
  -- the stream is balanced and bound to the root task and the Trace of the platform context and to
  -- the client's event limit.
  pub nested_invoke_stream-IsOpened :
      (Sequence : Type 0) (client : Client) (pc : PlatformContext) (nr : NestedRequest)
      → ReturnsOpen doer
      → IsOpened client pc (invoke_stream contract doer {Sequence = Sequence} client pc nr).1
  unfolding invoke_stream do_request
  nested_invoke_stream-IsOpened Sequence client pc nr o =
      let opened =
        answered-rule (IsOpened client pc)
          (open_stream contract doer {Sequence = Sequence} client pc)
          (prepare contract doer client pc nr true) o (λ e. tt)
          (open_stream-IsOpened Sequence client pc) in
      if-either
        (λ (x : List HttpRequest × Exchange (NestedStream Sequence)). IsOpened client pc x.1)
        (not nr.stream) _ _ tt opened
