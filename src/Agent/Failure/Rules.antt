-- ===== src/Agent/Failure/Rules.antt =====
-- What a `RouterError` of agent/client.go stands for.
use nekiro_sdk_go.Prelude.{
  ℕ, Bytes, Bool, true, false, not, bytes_eq, bytes_eq_iff, codes, if◌then◌else◌, Option, none,
  some, ◌≡◌, ◌≢◌, inl, inr, refl, sym, ap, ◌∙◌, subst, arith, Option-cases, Bool-cases,
}
use nekiro_sdk_go.Errors.{GoError, platform, PlatformError, ok, Result-cases}
use nekiro_sdk_go.Http.{Header}
use nekiro_sdk_go.Client.Members.{reject_duplicate_json_members}
use nekiro_sdk_go.Client.Body.{Body, trace_header, read_bounded}
use nekiro_sdk_go.Client.Body.Laws.{IsWhole, read_bounded-IsWhole}
use nekiro_sdk_go.Client.Failure.{FailureContract, is_object, has_member, wire_error, same_bool}
use nekiro_sdk_go.Agent.Status.{valid_router_error_status}
use nekiro_sdk_go.Agent.Failure.{
  header_get, media_type, read_body, settled, router_error_body, router_error,
}

same_bool-eq : (a b : Bool) → same_bool a b ≡ true → a ≡ b
same_bool-eq true true h = refl
same_bool-eq true false h = cc
same_bool-eq false true h = cc
same_bool-eq false false h = refl

platform_injective : (d e : PlatformError) → platform d ≡ platform e → d ≡ e
platform_injective d e h = cc

settled_parts :
    (a b : Bool) (x y : GoError) (value e : PlatformError)
    → x ≢ platform e
    → y ≢ platform e
    → (if not a then x else if not b then y else platform value) ≡ platform e
    → (a ≡ true) × (b ≡ true) × (value ≡ e)
settled_parts true true x y value e p q h = (refl, refl, platform_injective value e h)
settled_parts true false x y value e p q h = absurd (q h)
settled_parts false b x y value e p q h = absurd (p h)

body_parts :
    (a b : Bool) (x y z : GoError) (e : PlatformError)
    → x ≢ platform e
    → y ≢ platform e
    → (if not a then x else if not b then y else z) ≡ platform e
    → (a ≡ true) × (b ≡ true) × (z ≡ platform e)
body_parts true true x y z e p q h = (refl, refl, h)
body_parts true false x y z e p q h = absurd (q h)
body_parts false b x y z e p q h = absurd (p h)

module _ (contract : FailureContract) where
  -- Where a reported router error comes from.
  pub record IsReported (limit status : ℕ) (header : Header) (b : Body) (e : PlatformError)
      : Type 0 where
    pub body : Bytes
    pub media : media_type header ≡ codes "application/json"
    pub whole : IsWhole limit b.reader body
    pub object : is_object body ≡ true
    pub both_ids : has_member (codes "invocationId") body ≡ has_member (codes "rootTaskId") body
    pub distinct : reject_duplicate_json_members body ≡ ok tt
    pub trace_parsed : contract.parse_trace e.trace_id ≡ none
    pub trace : header_get header trace_header ≡ e.trace_id
    pub wire : wire_error contract (has_member (codes "invocationId") body) status body ≡ some e
    pub allowed :
        valid_router_error_status contract.spelling status e.code
          (has_member (codes "invocationId") body)
        ≡ true

  settled-platform :
      (status : ℕ) (with_invocation : Bool) (trace : Bytes) (o : Option PlatformError)
      (e : PlatformError)
      → settled contract status with_invocation trace o ≡ platform e
      → (o ≡ some e)
        × (trace ≡ e.trace_id)
        × (valid_router_error_status contract.spelling status e.code with_invocation ≡ true)
  settled-platform status true trace none e h = cc
  settled-platform status false trace none e h = cc
  settled-platform status w trace (some value) e h =
      let (a, b, same) =
        settled_parts (bytes_eq value.trace_id trace)
          (valid_router_error_status contract.spelling status value.code w) _ _ value e (λ k. cc)
          (λ k. cc) h in
      (
        ap some same,
        sym ((bytes_eq_iff value.trace_id trace).0 a) ∙ ap (λ x. x.trace_id) same,
        subst (λ x. valid_router_error_status contract.spelling status x.code w ≡ true) same b,
      )

  abbrev IsBodyReported : ℕ → Header → Bytes → PlatformError → Type 0
  IsBodyReported status header body e =
      (is_object body ≡ true)
      × (has_member (codes "invocationId") body ≡ has_member (codes "rootTaskId") body)
      × (reject_duplicate_json_members body ≡ ok tt)
      × (contract.parse_trace e.trace_id ≡ none)
      × (header_get header trace_header ≡ e.trace_id)
      × (wire_error contract (has_member (codes "invocationId") body) status body ≡ some e)
      × (valid_router_error_status contract.spelling status e.code
            (has_member (codes "invocationId") body)
          ≡ true)

  router_error_body-platform :
      (status : ℕ) (header : Header) (body : Bytes) (e : PlatformError)
      → router_error_body contract status header body ≡ platform e
      → IsBodyReported status header body e
  unfolding router_error_body
  router_error_body-platform status header body e h =
      let with_invocation = has_member (codes "invocationId") body in
      let with_root = has_member (codes "rootTaskId") body in
      let (object, same, rest) =
        body_parts (is_object body) (same_bool with_invocation with_root) _ _ _ e (λ k. cc)
          (λ k. cc) h in
      elim (Result-cases (reject_duplicate_json_members body)) [
        | inr (x, n) ↦ absurd (ground (arith, n, rest))
        | inl (u, d) ↦ elim (Option-cases (contract.parse_trace (header_get header trace_header))) [
          | inr (x, n) ↦ absurd (ground (arith, d, n, rest))
          | inl n ↦
              let (wire, trace, allowed) =
                settled-platform status with_invocation (header_get header trace_header)
                  (wire_error contract with_invocation status body) e (rw (d, n) at rest) in
              (
                object,
                same_bool-eq with_invocation with_root same,
                d,
                subst (λ x. contract.parse_trace x ≡ none) trace n,
                trace,
                wire,
                allowed,
              )
        ]
      ]

  -- A router error is only reported for a JSON response, whose body is read whole within the limit, is
  -- an object without a repeated member, has both identifiers or neither, is the valid wire form of
  -- that error with the Trace of the header, which the contracts module parses, and whose status
  -- allows the code and the correlation.
  pub router_error-IsReported :
      (limit status : ℕ) (header : Header) (b : Body) (e : PlatformError)
      → (router_error contract limit status header b).0 ≡ platform e
      → IsReported limit status header b e
  unfolding router_error read_body
  router_error-IsReported limit status header b e h =
      elim (Bool-cases (bytes_eq (media_type header) (codes "application/json"))) [
        | inr n ↦ absurd (ground arith)
        | inl m ↦ elim (Result-cases (read_bounded limit b.reader).0) [
          | inr (x, n) ↦ absurd (ground arith)
          | inl (body, r) ↦
              let (object, both, distinct, parsed, trace, wire, allowed) =
                router_error_body-platform status header body e (ground arith) in
              record {
                body = body;
                media = (bytes_eq_iff _ _).0 m;
                whole = (read_bounded-IsWhole limit b.reader body).0 r;
                object = object;
                both_ids = both;
                distinct = distinct;
                trace_parsed = parsed;
                trace = trace;
                wire = wire;
                allowed = allowed;
              }
        ]
      ]

  -- The body is left to the caller to close.
  pub router_error-closes :
      (limit status : ℕ) (header : Header) (b : Body)
      → (router_error contract limit status header b).1.closes ≡ b.closes
  unfolding router_error read_body
  router_error-closes limit status header b = ground arith
