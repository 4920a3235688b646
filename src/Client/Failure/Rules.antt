-- ===== src/Client/Failure/Rules.antt =====
-- What a `PlatformError` of client/errors.go stands for.
use nekiro_sdk_go.Prelude.{
  ℕ, suc, Bytes, Bool, true, false, not, bytes_eq, bytes_eq_iff, codes, if◌then◌else◌, Option, none,
  some, ◌≡◌, ◌≢◌, inl, inr, refl, sym, ap, ◌∙◌, subst, arith,
}
use nekiro_sdk_go.Errors.{GoError, platform, PlatformError, ok, join_with, Result-cases}
use nekiro_sdk_go.Http.{Header}
use nekiro_sdk_go.Client.Members.{reject_duplicate_json_members}
use nekiro_sdk_go.Client.Body.{
  Body, require_media_type, require_trace_header, read_and_close_bounded, close_with_error,
}
use nekiro_sdk_go.Client.Body.Laws.{IsWhole, read_and_close_bounded_iff}
use nekiro_sdk_go.Client.Codes.{valid_platform_error_status}
use nekiro_sdk_go.Client.Failure.{
  FailureContract, correlated, error_invalid, is_object, has_member, wire_error, settled, same_bool,
  decode_error_body, decode_platform_error,
}

platform_injective : (d e : PlatformError) → platform d ≡ platform e → d ≡ e
platform_injective d e h = cc

same_bool-eq : (a b : Bool) → same_bool a b ≡ true → a ≡ b
same_bool-eq true true h = refl
same_bool-eq true false h = cc
same_bool-eq false true h = cc
same_bool-eq false false h = refl

joined_platform :
    (ce : Option GoError) (e : PlatformError) → join_with error_invalid ce ≢ platform e
joined_platform none e h = cc
joined_platform (some x) e h = cc

body_parts :
    (a b : Bool) (x : GoError) (e : PlatformError)
    → (if not a then error_invalid else if not b then error_invalid else x) ≡ platform e
    → (a ≡ true) × (b ≡ true) × (x ≡ platform e)
body_parts true true x e h = (refl, refl, h)
body_parts true false x e h = cc
body_parts false b x e h = cc

settled_parts :
    (a b : Bool) (value e : PlatformError)
    → (if not a then error_invalid else if b then platform value else error_invalid) ≡ platform e
    → (a ≡ true) × (b ≡ true) × (value ≡ e)
settled_parts true true value e h = (refl, refl, platform_injective value e h)
settled_parts true false value e h = cc
settled_parts false b value e h = cc

module _ (contract : FailureContract) where
  -- Where a reported platform error comes from.
  pub record IsReported (limit status : ℕ) (header : Header) (b : Body) (e : PlatformError)
      : Type 0 where
    pub body : Bytes
    pub media : require_media_type header (codes "application/json") ≡ ok tt
    pub trace : require_trace_header contract.parse_trace header ≡ ok e.trace_id
    pub whole : IsWhole limit b.reader body
    pub distinct : reject_duplicate_json_members body ≡ ok tt
    pub object : is_object body ≡ true
    pub both_ids : has_member (codes "invocationId") body ≡ has_member (codes "rootTaskId") body
    pub wire : wire_error contract (has_member (codes "invocationId") body) status body ≡ some e
    pub allowed : valid_platform_error_status contract.spelling status e.code (correlated e) ≡ true

  abbrev IsBodyReported : ℕ → Bytes → Bytes → PlatformError → Type 0
  IsBodyReported status trace body e =
      (trace ≡ e.trace_id)
      × (reject_duplicate_json_members body ≡ ok tt)
      × (is_object body ≡ true)
      × (has_member (codes "invocationId") body ≡ has_member (codes "rootTaskId") body)
      × (wire_error contract (has_member (codes "invocationId") body) status body ≡ some e)
      × (valid_platform_error_status contract.spelling status e.code (correlated e) ≡ true)

  settled-platform :
      (status : ℕ) (trace : Bytes) (o : Option PlatformError) (e : PlatformError)
      → settled contract status trace o ≡ platform e
      → (o ≡ some e)
        × (trace ≡ e.trace_id)
        × (valid_platform_error_status contract.spelling status e.code (correlated e) ≡ true)
  settled-platform status trace none e h = cc
  settled-platform status trace (some value) e h =
      let (a, b, same) =
        settled_parts (bytes_eq value.trace_id trace)
          (valid_platform_error_status contract.spelling status value.code (correlated value)) value
          e h in
      (
        ap some same,
        sym ((bytes_eq_iff value.trace_id trace).0 a) ∙ ap (λ x. x.trace_id) same,
        subst
            (λ x. valid_platform_error_status contract.spelling status x.code (correlated x) ≡ true)
            same b,
      )

  decode_error_body-platform :
      (status : ℕ) (trace body : Bytes) (e : PlatformError)
      → decode_error_body contract status trace body ≡ platform e
      → IsBodyReported status trace body e
  unfolding decode_error_body
  decode_error_body-platform status trace body e h =
      elim (Result-cases (reject_duplicate_json_members body)) [
        | inr (x, n) ↦ absurd (ground arith)
        | inl (u, d) ↦
            let with_invocation = has_member (codes "invocationId") body in
            let with_root_task = has_member (codes "rootTaskId") body in
            let (object, same, rest) =
              body_parts (is_object body) (same_bool with_invocation with_root_task)
                (settled contract status trace (wire_error contract with_invocation status body)) e
                (rw (d, decode_error_body) at h) in
            let (wire, trace_eq, allowed) = settled-platform status trace _ e rest in
            (trace_eq, d, object, same_bool-eq with_invocation with_root_task same, wire, allowed)
      ]

  -- A platform error is only reported for a JSON response with one Trace header, whose body is read
  -- whole within the limit, is an object without a repeated member, has both identifiers or neither,
  -- is the valid wire form of that error with the header's Trace, and whose status allows the code and
  -- the correlation.
  pub decode_platform_error-IsReported :
      (limit status : ℕ) (header : Header) (b : Body) (e : PlatformError)
      → (decode_platform_error contract limit status header b).0 ≡ platform e
      → IsReported limit status header b e
  unfolding decode_platform_error close_with_error
  decode_platform_error-IsReported limit status header b e h =
      elim (Result-cases (require_media_type header (codes "application/json"))) [
        | inr (x, n) ↦
            absurd (
              joined_platform b.close_error e
                (rw (n, decode_platform_error, close_with_error) at h))
        | inl (u, media) ↦ elim (Result-cases (require_trace_header contract.parse_trace header)) [
          | inr (x, n) ↦ absurd (
              joined_platform b.close_error e
                (rw (media, n, decode_platform_error, close_with_error) at h))
          | inl (trace, t) ↦ elim (Result-cases (read_and_close_bounded limit b).0) [
            | inr (x, n) ↦ absurd (ground arith)
            | inl (body, r) ↦
                let (trace_eq, distinct, object, both, wire, allowed) =
                  decode_error_body-platform status trace body e
                    (rw (media, t, r, decode_platform_error) at h) in
                record {
                  body = body;
                  media = media;
                  trace = t ∙ ap ok trace_eq;
                  whole = ((read_and_close_bounded_iff limit b body).0.0 r).0;
                  distinct = distinct;
                  object = object;
                  both_ids = both;
                  wire = wire;
                  allowed = allowed;
                }
          ]
        ]
      ]

  -- On every path the body of a failed response is closed exactly once.
  pub decode_platform_error-closes :
      (limit status : ℕ) (header : Header) (b : Body)
      → (decode_platform_error contract limit status header b).1.closes ≡ suc b.closes
  unfolding decode_platform_error close_with_error read_and_close_bounded
  decode_platform_error-closes limit status header b = ground arith
