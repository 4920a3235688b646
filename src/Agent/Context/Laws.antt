-- ===== src/Agent/Context/Laws.antt =====
-- What the validation of agent/client.go accepts.
use nekiro_sdk_go.Prelude.{
  Bytes, true, false, List, [], ◌∷◌, Option, none, some, not, bytes_eq, ◌≡◌, ◌↔◌, refl, sym, ◌∙◌,
  arith,
}
use nekiro_sdk_go.Errors.{GoError, ok, guard, >>-ok_iff, guard-ok_iff, or_wrap-check_iff}
use nekiro_sdk_go.Agent.Identifier.{safe_identifier, safe_identifier-same}
use nekiro_sdk_go.Client.Identifier.{IsIdentifier, safe_identifier_iff}
use nekiro_sdk_go.Client.Failure.{is_object}
use nekiro_sdk_go.Agent.Context.{
  PlatformContext, context_fields, check_fields, validate_context, NestedRequest, check_input,
  validate_request,
}

IsIdentifier-safe : (value : Bytes) → (safe_identifier value ≡ true) ↔ IsIdentifier value
IsIdentifier-safe value = (
  λ h. (safe_identifier_iff value).0 (sym (safe_identifier-same value) ∙ h),
  λ h. safe_identifier-same value ∙ (safe_identifier_iff value).1 h,
)

IsIdentifier-not_empty : (value : Bytes) → IsIdentifier value → bytes_eq value [] ≡ false
unfolding bytes_eq
IsIdentifier-not_empty [] h = absurd h
IsIdentifier-not_empty (c ∷ cs) h = refl

-- Every value is an identifier.
abbrev AllIdentifiers : List (Bytes × Bytes) → Type 0
AllIdentifiers [] = Unit
AllIdentifiers ((name, value) ∷ rest) = IsIdentifier value × AllIdentifiers rest

check_fields_iff :
    (fields : List (Bytes × Bytes)) → (check_fields fields ≡ ok tt) ↔ AllIdentifiers fields
unfolding check_fields
check_fields_iff [] = (λ h. tt, λ h. refl)
check_fields_iff ((name, value) ∷ rest) =
    let (to, from) = check_fields_iff rest in
    let (safe, unsafe) = IsIdentifier-safe value in
    (
      λ h. (safe (ground arith), to (ground arith)),
      λ h. ground (arith, from h.1, unsafe h.0, IsIdentifier-not_empty value h.0),
    )

-- What a call needs of the context that its Agent was given.
pub record IsTrusted (parse_trace : Bytes → Option GoError) (pc : PlatformContext) : Type 0 where
  pub invocation : IsIdentifier pc.invocation_id
  pub root_task : IsIdentifier pc.root_task_id
  pub trace : IsIdentifier pc.trace_id
  pub workspace : IsIdentifier pc.workspace_id
  pub agent : IsIdentifier pc.agent_id
  pub trace_parsed : parse_trace pc.trace_id ≡ none

-- A platform context is valid exactly when its five values are identifiers of the platform and the
-- contracts module parses the Trace.
pub validate_context_iff :
    (parse_trace : Bytes → Option GoError) (pc : PlatformContext)
    → (validate_context parse_trace pc ≡ ok tt) ↔ IsTrusted parse_trace pc
unfolding validate_context
validate_context_iff parse_trace pc =
    let (split, join) = >>-ok_iff (check_fields (context_fields pc)) _ in
    let (to, from) = check_fields_iff (context_fields pc) in
    let (parsed, passes) = or_wrap-check_iff (parse_trace pc.trace_id) _ in
    (
      λ h.
          let (fields, trace) = split h in
          let (i, r, t, w, a) = identifiers pc (to fields) in
          record {
            invocation = i;
            root_task = r;
            trace = t;
            workspace = w;
            agent = a;
            trace_parsed = parsed trace;
          },
      λ t. join (
        from (t.invocation, (t.root_task, (t.trace, (t.workspace, (t.agent, tt))))),
        passes t.trace_parsed,
      ),
    )
  where
    identifiers :
        (pc : PlatformContext)
        → AllIdentifiers (context_fields pc)
        → IsIdentifier pc.invocation_id
          × IsIdentifier pc.root_task_id
          × IsIdentifier pc.trace_id
          × IsIdentifier pc.workspace_id
          × IsIdentifier pc.agent_id
    identifiers pc (i, (r, (t, (w, (a, u))))) = (i, r, t, w, a)

-- The input is a JSON object.
abbrev pub IsObjectInput : Option Bytes → Type 0
IsObjectInput none = ⊥
IsObjectInput (some content) = is_object content ≡ true

check_input_iff : (input : Option Bytes) → (check_input input ≡ ok tt) ↔ IsObjectInput input
check_input_iff none = (λ h. cc, λ h. absurd h)
check_input_iff (some content) = guard-ok_iff (is_object content) _

pub record IsTarget (nr : NestedRequest) : Type 0 where
  pub target : IsIdentifier nr.target_agent_id
  pub capability : IsIdentifier nr.capability
  pub input : IsObjectInput nr.input

-- A nested request is valid exactly when the Agent and the capability are identifiers of the platform
-- and the input is a JSON object.
pub validate_request_iff : (nr : NestedRequest) → (validate_request nr ≡ ok tt) ↔ IsTarget nr
unfolding validate_request
validate_request_iff nr = (
  λ h.
      let (a, h1) = (>>-ok_iff _ _).0 h in
      let (b, h2) = (>>-ok_iff _ _).0 h1 in
      let (c, h3) = (>>-ok_iff _ _).0 h2 in
      let (d, e) = (>>-ok_iff _ _).0 h3 in
      record {
        target = (IsIdentifier-safe nr.target_agent_id).0 ((guard-ok_iff _ _).0 b);
        capability = (IsIdentifier-safe nr.capability).0 ((guard-ok_iff _ _).0 d);
        input = (check_input_iff nr.input).0 e;
      },
  λ t. (>>-ok_iff _ _).1 (
    required nr.target_agent_id _ t.target,
    (>>-ok_iff _ _).1 (
      safe nr.target_agent_id _ t.target,
      (>>-ok_iff _ _).1 (
        required nr.capability _ t.capability,
        (>>-ok_iff _ _).1 (safe nr.capability _ t.capability, (check_input_iff nr.input).1 t.input),
      ),
    ),
  ),
)
  where
    required :
        (value : Bytes) (e : GoError)
        → IsIdentifier value
        → guard (not (bytes_eq value [])) e ≡ ok tt
    required value e h = rw (IsIdentifier-not_empty value h)

    safe :
        (value : Bytes) (e : GoError) → IsIdentifier value → guard (safe_identifier value) e ≡ ok tt
    safe value e h = (guard-ok_iff _ _).1 ((IsIdentifier-safe value).1 h)
