-- ===== src/RouterAuth/Headers/Laws.antt =====
-- The header checks of agent/routerauth/headers.go.
use nekiro_sdk_go.Prelude.{
  Bytes, Bool, true, false, List, [], ◌∷◌, ◌++◌, drop, bytes_eq, bytes_eq_iff, has_prefix,
  has_prefix-drop, has_prefix-append, subst, if◌then◌else◌, ◌||◌, not, ◌≡◌, ◌≢◌, ◌↔◌, inl, inr,
  refl, sym, ap, ◌∙◌, arith, All, Bool-cases,
}
use nekiro_sdk_go.Errors.{GoError}
use nekiro_sdk_go.Http.{Header}
use nekiro_sdk_go.RouterAuth.Headers.{
  ◌>>◌, Verified, verified, refused, panicked, Claims, HeaderNames, header_values, bearer,
  has_separator, no_bearer, malformed, bearer_credential, single_credential,
  credential_from_headers, is_single, expected_headers, match_expected, is_empty, match_parent,
  validate_context_headers,
}

is_single-eq : (v : Bytes) (vs : List Bytes) → is_single v vs ≡ true → vs ≡ v ∷ []
is_single-eq v [] h = cc
is_single-eq v (x ∷ []) h = ap (λ y. y ∷ []) ((bytes_eq_iff x v).0 h)
is_single-eq v (x ∷ y ∷ vs) h = cc

is_single_of : (v : Bytes) (vs : List Bytes) → vs ≡ v ∷ [] → is_single v vs ≡ true
is_single_of v vs h = rw h ((bytes_eq_iff v v).1 refl)

-- The header carries each expected value in one entry.
abbrev pub CarriesAll : Header → List (Bytes × Bytes) → Type 0
CarriesAll header = All (λ e. header_values header e.0 ≡ e.1 ∷ [])

match_expected-CarriesAll :
    (header : Header) (expected : List (Bytes × Bytes))
    → match_expected header expected ≡ verified tt
    → CarriesAll header expected
unfolding match_expected
match_expected-CarriesAll header [] h = tt
match_expected-CarriesAll header ((name, value) ∷ expected) h =
    elim (Bool-cases (is_single value (header_values header name))) [
      | inl e ↦ (is_single-eq value _ e, match_expected-CarriesAll header expected (rw e at h))
      | inr e ↦ absurd (ground arith)
    ]

CarriesAll-match_expected :
    (header : Header) (expected : List (Bytes × Bytes))
    → CarriesAll header expected
    → match_expected header expected ≡ verified tt
unfolding match_expected
CarriesAll-match_expected header [] h = refl
CarriesAll-match_expected header ((name, value) ∷ expected) h =
    rw (is_single_of value _ h.0) (CarriesAll-match_expected header expected h.1)

-- The values of the parent header: the claim's, if it has one, and else none.
abbrev pub parent_values : Claims → Bool → List Bytes
parent_values claims true = claims.parent_invocation_id ∷ []
parent_values claims false = []

passed :
    (b : Bool) (e : GoError)
    → (if b then verified tt else refused 403 e) ≡ verified (tt {0})
    → b ≡ true
passed true e h = refl
passed false e h = cc

is_empty-eq : (vs : List Bytes) → is_empty vs ≡ true → vs ≡ []
is_empty-eq [] h = refl
is_empty-eq (v ∷ vs) h = cc

match_parent_iff :
    (vs : List Bytes) (claims : Claims) (present : Bool)
    → (match_parent vs claims present ≡ verified tt) ↔ (vs ≡ parent_values claims present)
match_parent_iff vs claims true =
    (λ h. is_single-eq _ vs (passed _ _ h), λ h. rw (is_single_of _ vs h))
match_parent_iff vs claims false = (λ h. is_empty-eq vs (passed _ _ h), λ h. rw h)

both :
    (m : Verified (Unit {0})) (k : Verified (Unit {0}))
    → (m >> k) ≡ verified tt
    → (m ≡ verified tt) × (k ≡ verified tt)
both (verified tt) k h = (refl, h)
both (refused status e) k h = cc
both panicked k h = cc

joined : (m k : Verified (Unit {0})) → m ≡ verified tt → k ≡ verified tt → (m >> k) ≡ verified tt
joined m k p q = rw p q

-- The context headers pass exactly when each claim's header has the claim as its one value,
-- counted over every spelling of the name, and the parent's header has the parent claim as its one
-- value, or no value if the credential has no such claim.
pub validate_context_headers_iff :
    (names : HeaderNames) (header : Header) (claims : Claims) (present : Bool)
    → (validate_context_headers names header claims present ≡ verified tt) ↔ (
        CarriesAll header (expected_headers names claims)
        × (header_values header names.parent_invocation ≡ parent_values claims present))
unfolding validate_context_headers
validate_context_headers_iff names header claims present =
    let expected = expected_headers names claims in
    let parent = match_parent_iff (header_values header names.parent_invocation) claims present in
    (
      λ h.
          let (first, second) = both (match_expected header expected) _ h in
          (match_expected-CarriesAll header expected first, parent.0 second),
      λ h. joined _ _ (CarriesAll-match_expected header expected h.0) (parent.1 h.1),
    )

abbrev IsCredential : Bytes → List Bytes → Type 0
IsCredential credential vs =
    (vs ≡ (bearer ++ credential) ∷ []) × (credential ≢ []) × (has_separator credential ≡ false)

bearer_parts :
    (p sep : Bool) (rest credential : Bytes)
    → (if not p
        then refused 401 no_bearer
        else if bytes_eq rest [] || sep
        then refused 401 malformed
        else verified rest)
      ≡ verified credential
    → (p ≡ true) × (bytes_eq rest [] ≡ false) × (sep ≡ false) × (rest ≡ credential)
bearer_parts p sep rest credential h = ground arith

bearer_credential-ok :
    (v credential : Bytes)
    → bearer_credential v ≡ verified credential
    → IsCredential credential (v ∷ [])
bearer_credential-ok v credential h =
    let (p, full, clean, e) =
      bearer_parts (has_prefix bearer v) (has_separator (drop 7 v)) (drop 7 v) credential h in
    (
      ap (λ x. x ∷ []) (has_prefix-drop bearer v p ∙ ap (λ x. bearer ++ x) e),
      λ empty. ground (arith, bytes_eq_iff (drop 7 v) []),
      subst (λ x. has_separator x ≡ false) e clean,
    )

bearer_credential-of :
    (credential : Bytes)
    → credential ≢ []
    → has_separator credential ≡ false
    → bearer_credential (bearer ++ credential) ≡ verified credential
bearer_credential-of credential full clean =
    ground (arith, bytes_eq_iff credential [], has_prefix-append bearer credential)

single_credential_iff :
    (credential : Bytes) (vs : List Bytes)
    → (single_credential vs ≡ verified credential) ↔ IsCredential credential vs
single_credential_iff credential [] = (λ h. absurd (ground arith), λ h. absurd (ground arith))
single_credential_iff credential (v ∷ []) = (
  bearer_credential-ok v credential,
  λ h.
      let e : v ≡ bearer ++ credential = ground arith in
      subst (λ x. bearer_credential x ≡ verified credential) (sym e)
        (bearer_credential-of credential h.1 h.2),
)
single_credential_iff credential (v ∷ w ∷ vs) =
    (λ h. absurd (ground arith), λ h. absurd (ground arith))

-- A credential is taken exactly when the header has one Authorization value, counted over every
-- spelling of the name, and it is `Bearer ` before the credential, which is not empty and holds no
-- white space and no comma.
pub credential_from_headers_iff :
    (names : HeaderNames) (header : Header) (credential : Bytes)
    → (credential_from_headers names header ≡ verified credential) ↔ (
        (header_values header names.authorization ≡ (bearer ++ credential) ∷ [])
        × (credential ≢ [])
        × (has_separator credential ≡ false))
unfolding credential_from_headers
credential_from_headers_iff names header credential =
    single_credential_iff credential (header_values header names.authorization)
