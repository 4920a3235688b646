-- ===== src/RouterAuth/Headers/Order.antt =====
-- agent/routerauth/headers.go ranges over the header map, whose order Go leaves open.
use mathlib.Core.List.{Permᴰ}
use mathlib.Core.List.Permᴰ
use nekiro_sdk_go.Prelude.{
  Bytes, Bool, true, false, List, [], ◌∷◌, ◌++◌, Option, none, some, ◌≡◌, refl, sym, ap, ap₂, subst,
  subst₂, ◌∙◌, if◌then◌else◌, bytes_eq,
}
use nekiro_sdk_go.Http.{Header}
use nekiro_sdk_go.RouterAuth.Headers.{
  Verified, Claims, HeaderNames, equal_fold, header_values, no_bearer, unauthenticated,
  bearer_credential, single_credential, credential_from_headers, is_single, expected_headers,
  match_expected, is_empty, match_parent, validate_context_headers, ◌>>◌,
}

-- The one entry of a list.
abbrev only {ℓ} : {A : Type ℓ} → List A → Option A
only [] = none
only (x ∷ []) = some x
only (x ∷ y ∷ xs) = none

abbrev has_none {ℓ} : {A : Type ℓ} → List A → Bool
has_none [] = true
has_none (x ∷ xs) = false

has_none-perm {ℓ} : {A : Type ℓ} {xs ys : List A} → Permᴰ xs ys → has_none xs ≡ has_none ys
has_none-perm Permᴰ.nil = refl
has_none-perm (Permᴰ.cons e p) = refl
has_none-perm (Permᴰ.swap e f) = refl
has_none-perm (Permᴰ.trans p q) = has_none-perm p ∙ has_none-perm q

only-cons {ℓ} :
    {A : Type ℓ} (x : A) (xs : List A) → only (x ∷ xs) ≡ (if has_none xs then some x else none)
only-cons x [] = refl
only-cons x (y ∷ xs) = refl

only-perm {ℓ} : {A : Type ℓ} {xs ys : List A} → Permᴰ xs ys → only xs ≡ only ys
only-perm Permᴰ.nil = refl
only-perm (Permᴰ.cons {a} {b} {l₁} {l₂} e p) =
    only-cons a l₁
    ∙ ap₂ (λ t x. if t then some x else none) (has_none-perm p) e
    ∙ sym (only-cons b l₂)
only-perm (Permᴰ.swap e f) = refl
only-perm (Permᴰ.trans p q) = only-perm p ∙ only-perm q

swap_blocks {ℓ} :
    {A : Type ℓ} (xs ys rest : List A) → Permᴰ (xs ++ (ys ++ rest)) (ys ++ (xs ++ rest))
swap_blocks [] ys rest = Permᴰ.refl _
swap_blocks (x ∷ xs) ys rest =
    Permᴰ.trans (Permᴰ.cons refl (swap_blocks xs ys rest))
      (Permᴰ.symm (Permᴰ.middle x ys (xs ++ rest)))

-- The values of one entry, if it is spelled like the name.
abbrev entry_values : Bytes → Bytes × List Bytes → List Bytes
entry_values name e = if equal_fold e.0 name then e.1 else []

header_values-perm :
    (name : Bytes) {h h' : Header}
    → Permᴰ h h'
    → Permᴰ (header_values h name) (header_values h' name)
unfolding header_values
header_values-perm name Permᴰ.nil = Permᴰ.nil
header_values-perm name (Permᴰ.cons {a} {b} {l₁} {l₂} e p) =
    subst (λ x. Permᴰ (header_values (a ∷ l₁) name) (entry_values name x ++ header_values l₂ name))
      e (Permᴰ.append_left (entry_values name a) (header_values-perm name p))
header_values-perm name (Permᴰ.swap {a} {b} {a'} {b'} {l} e f) =
    subst₂
      (λ x y.
        Permᴰ (header_values (a ∷ b ∷ l) name)
          (entry_values name y ++ (entry_values name x ++ header_values l name)))
      e f (swap_blocks (entry_values name a) (entry_values name b) (header_values l name))
header_values-perm name (Permᴰ.trans p q) =
    Permᴰ.trans (header_values-perm name p) (header_values-perm name q)

-- The checks look only at the one value of a header.
abbrev credential_of : Option Bytes → Verified Bytes
credential_of none = unauthenticated no_bearer
credential_of (some v) = bearer_credential v

single_credential-only : (vs : List Bytes) → single_credential vs ≡ credential_of (only vs)
single_credential-only [] = refl
single_credential-only (v ∷ []) = refl
single_credential-only (v ∷ w ∷ vs) = refl

abbrev is_value : Bytes → Option Bytes → Bool
is_value value none = false
is_value value (some v) = bytes_eq v value

is_single-only : (value : Bytes) (vs : List Bytes) → is_single value vs ≡ is_value value (only vs)
is_single-only value [] = refl
is_single-only value (v ∷ []) = refl
is_single-only value (v ∷ w ∷ vs) = refl

is_empty-has_none : (vs : List Bytes) → is_empty vs ≡ has_none vs
is_empty-has_none [] = refl
is_empty-has_none (v ∷ vs) = refl

module _ {h h' : Header} (p : Permᴰ h h') where
  is_single-perm :
      (name value : Bytes)
      → is_single value (header_values h name) ≡ is_single value (header_values h' name)
  is_single-perm name value =
      is_single-only value _
      ∙ ap (is_value value) (only-perm (header_values-perm name p))
      ∙ sym (is_single-only value _)

  match_expected-perm :
      (expected : List (Bytes × Bytes)) → match_expected h expected ≡ match_expected h' expected
  unfolding match_expected
  match_expected-perm [] = refl
  match_expected-perm ((name, value) ∷ expected) =
      rw (is_single-perm name value, match_expected-perm expected)

  match_parent-perm :
      (name : Bytes) (claims : Claims) (present : Bool)
      → match_parent (header_values h name) claims present
        ≡ match_parent (header_values h' name) claims present
  match_parent-perm name claims true = rw (is_single-perm name claims.parent_invocation_id)
  match_parent-perm name claims false =
      rw (is_empty-has_none, has_none-perm (header_values-perm name p), ← is_empty-has_none)

  headers_agree :
      (names : HeaderNames) (claims : Claims) (present : Bool)
      → (credential_from_headers names h ≡ credential_from_headers names h')
        × (validate_context_headers names h claims present
            ≡ validate_context_headers names h' claims present)
  unfolding credential_from_headers validate_context_headers
  headers_agree names claims present = (
    single_credential-only _
        ∙ ap credential_of (only-perm (header_values-perm names.authorization p))
        ∙ sym (single_credential-only _),
    ap₂ ◌>>◌ (match_expected-perm (expected_headers names claims))
        (match_parent-perm names.parent_invocation claims present),
  )

-- The order in which Go iterates over the header map decides nothing: the credential taken, and
-- the outcome of the context check, are the same in every order of the entries.
pub credential-context-perm :
    (names : HeaderNames) (h h' : Header) (claims : Claims) (present : Bool)
    → Permᴰ h h'
    → (credential_from_headers names h ≡ credential_from_headers names h')
      × (validate_context_headers names h claims present
          ≡ validate_context_headers names h' claims present)
credential-context-perm names h h' claims present p = headers_agree p names claims present
