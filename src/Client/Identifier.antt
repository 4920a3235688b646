-- ===== src/Client/Identifier.antt =====
-- `safeIdentifier` of client/json.go and `validApplicationCredential` of client/config.go.
use nekiro_sdk_go.Prelude.{
  ℕ, suc, ◌≤◌, Bytes, Bool, true, false, [], ◌∷◌, ◌&&◌, ◌||◌, not, all, length, ltb, leb, ◌==◌,
  bytes_eq, if◌then◌else◌, ◌≡◌, refl, ◌↔◌, arith, All,
}

abbrev is_alphanumeric : ℕ → Bool
is_alphanumeric c =
    (leb b'A' c && leb c b'Z') || (leb b'a' c && leb c b'z') || (leb b'0' c && leb c b'9')

abbrev pub is_mark : ℕ → Bool
is_mark c = c == b'.' || c == b'_' || c == b':' || c == b'-'

-- `allowed`
abbrev pub is_allowed : ℕ → Bool
is_allowed c = is_alphanumeric c || is_mark c

abbrev is_first : ℕ → Bool
is_first index = index == 0

unfoldable pub safe_from : ℕ → Bytes → Bool
safe_from index [] = true
safe_from index (c ∷ cs) =
    if not (is_allowed c) || (is_first index && is_mark c) then false else safe_from (suc index) cs

unfoldable pub safe_identifier : Bytes → Bool
unfolding safe_from
safe_identifier value =
    if ltb (length value) 1 || ltb 128 (length value) then false else safe_from 0 value

unfoldable pub valid_application_credential : Bytes → Bool
unfolding bytes_eq
valid_application_credential value =
    if bytes_eq value [] then false else all (λ c. not (ltb c 0x21 || ltb 0x7e c)) value

-- The platform's identifiers: 1 to 128 letters, digits and marks, the first not a mark.
abbrev pub IsIdentifier : Bytes → Type 0
IsIdentifier [] = ⊥
IsIdentifier (c ∷ cs) =
    (is_alphanumeric c ≡ true) × All (λ d. is_allowed d ≡ true) cs × (length (c ∷ cs) ≤ 128)

safe_from-All :
    (index : ℕ) (cs : Bytes) → (safe_from (suc index) cs ≡ true) ↔ All (λ d. is_allowed d ≡ true) cs
unfolding safe_from
safe_from-All index [] = (λ _. tt, λ _. refl)
safe_from-All index (c ∷ cs) =
    let (to, from) = safe_from-All (suc index) cs in
    (λ h. (ground arith, to (ground arith)), λ h. ground (arith, from h.1))

-- The check accepts exactly the platform's identifiers.
pub safe_identifier_iff : (value : Bytes) → (safe_identifier value ≡ true) ↔ IsIdentifier value
unfolding safe_identifier safe_from
safe_identifier_iff [] = (λ h. cc, λ h. elim h [ ])
safe_identifier_iff (c ∷ cs) =
    let (to, from) = safe_from-All 0 cs in
    (λ h. (ground arith, to (ground arith), ground arith), λ h. ground (arith, from h.1))
