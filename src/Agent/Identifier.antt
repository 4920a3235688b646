-- ===== src/Agent/Identifier.antt =====
-- `safeIdentifier` of agent/client.go, whose loop continues on a good character.
use nekiro_sdk_go.Prelude.{
  ℕ, suc, Bytes, Bool, true, false, [], ◌∷◌, ◌||◌, not, length, ltb, if◌then◌else◌, ◌≡◌, refl,
  arith,
}
use nekiro_sdk_go.Client.Identifier.{is_allowed, is_mark}
use nekiro_sdk_go.Client.Identifier as Gateway

unfoldable safe_from : ℕ → Bytes → Bool
safe_from index [] = true
safe_from index (c ∷ cs) =
    let rest = safe_from (suc index) cs in
    if is_allowed c then (if ltb 0 index || not (is_mark c) then rest else false) else false

unfoldable pub safe_identifier : Bytes → Bool
unfolding safe_from
safe_identifier value =
    if ltb (length value) 1 || ltb 128 (length value) then false else safe_from 0 value

same_from : (index : ℕ) (cs : Bytes) → safe_from index cs ≡ Gateway.safe_from index cs
unfolding safe_from Gateway.safe_from
same_from index [] = refl
same_from index (c ∷ cs) = ground (arith, same_from (suc index) cs)

-- The two SDKs accept the same identifiers.
pub safe_identifier-same : (value : Bytes) → safe_identifier value ≡ Gateway.safe_identifier value
unfolding safe_identifier Gateway.safe_identifier
safe_identifier-same value = ground (arith, same_from 0 value)
