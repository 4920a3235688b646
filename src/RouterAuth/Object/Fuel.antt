-- ===== src/RouterAuth/Object/Fuel.antt =====
-- The loop of `decodeObject` in agent/routerauth/verifier.go ends.
use nekiro_sdk_go.Prelude.{
  ℕ, zero, suc, ◌≤◌, ◌<◌, Bytes, List, [], ◌∷◌, ◌++◌, length, ◌≡◌, ◌≢◌, inl, inr, subst, arith,
  Option, none, some, Bool-cases, Option-cases,
}
use nekiro_sdk_go.Errors.{>>=-ok, ok, Result-cases}
use nekiro_sdk_go.Json.Scanner.{Item, punct, colon}
use nekiro_sdk_go.Json.Decoder.{Decoder, TokenState, token, more, single_value}
use nekiro_sdk_go.Json.Compact.{valid_step}
use nekiro_sdk_go.Client.Members.Fuel.{token-items}
use nekiro_sdk_go.RouterAuth.Object.{
  Object, RawMessage, with_item, take_value, colon_value, member_name, decode_value, decode_member,
  decode_members, is_done,
}

with_item-items :
    (n : ℕ) (i : Item) (o : Option (RawMessage × List Item)) (p : RawMessage × List Item)
    → ((q : RawMessage × List Item) → o ≡ some q → length q.1 ≤ n)
    → with_item i o ≡ some p
    → length p.1 ≤ n
with_item-items n i none p k h = cc
with_item-items n i (some q) p k h = ground (arith, k q)

take_value-items :
    (items : List Item) (st : TokenState) (stack : List TokenState) (p : RawMessage × List Item)
    → take_value items st stack ≡ some p
    → length p.1 ≤ length items
unfolding take_value
take_value-items [] st stack p h = cc
take_value-items (i ∷ items) st stack p h = elim (Option-cases (valid_step i st stack)) [
  | inl n ↦ absurd (ground arith)
  | inr (q, n) ↦ elim (Bool-cases (is_done q.0)) [
    | inl b ↦ ground arith
    | inr b ↦ omega (
      arith,
      with_item-items (length items) i (take_value items q.0 q.1) p (take_value-items items q.0 q.1)
          (rw (n, b, take_value) at h),
    )
  ]
]

colon_value-items :
    (items : List Item) (stack : List TokenState) (r : RawMessage × Decoder)
    → colon_value items stack ≡ ok r
    → length r.1.items ≤ length items
colon_value-items [] stack r h = cc
colon_value-items (punct colon ∷ items) stack r h =
    elim (Option-cases (take_value items single_value [])) [
      | inl n ↦ absurd (ground arith)
      | inr (p, n) ↦ ground (arith, take_value-items items single_value [] p n)
    ]
colon_value-items (i ∷ items) stack r h = ground arith

decode_member-items :
    (allowed : List Bytes) (ms : Object) (d : Decoder) (r : Object × Decoder)
    → decode_member allowed ms d ≡ ok r
    → length r.1.items < length d.items
unfolding decode_member decode_value
decode_member-items allowed ms d r h0 =
    let (t, e1, h1) = >>=-ok (token d) _ _ h0 in
    let (name, e2, h2) = >>=-ok (member_name allowed ms t.0) _ _ h1 in
    let (v, e3, h3) = >>=-ok (colon_value t.1.items t.1.stack) _ _ h2 in
    let built : Object × Decoder = (ms ++ (name, v.0) ∷ [], v.1) in
    let same : built ≡ r = cc in
    subst (λ x. length x.1.items < length d.items) same
      (omega (arith, token-items d t e1, colon_value-items t.1.items t.1.stack v e3))

-- The loop over the members ends: a round for each item that is left, and one more, are enough.
pub decode_members-ends :
    (fuel : ℕ) (allowed : List Bytes) (d : Decoder) (ms : Object)
    → length d.items < fuel
    → decode_members fuel allowed d ms ≢ none
unfolding decode_members
decode_members-ends zero allowed d ms l h = ground arith
decode_members-ends (suc fuel) allowed d ms l h = elim (Bool-cases (more d)) [
  | inr m ↦ ground arith
  | inl m ↦ elim (Result-cases (decode_member allowed ms d)) [
    | inr (e, f) ↦ ground arith
    | inl (q, f) ↦
        decode_members-ends fuel allowed q.1 q.0
          (omega (arith, decode_member-items allowed ms d q f)) (rw (m, f, decode_members) at h)
  ]
]
