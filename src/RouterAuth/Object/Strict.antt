-- ===== src/RouterAuth/Object/Strict.antt =====
-- Which members an object decoded by agent/routerauth/verifier.go can have.
use nekiro_sdk_go.Prelude.{
  ℕ, zero, suc, Bytes, true, false, List, [], ◌∷◌, ◌++◌, length, All, bytes_eq, bytes_eq_iff, ◌≡◌,
  ◌≢◌, inl, inr, ap, subst, arith, Option, none, some, Bool-cases,
}
use nekiro_sdk_go.Errors.{>>=-ok, Result, ok, Result-cases}
use nekiro_sdk_go.Json.Decoder.{Decoder, Token, string, delim, scalar, token, more, new_decoder}
use nekiro_sdk_go.Client.Members.Distinct.{AllDiffer}
use nekiro_sdk_go.RouterAuth.Object.{
  Object, RawMessage, member, known, member_name, decode_value, decode_member, decode_members,
  settle_members, require_eof, expect, is_open_object, is_close_object, not_an_object, incomplete,
  decode_object, has_member,
}

abbrev pub keys : Object → List Bytes
keys [] = []
keys ((n, v) ∷ ms) = n ∷ keys ms

-- No name twice, and every name allowed.
abbrev pub IsStrict : List Bytes → Object → Type 0
IsStrict allowed ms = AllDiffer (keys ms) × All (λ n. known n allowed ≡ true) (keys ms)

All-snoc :
    (P : Bytes → Type 0) (ms : Object) (n : Bytes) (v : RawMessage)
    → All P (keys ms)
    → P n
    → All P (keys (ms ++ (n, v) ∷ []))
All-snoc P [] n v h p = (p, tt)
All-snoc P ((m, w) ∷ ms) n v h p = (h.0, All-snoc P ms n v h.1 p)

AllDiffer-snoc :
    (ms : Object) (n : Bytes) (v : RawMessage)
    → AllDiffer (keys ms)
    → has_member n ms ≡ false
    → AllDiffer (keys (ms ++ (n, v) ∷ []))
unfolding member
AllDiffer-snoc [] n v h e = (tt, tt)
AllDiffer-snoc ((m, w) ∷ ms) n v h e = elim (Bool-cases (bytes_eq m n)) [
  | inl t ↦ absurd (ground arith)
  | inr t ↦ (
    All-snoc (λ y. y ≢ m) ms n v h.0 (λ same. ground (arith, bytes_eq_iff m n)),
    AllDiffer-snoc ms n v h.1 (rw (t, has_member, member) at e),
  )
]

member_name-ok :
    (allowed : List Bytes) (ms : Object) (t : Token) (name : Bytes)
    → member_name allowed ms t ≡ ok name
    → (has_member name ms ≡ false) × (known name allowed ≡ true)
member_name-ok allowed ms (delim p) name h = cc
member_name-ok allowed ms scalar name h = cc
member_name-ok allowed ms (string n) name h = elim (Bool-cases (has_member n ms)) [
  | inl a ↦ absurd (ground arith)
  | inr a ↦ elim (Bool-cases (known n allowed)) [
    | inl b ↦ ground arith
    | inr b ↦ absurd (ground arith)
  ]
]

decode_member-IsStrict :
    (allowed : List Bytes) (ms : Object) (d : Decoder) (r : Object × Decoder)
    → decode_member allowed ms d ≡ ok r
    → IsStrict allowed ms
    → IsStrict allowed r.0
unfolding decode_member
decode_member-IsStrict allowed ms d r h0 s =
    let (t, e1, h1) = >>=-ok (token d) _ _ h0 in
    let (name, e2, h2) = >>=-ok (member_name allowed ms t.0) _ _ h1 in
    let (v, e3, h3) = >>=-ok (decode_value t.1) _ _ h2 in
    let (new, allowed_name) = member_name-ok allowed ms t.0 name e2 in
    let built : Object × Decoder = (ms ++ (name, v.0) ∷ [], v.1) in
    let same : built ≡ r = cc in
    subst (λ x. IsStrict allowed x.0) same
      (
        AllDiffer-snoc ms name v.0 s.0 new,
        All-snoc (λ n. known n allowed ≡ true) ms name v.0 s.1 allowed_name,
      )

decode_members-IsStrict :
    (fuel : ℕ) (allowed : List Bytes) (d : Decoder) (ms : Object) (r : Object × Decoder)
    → decode_members fuel allowed d ms ≡ some (ok r)
    → IsStrict allowed ms
    → IsStrict allowed r.0
unfolding decode_members
decode_members-IsStrict zero allowed d ms r h s = cc
decode_members-IsStrict (suc fuel) allowed d ms r h s = elim (Bool-cases (more d)) [
  | inr m ↦ let same : (ms, d) ≡ r = ground arith in subst (λ x. IsStrict allowed x.0) same s
  | inl m ↦ elim (Result-cases (decode_member allowed ms d)) [
    | inr (e, f) ↦ absurd (ground arith)
    | inl (q, f) ↦
        decode_members-IsStrict fuel allowed q.1 q.0 r (rw (m, f, decode_members) at h)
          (decode_member-IsStrict allowed ms d q f s)
  ]
]

settle_members-ok :
    (o : Option (Result (Object × Decoder))) (r : Object × Decoder)
    → settle_members o ≡ ok r
    → o ≡ some (ok r)
settle_members-ok none r h = cc
settle_members-ok (some q) r h = ap some h

-- An object that decodes has no member twice, and only allowed members.
pub decode_object-IsStrict :
    (content : Bytes) (allowed : List Bytes) (ms : Object)
    → decode_object content allowed ≡ ok ms
    → IsStrict allowed ms
unfolding decode_object
decode_object-IsStrict content allowed ms h0 =
    let (d, e1, h1) = >>=-ok (expect is_open_object not_an_object (new_decoder content)) _ _ h0 in
    let (r, e2, h2) =
      >>=-ok (settle_members (decode_members (suc (length d.items)) allowed d [])) _ _ h1 in
    let (d', e3, h3) = >>=-ok (expect is_close_object incomplete r.1) _ _ h2 in
    let (u, e4, h4) = >>=-ok (require_eof d') _ _ h3 in
    let same : r.0 ≡ ms = cc in
    subst (IsStrict allowed) same (
      decode_members-IsStrict (suc (length d.items)) allowed d [] r (settle_members-ok _ r e2)
        (tt, tt))
