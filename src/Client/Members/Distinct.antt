-- ===== src/Client/Members/Distinct.antt =====
-- What it means that `rejectDuplicateJSONMembers` of client/json.go finds no repeated name.
use nekiro_sdk_go.Prelude.{
  Bytes, Bool, if◌then◌else◌, Option, true, false, List, [], ◌∷◌, none, some, ◌≡◌, ◌≢◌, ◌↔◌, refl,
  arith, Option-cases, inl, inr, All, bytes_eq_iff,
}
use nekiro_sdk_go.Errors.{ok}
use nekiro_sdk_go.Json.Scanner.{scan}
use nekiro_sdk_go.Json.Unquote.{unquote}
use nekiro_sdk_go.Json.Tree.{
  Value, text_value, number_value, word_value, object, array, Members, no_member, member, Elements,
  no_element, element, value_items, Fits,
}
use nekiro_sdk_go.Client.Members.{is_seen, reject_duplicate_json_members}
use nekiro_sdk_go.Client.Members.Trees.{value_repeat, members_repeat, elements_repeat}
use nekiro_sdk_go.Client.Members.Accepts.{verdict, reject_duplicate_json_members-verdict}

abbrev pub names : Members → List Bytes
names no_member = []
names (member k v ms) = unquote k ∷ names ms

-- No two equal entries.
abbrev pub AllDiffer : List Bytes → Type 0
AllDiffer [] = Unit
AllDiffer (x ∷ xs) = All (λ y. y ≢ x) xs × AllDiffer xs

-- In every object of the value, however deep, the decoded member names are pairwise different.
abbrev mutual
  pub Distinct : Value → Type 0
  Distinct (object ms) = AllDiffer (names ms) × MembersDistinct ms
  Distinct (array es) = ElementsDistinct es
  Distinct _ = Unit

  pub MembersDistinct : Members → Type 0
  MembersDistinct no_member = Unit
  MembersDistinct (member k v ms) = Distinct v × MembersDistinct ms

  pub ElementsDistinct : Elements → Type 0
  ElementsDistinct no_element = Unit
  ElementsDistinct (element v es) = Distinct v × ElementsDistinct es

-- None of the names was seen.
abbrev Unseen : List Bytes → List Bytes → Type 0
Unseen seen = All (λ name. is_seen name seen ≡ false)

Unseen-tail :
    (k : Bytes) (seen ns : List Bytes) → Unseen (k ∷ seen) ns → Unseen seen ns × All (λ n. n ≢ k) ns
Unseen-tail k seen [] h = (tt, tt)
Unseen-tail k seen (n ∷ ns) h =
    let (rest, others) = Unseen-tail k seen ns h.1 in
    ((ground arith, rest), ((λ e. ground (arith, bytes_eq_iff k n)), others))

Unseen-cons :
    (k : Bytes) (seen ns : List Bytes) → Unseen seen ns → All (λ n. n ≢ k) ns → Unseen (k ∷ seen) ns
Unseen-cons k seen [] h d = tt
Unseen-cons k seen (n ∷ ns) h d =
    (ground (arith, bytes_eq_iff k n, d.0), Unseen-cons k seen ns h.1 d.1)

Unseen-nil : (ns : List Bytes) → Unseen [] ns
Unseen-nil [] = tt
Unseen-nil (n ∷ ns) = (refl, Unseen-nil ns)

none-parts :
    (b : Bool) (x : Bytes) (o p : Option Bytes)
    → (if b then some x else elim o [ some name ↦ some name | none ↦ p ]) ≡ none
    → (b ≡ false) × (o ≡ none) × (p ≡ none)
none-parts true x o p h = cc
none-parts false x (some y) p h = cc
none-parts false x none p h = (refl, refl, h)

mutual
  unfolding value_repeat

  repeat-Distinct : (v : Value) → value_repeat v ≡ none → Distinct v
  repeat-Distinct (text_value raw) h = tt
  repeat-Distinct (number_value raw) h = tt
  repeat-Distinct (word_value raw) h = tt
  repeat-Distinct (object ms) h = let (a, b, c) = members_repeat-Distinct ms [] h in (a, b)
  repeat-Distinct (array es) h = elements_repeat-Distinct es h

  members_repeat-Distinct :
      (ms : Members) (seen : List Bytes)
      → members_repeat ms seen ≡ none
      → AllDiffer (names ms) × MembersDistinct ms × Unseen seen (names ms)
  members_repeat-Distinct no_member seen h = (tt, tt, tt)
  members_repeat-Distinct (member k v ms) seen h =
      let (fresh, inner, later) = none-parts _ (unquote k) _ _ h in
      let (a, b, c) = members_repeat-Distinct ms (unquote k ∷ seen) later in
      let (d, e) = Unseen-tail (unquote k) seen (names ms) c in
      ((e, a), (repeat-Distinct v inner, b), (fresh, d))

  elements_repeat-Distinct : (es : Elements) → elements_repeat es ≡ none → ElementsDistinct es
  elements_repeat-Distinct no_element h = tt
  elements_repeat-Distinct (element v es) h =
      let (_, inner, later) = none-parts false [] _ _ h in
      (repeat-Distinct v inner, elements_repeat-Distinct es later)

mutual
  unfolding value_repeat

  Distinct-repeat : (v : Value) → Distinct v → value_repeat v ≡ none
  Distinct-repeat (text_value raw) h = refl
  Distinct-repeat (number_value raw) h = refl
  Distinct-repeat (word_value raw) h = refl
  Distinct-repeat (object ms) h = Distinct-members_repeat ms [] h.0 h.1 (Unseen-nil (names ms))
  Distinct-repeat (array es) h = Distinct-elements_repeat es h

  Distinct-members_repeat :
      (ms : Members) (seen : List Bytes)
      → AllDiffer (names ms)
      → MembersDistinct ms
      → Unseen seen (names ms)
      → members_repeat ms seen ≡ none
  Distinct-members_repeat no_member seen a b c = refl
  Distinct-members_repeat (member k v ms) seen a b c =
      rw (c.0, Distinct-repeat v b.0)
        (Distinct-members_repeat ms (unquote k ∷ seen) a.1 b.1
          (Unseen-cons (unquote k) seen (names ms) c.1 a.0))

  Distinct-elements_repeat : (es : Elements) → ElementsDistinct es → elements_repeat es ≡ none
  Distinct-elements_repeat no_element h = refl
  Distinct-elements_repeat (element v es) h =
      rw (Distinct-repeat v h.0) (Distinct-elements_repeat es h.1)

verdict-none : (v : Value) → verdict (value_repeat v) ≡ ok tt → value_repeat v ≡ none
verdict-none v h = elim (Option-cases (value_repeat v)) [ inl e ↦ e | inr (name, e) ↦ ground arith ]

-- A text whose items are those of one JSON value with numbers in range is accepted exactly when in
-- every object of the value, however deep, the decoded member names are pairwise different.
pub reject_duplicate_json_members-Distinct :
    (content : Bytes) (v : Value)
    → scan content ≡ value_items v []
    → Fits v
    → (reject_duplicate_json_members content ≡ ok tt) ↔ Distinct v
reject_duplicate_json_members-Distinct content v e f =
    let same = reject_duplicate_json_members-verdict content v e f in
    (λ h. repeat-Distinct v (verdict-none v (rw same at h)), λ d. rw (same, Distinct-repeat v d))
