-- ===== src/Client/Members/Accepts.antt =====
-- `rejectDuplicateJSONMembers` of client/json.go accepts the text of a JSON value exactly when no
-- object in it repeats a member name.
use nekiro_sdk_go.Prelude.{
  ℕ, zero, suc, ◌+◌, ◌*◌, ◌≤◌, Bytes, true, List, [], ◌∷◌, length, Option, none, some, ◌≡◌, refl,
  arith, ◌∙◌,
}
use nekiro_sdk_go.Errors.{Result, ok, err}
use nekiro_sdk_go.Json.Scanner.{scan, Item, punct, text, close_object, close_array, colon, comma}
use nekiro_sdk_go.Json.Unquote.{unquote}
use nekiro_sdk_go.Json.Decoder.{
  Decoder, new_decoder, top_value, TokenState, array_start, array_comma, array_value, object_start,
  object_comma, object_colon, object_value, value_end, value_allowed, token_from, token, string,
}
use nekiro_sdk_go.Json.Tree.{
  Value, text_value, number_value, word_value, object, array, Members, no_member, member, Elements,
  no_element, element, value_items, more_members, more_elements, Fits, MembersFit, ElementsFit,
}
use nekiro_sdk_go.Client.Members.Trees.{
  value_repeat, members_repeat, elements_repeat, rounds, members_rounds, elements_rounds, at,
  answer,
}
use nekiro_sdk_go.Client.Members.Steps.{
  token-text, token-number, token-word, token-object, token-array, value_items-more, walk_of_token,
  member-walk, element-walk, object-end, array-end, walk-scalar, walk-string, walk-object,
  walk-array,
}
use nekiro_sdk_go.Client.Members.{
  fuel_for, reject_decoder, require_eof, reject_duplicate_json_members, duplicate_member, walk,
  walk_members, walk_elements,
}

token-key :
    (raw : Bytes) (items : List Item) (stack : List TokenState)
    → token (at (text raw ∷ items) object_start stack)
      ≡ ok (string (unquote raw), at items object_colon stack)
unfolding token token_from
token-key raw items stack = refl

token-comma-key :
    (raw : Bytes) (items : List Item) (stack : List TokenState)
    → token (at (punct comma ∷ text raw ∷ items) object_comma stack)
      ≡ ok (string (unquote raw), at items object_colon stack)
unfolding token token_from
token-comma-key raw items stack = refl

token-colon :
    (items : List Item) (stack : List TokenState)
    → token (at (punct colon ∷ items) object_colon stack) ≡ token (at items object_value stack)
unfolding token token_from
token-colon items stack = refl

token-comma :
    (items : List Item) (stack : List TokenState)
    → token (at (punct comma ∷ items) array_comma stack) ≡ token (at items array_value stack)
unfolding token token_from
token-comma items stack = refl

no_rounds : (v : Value) → ¬ (rounds v ≤ 0)
unfolding rounds
no_rounds (object ms) h = omega arith
no_rounds (array es) h = omega arith
no_rounds (text_value raw) h = omega arith
no_rounds _ h = omega arith

mutual
  unfolding value_items value_repeat rounds

  value-walk :
      (v : Value) (fuel : ℕ) (rest : List Item) (st : TokenState) (stack : List TokenState)
      → rounds v ≤ fuel
      → Fits v
      → value_allowed st ≡ true
      → walk fuel (at (value_items v rest) st stack)
        ≡ answer (value_repeat v) (at rest (value_end st) stack)
  value-walk v zero rest st stack h f a = absurd (no_rounds v h)
  value-walk (text_value raw) (suc fuel) rest st stack h f a =
      walk-string fuel _ _ (unquote raw) (token-text rest st stack a raw)
  value-walk (number_value raw) (suc fuel) rest st stack h f a =
      walk-scalar fuel _ _ (token-number rest st stack a raw f)
  value-walk (word_value raw) (suc fuel) rest st stack h f a =
      walk-scalar fuel _ _ (token-word rest st stack a raw)
  value-walk (object no_member) (suc zero) rest st stack h f a = absurd (omega arith)
  value-walk (object no_member) (suc (suc fuel)) rest st stack h f a =
      walk-object _ _ _ (token-object _ st stack a)
      ∙ object-end fuel rest st stack object_start [] refl
  value-walk (object (member k v ms)) (suc zero) rest st stack h f a = absurd (omega arith)
  value-walk (object (member k v ms)) (suc (suc fuel)) rest st stack h f a =
      walk-object _ _ _ (token-object _ st stack a)
      ∙ member-walk fuel k v ms rest st stack [] _ refl (token-key k _ _)
          (walk_of_token fuel _ _ (token-colon _ _)
            ∙ value-walk v fuel _ object_value (st ∷ stack) (omega arith) f.0 refl)
          (members-walk ms fuel rest st stack (unquote k ∷ []) (omega arith) f.1)
  value-walk (array no_element) (suc zero) rest st stack h f a = absurd (omega arith)
  value-walk (array no_element) (suc (suc fuel)) rest st stack h f a =
      walk-array _ _ _ (token-array _ st stack a) ∙ array-end fuel rest st stack array_start refl
  value-walk (array (element v es)) (suc zero) rest st stack h f a = absurd (omega arith)
  value-walk (array (element v es)) (suc (suc fuel)) rest st stack h f a =
      walk-array _ _ _ (token-array _ st stack a)
      ∙ element-walk fuel v es rest st stack _ (value_items-more v _)
          (value-walk v fuel _ array_start (st ∷ stack) (omega arith) f.0 refl)
          (elements-walk es fuel rest st stack (omega arith) f.1)

  members-walk :
      (ms : Members) (fuel : ℕ) (rest : List Item) (s : TokenState) (stack : List TokenState)
      (seen : List Bytes)
      → members_rounds ms ≤ fuel
      → MembersFit ms
      → walk_members fuel
          (at (more_members ms (punct close_object ∷ rest)) object_comma (s ∷ stack))
          seen
        ≡ answer (members_repeat ms seen) (at rest (value_end s) stack)
  members-walk no_member zero rest s stack seen h f = absurd (omega arith)
  members-walk no_member (suc fuel) rest s stack seen h f =
      object-end fuel rest s stack object_comma seen refl
  members-walk (member k v ms) zero rest s stack seen h f = absurd (omega arith)
  members-walk (member k v ms) (suc fuel) rest s stack seen h f =
      member-walk fuel k v ms rest s stack seen _ refl (token-comma-key k _ _)
        (walk_of_token fuel _ _ (token-colon _ _)
          ∙ value-walk v fuel _ object_value (s ∷ stack) (omega arith) f.0 refl)
        (members-walk ms fuel rest s stack (unquote k ∷ seen) (omega arith) f.1)

  elements-walk :
      (es : Elements) (fuel : ℕ) (rest : List Item) (s : TokenState) (stack : List TokenState)
      → elements_rounds es ≤ fuel
      → ElementsFit es
      → walk_elements fuel
          (at (more_elements es (punct close_array ∷ rest)) array_comma (s ∷ stack))
        ≡ answer (elements_repeat es) (at rest (value_end s) stack)
  elements-walk no_element zero rest s stack h f = absurd (omega arith)
  elements-walk no_element (suc fuel) rest s stack h f =
      array-end fuel rest s stack array_comma refl
  elements-walk (element v es) zero rest s stack h f = absurd (omega arith)
  elements-walk (element v es) (suc fuel) rest s stack h f =
      element-walk fuel v es rest s stack _ refl
        (walk_of_token fuel _ _ (token-comma _ _)
          ∙ value-walk v fuel _ array_value (s ∷ stack) (omega arith) f.0 refl)
        (elements-walk es fuel rest s stack (omega arith) f.1)

mutual
  unfolding value_items rounds

  rounds-le :
      (v : Value) (rest : List Item) → rounds v + 2 * length rest ≤ 2 * length (value_items v rest)
  rounds-le (text_value raw) rest = omega arith
  rounds-le (number_value raw) rest = omega arith
  rounds-le (word_value raw) rest = omega arith
  rounds-le (object no_member) rest = omega arith
  rounds-le (object (member k v ms)) rest = omega (
    arith,
    rounds-le v (more_members ms (punct close_object ∷ rest)),
    members_rounds-le ms (punct close_object ∷ rest),
  )
  rounds-le (array no_element) rest = omega arith
  rounds-le (array (element v es)) rest = omega (
    arith,
    rounds-le v (more_elements es (punct close_array ∷ rest)),
    elements_rounds-le es (punct close_array ∷ rest),
  )

  members_rounds-le :
      (ms : Members) (rest : List Item)
      → members_rounds ms + 2 * length rest ≤ 2 * length (more_members ms rest) + 1
  members_rounds-le no_member rest = omega arith
  members_rounds-le (member k v ms) rest =
      omega (arith, rounds-le v (more_members ms rest), members_rounds-le ms rest)

  elements_rounds-le :
      (es : Elements) (rest : List Item)
      → elements_rounds es + 2 * length rest ≤ 2 * length (more_elements es rest) + 1
  elements_rounds-le no_element rest = omega arith
  elements_rounds-le (element v es) rest =
      omega (arith, rounds-le v (more_elements es rest), elements_rounds-le es rest)

walk-value :
    (v : Value)
    → Fits v
    → walk (fuel_for (at (value_items v []) top_value [])) (at (value_items v []) top_value [])
      ≡ answer (value_repeat v) (at [] top_value [])
walk-value v f =
    value-walk v (suc (2 * length (value_items v []))) [] top_value []
      (omega (arith, rounds-le v [])) f refl

-- The outcome of the check for the first repeated name.
abbrev pub verdict : Option Bytes → Result (Unit {0})
verdict none = ok tt
verdict (some name) = err (duplicate_member name)

reject-answer :
    (d : Decoder) (o : Option Bytes)
    → walk (fuel_for d) d ≡ answer o (at [] top_value [])
    → reject_decoder d ≡ verdict o
unfolding reject_decoder require_eof
reject-answer d none e = rw (e, reject_decoder)
reject-answer d (some name) e = rw (e, reject_decoder)

new_decoder-scan : (content : Bytes) → new_decoder content ≡ at (scan content) top_value []
unfolding new_decoder
new_decoder-scan content = refl

-- On a text whose items are those of one JSON value with numbers in range, the check reports the
-- first member name, in the order of the text, that the object around it already has, and accepts
-- if there is none.
pub reject_duplicate_json_members-verdict :
    (content : Bytes) (v : Value)
    → scan content ≡ value_items v []
    → Fits v
    → reject_duplicate_json_members content ≡ verdict (value_repeat v)
unfolding reject_duplicate_json_members
reject_duplicate_json_members-verdict content v e f =
    rw (new_decoder-scan content, e) (reject-answer _ (value_repeat v) (walk-value v f))
