-- ===== src/Client/Members/Steps.antt =====
-- The rounds of the walk of client/json.go on the text of a JSON value.
use nekiro_sdk_go.Prelude.{
  ℕ, zero, suc, Bytes, true, false, List, [], ◌∷◌, Option, none, some, ◌≡◌, refl, arith, Bool-cases,
  inl, inr, ◌∙◌,
}
use nekiro_sdk_go.Errors.{ok, err}
use nekiro_sdk_go.Json.Scanner.{
  Item, punct, text, number, word, open_object, close_object, open_array, close_array, colon,
}
use nekiro_sdk_go.Json.Unquote.{unquote}
use nekiro_sdk_go.Json.Decoder.{
  Decoder, TokenState, array_start, array_comma, object_start, object_comma, object_colon,
  value_end, value_allowed, object_may_end, array_may_end, token_from, token, more, more_items,
  delim, string, scalar, fits_float64,
}
use nekiro_sdk_go.Json.Tree.{
  Value, text_value, number_value, word_value, object, array, Members, no_member, member, Elements,
  no_element, element, value_items, more_members, more_elements,
}
use nekiro_sdk_go.Client.Members.Trees.{value_repeat, members_repeat, elements_repeat, at, answer}
use nekiro_sdk_go.Client.Members.{
  Run, duplicate_member, is_seen, fresh_key, walk, walk_members, walk_elements, ◌>>=◌,
}

pub walk_of_token : (fuel : ℕ) (d d' : Decoder) → token d ≡ token d' → walk fuel d ≡ walk fuel d'
unfolding walk
walk_of_token zero d d' e = refl
walk_of_token (suc fuel) d d' e = rw (e, walk)

-- The first item of a value is a value's, and the loops go on.
pub value_items-more : (v : Value) (rest : List Item) → more_items (value_items v rest) ≡ true
unfolding value_items
value_items-more (text_value raw) rest = refl
value_items-more (number_value raw) rest = refl
value_items-more (word_value raw) rest = refl
value_items-more (object no_member) rest = refl
value_items-more (object (member k v ms)) rest = refl
value_items-more (array no_element) rest = refl
value_items-more (array (element v es)) rest = refl

module _ (rest : List Item) (st : TokenState) (stack : List TokenState)
    (ready : value_allowed st ≡ true) where
  pub token-text :
      (raw : Bytes)
      → token (at (text raw ∷ rest) st stack)
        ≡ ok (string (unquote raw), at rest (value_end st) stack)
  unfolding token token_from
  token-text raw = ground arith

  pub token-number :
      (raw : Bytes)
      → fits_float64 raw ≡ true
      → token (at (number raw ∷ rest) st stack) ≡ ok (scalar, at rest (value_end st) stack)
  unfolding token token_from
  token-number raw fits = ground arith

  pub token-word :
      (raw : Bytes)
      → token (at (word raw ∷ rest) st stack) ≡ ok (scalar, at rest (value_end st) stack)
  unfolding token token_from
  token-word raw = ground arith

  pub token-object :
      token (at (punct open_object ∷ rest) st stack)
      ≡ ok (delim open_object, at rest object_start (st ∷ stack))
  unfolding token token_from
  token-object = ground arith

  pub token-array :
      token (at (punct open_array ∷ rest) st stack)
      ≡ ok (delim open_array, at rest array_start (st ∷ stack))
  unfolding token token_from
  token-array = ground arith

bind-answer :
    (o : Option Bytes) (d : Decoder) (f : Decoder → Run Decoder) (p : Option Bytes) (d' : Decoder)
    → (o ≡ none → f d ≡ answer p d')
    → (answer o d >>= f) ≡ answer (elim o [ some name ↦ some name | none ↦ p ]) d'
bind-answer none d f p d' h = h refl
bind-answer (some name) d f p d' h = refl

-- One member whose name has been read, before the members `ms`.
module _ (fuel : ℕ) (raw : Bytes) (v : Value) (ms : Members) (rest : List Item) (s : TokenState)
    (stack : List TokenState) (seen : List Bytes) where
  abbrev pub behind : List Item
  behind = more_members ms (punct close_object ∷ rest)

  abbrev pub end_state : Decoder
  end_state = at rest (value_end s) stack

  abbrev pub after_key : Decoder
  after_key = at (punct colon ∷ value_items v behind) object_colon (s ∷ stack)

  module _ (d : Decoder) (m : more d ≡ true)
      (t : token d ≡ ok (string (unquote raw), after_key)) where
    member-again :
        is_seen (unquote raw) seen ≡ true
        → walk_members (suc fuel) d seen ≡ some (err (duplicate_member (unquote raw)))
    unfolding walk_members
    member-again e = rw (m, walk_members, t, e, fresh_key)

    member-new :
        is_seen (unquote raw) seen ≡ false
        → walk_members (suc fuel) d seen
          ≡ (walk fuel after_key >>= λ d'. walk_members fuel d' (unquote raw ∷ seen))
    unfolding walk_members
    member-new e = rw (m, walk_members, t, e, fresh_key)

    pub member-walk :
        walk fuel after_key ≡ answer (value_repeat v) (at behind object_comma (s ∷ stack))
        → walk_members fuel (at behind object_comma (s ∷ stack)) (unquote raw ∷ seen)
          ≡ answer (members_repeat ms (unquote raw ∷ seen)) end_state
        → walk_members (suc fuel) d seen ≡ answer (members_repeat (member raw v ms) seen) end_state
    unfolding members_repeat
    member-walk here later = elim (Bool-cases (is_seen (unquote raw) seen)) [
      | inl e ↦ rw (e, members_repeat) (member-again e)
      | inr e ↦
          rw (e, members_repeat)
            (member-new e
              ∙ (rw here (
                  bind-answer (value_repeat v) (at behind object_comma (s ∷ stack)) _
                    (members_repeat ms (unquote raw ∷ seen)) end_state (λ _. later))))
    ]

-- One element before the elements `es`.
module _ (fuel : ℕ) (v : Value) (es : Elements) (rest : List Item) (s : TokenState)
    (stack : List TokenState) where
  abbrev pub after_value : Decoder
  after_value = at (more_elements es (punct close_array ∷ rest)) array_comma (s ∷ stack)

  element-step :
      (d : Decoder)
      → more d ≡ true
      → walk_elements (suc fuel) d ≡ (walk fuel d >>= λ d'. walk_elements fuel d')
  unfolding walk_elements
  element-step d m = rw (m, walk_elements)

  pub element-walk :
      (d : Decoder)
      → more d ≡ true
      → walk fuel d ≡ answer (value_repeat v) after_value
      → walk_elements fuel after_value ≡ answer (elements_repeat es) (at rest (value_end s) stack)
      → walk_elements (suc fuel) d
        ≡ answer (elements_repeat (element v es)) (at rest (value_end s) stack)
  unfolding elements_repeat
  element-walk d m here later =
      element-step d m
      ∙ (rw here (
          bind-answer (value_repeat v) after_value _ (elements_repeat es)
            (at rest (value_end s) stack) (λ _. later)))

-- The ends of an object and of an array.
module _ (fuel : ℕ) (rest : List Item) (s : TokenState) (stack : List TokenState) where
  pub object-end :
      (st : TokenState) (seen : List Bytes)
      → object_may_end st ≡ true
      → walk_members (suc fuel) (at (punct close_object ∷ rest) st (s ∷ stack)) seen
        ≡ some (ok (at rest (value_end s) stack))
  unfolding walk_members token token_from
  object-end st seen h = rw (h)

  pub array-end :
      (st : TokenState)
      → array_may_end st ≡ true
      → walk_elements (suc fuel) (at (punct close_array ∷ rest) st (s ∷ stack))
        ≡ some (ok (at rest (value_end s) stack))
  unfolding walk_elements token token_from
  array-end st h = rw (h)

-- What `walk` does with the first token of a value.
module _ (fuel : ℕ) (d d' : Decoder) where
  pub walk-scalar : token d ≡ ok (scalar, d') → walk (suc fuel) d ≡ some (ok d')
  unfolding walk
  walk-scalar e = rw (e, walk)

  pub walk-string :
      (name : Bytes) → token d ≡ ok (string name, d') → walk (suc fuel) d ≡ some (ok d')
  unfolding walk
  walk-string name e = rw (e, walk)

  pub walk-object :
      token d ≡ ok (delim open_object, d') → walk (suc fuel) d ≡ walk_members fuel d' []
  unfolding walk
  walk-object e = rw (e, walk)

  pub walk-array : token d ≡ ok (delim open_array, d') → walk (suc fuel) d ≡ walk_elements fuel d'
  unfolding walk
  walk-array e = rw (e, walk)
