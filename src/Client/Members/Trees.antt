-- ===== src/Client/Members/Trees.antt =====
-- What the walk of client/json.go finds in the text of a JSON value.
use nekiro_sdk_go.Prelude.{ℕ, suc, ◌+◌, Bytes, List, [], ◌∷◌, Option, none, some, if◌then◌else◌}
use nekiro_sdk_go.Errors.{ok, err}
use nekiro_sdk_go.Json.Scanner.{Item}
use nekiro_sdk_go.Json.Unquote.{unquote}
use nekiro_sdk_go.Json.Decoder.{Decoder, TokenState}
use nekiro_sdk_go.Json.Tree.{
  Value, object, array, Members, no_member, member, Elements, no_element, element,
}
use nekiro_sdk_go.Client.Members.{Run, duplicate_member, is_seen}

-- The first member name, in the order of the text, that its object already has.
unfoldable mutual
  pub value_repeat : Value → Option Bytes
  value_repeat (object ms) = members_repeat ms []
  value_repeat (array es) = elements_repeat es
  value_repeat _ = none

  pub members_repeat : Members → List Bytes → Option Bytes
  members_repeat no_member seen = none
  members_repeat (member k v ms) seen =
      if is_seen (unquote k) seen then some (unquote k) else elim (value_repeat v) [
        | some name ↦ some name
        | none ↦ members_repeat ms (unquote k ∷ seen)
      ]

  pub elements_repeat : Elements → Option Bytes
  elements_repeat no_element = none
  elements_repeat (element v es) = elim (value_repeat v) [
    | some name ↦ some name
    | none ↦ elements_repeat es
  ]

-- The rounds of `walk` and of its loops for a value.
unfoldable mutual
  pub rounds : Value → ℕ
  rounds (object ms) = suc (members_rounds ms)
  rounds (array es) = suc (elements_rounds es)
  rounds _ = 1

  pub members_rounds : Members → ℕ
  members_rounds no_member = 1
  members_rounds (member k v ms) = suc (rounds v + members_rounds ms)

  pub elements_rounds : Elements → ℕ
  elements_rounds no_element = 1
  elements_rounds (element v es) = suc (rounds v + elements_rounds es)

abbrev pub at : List Item → TokenState → List TokenState → Decoder
at items st stack = record { items = items; state = st; stack = stack }

abbrev pub answer : Option Bytes → Decoder → Run Decoder
answer none d = some (ok d)
answer (some name) d = some (err (duplicate_member name))
