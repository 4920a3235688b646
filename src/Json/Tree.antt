-- ===== src/Json/Tree.antt =====
-- JSON values as trees over the scanner's items, and the items of their texts.
use nekiro_sdk_go.Prelude.{Bytes, true, List, ◌∷◌, ◌≡◌}
use nekiro_sdk_go.Json.Scanner.{
  open_object, close_object, open_array, close_array, colon, comma, Item, punct, text, number, word,
}
use nekiro_sdk_go.Json.Decoder.{fits_float64}

mutual
  pub data Value : Type 0 where
    text_value number_value word_value : Bytes → Value
    object : Members → Value
    array : Elements → Value

  pub data Members : Type 0 where
    no_member : Members
    member : Bytes → Value → Members → Members

  pub data Elements : Type 0 where
    no_element : Elements
    element : Value → Elements → Elements

-- The items of a value, of the members behind another one and of the elements behind another one,
-- before `rest`.
unfoldable mutual
  pub value_items : Value → List Item → List Item
  value_items (text_value raw) rest = text raw ∷ rest
  value_items (number_value raw) rest = number raw ∷ rest
  value_items (word_value raw) rest = word raw ∷ rest
  value_items (object no_member) rest = punct open_object ∷ punct close_object ∷ rest
  value_items (object (member k v ms)) rest =
      punct open_object
      ∷ text k
      ∷ punct colon
      ∷ value_items v (more_members ms (punct close_object ∷ rest))
  value_items (array no_element) rest = punct open_array ∷ punct close_array ∷ rest
  value_items (array (element v es)) rest =
      punct open_array ∷ value_items v (more_elements es (punct close_array ∷ rest))

  pub more_members : Members → List Item → List Item
  more_members no_member rest = rest
  more_members (member k v ms) rest =
      punct comma ∷ text k ∷ punct colon ∷ value_items v (more_members ms rest)

  pub more_elements : Elements → List Item → List Item
  more_elements no_element rest = rest
  more_elements (element v es) rest = punct comma ∷ value_items v (more_elements es rest)

-- Every number of the value is in the range of a float64.
abbrev mutual
  pub Fits : Value → Type 0
  Fits (text_value raw) = Unit
  Fits (number_value raw) = fits_float64 raw ≡ true
  Fits (word_value raw) = Unit
  Fits (object ms) = MembersFit ms
  Fits (array es) = ElementsFit es

  pub MembersFit : Members → Type 0
  MembersFit no_member = Unit
  MembersFit (member k v ms) = Fits v × MembersFit ms

  pub ElementsFit : Elements → Type 0
  ElementsFit no_element = Unit
  ElementsFit (element v es) = Fits v × ElementsFit es
