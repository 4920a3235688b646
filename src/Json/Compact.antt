-- ===== src/Json/Compact.antt =====
-- `Valid` and `Compact` of `encoding/json`: one value, nested at most 10000 deep, and its text
-- without the white space between items.
use nekiro_sdk_go.Prelude.{
  ℕ, Bytes, Bool, true, false, List, [], ◌∷◌, ◌++◌, length, leb, if◌then◌else◌, Option, none, some,
}
use nekiro_sdk_go.Json.Scanner.{
  Punct, open_object, close_object, open_array, close_array, colon, comma, Item, punct, text,
  number, word, bad, scan,
}
use nekiro_sdk_go.Json.Decoder.{
  TokenState, array_start, array_value, array_comma, object_start, object_key, object_colon,
  object_value, object_comma, single_value, single_done, value_allowed, key_allowed, array_may_end,
  object_may_end, value_end,
}

abbrev Position : Type 0
Position = TokenState × List TokenState

abbrev scalar_step : TokenState → List TokenState → Option Position
scalar_step st stack = if value_allowed st then some (value_end st, stack) else none

abbrev open_step : TokenState → TokenState → List TokenState → Option Position
open_step inner st stack =
    if value_allowed st
    then (if leb (length (st ∷ stack)) 10000 then some (inner, st ∷ stack) else none)
    else none

abbrev close_step : Bool → List TokenState → Option Position
close_step may [] = none
close_step may (s ∷ stack) = if may then some (value_end s, stack) else none

-- What one item does to the parser's state.
unfoldable pub valid_step :
    Item → TokenState → List TokenState → Option (TokenState × List TokenState)
valid_step bad st stack = none
valid_step (punct open_array) st stack = open_step array_start st stack
valid_step (punct open_object) st stack = open_step object_start st stack
valid_step (punct close_array) st stack = close_step (array_may_end st) stack
valid_step (punct close_object) st stack = close_step (object_may_end st) stack
valid_step (punct colon) object_colon stack = some (object_value, stack)
valid_step (punct colon) st stack = none
valid_step (punct comma) array_comma stack = some (array_value, stack)
valid_step (punct comma) object_comma stack = some (object_key, stack)
valid_step (punct comma) st stack = none
valid_step (text raw) st stack =
    if key_allowed st then some (object_colon, stack) else scalar_step st stack
valid_step (number raw) st stack = scalar_step st stack
valid_step (word raw) st stack = scalar_step st stack

abbrev is_single_done : TokenState → Bool
is_single_done single_done = true
is_single_done _ = false

unfoldable pub valid_from : List Item → TokenState → List TokenState → Bool
unfolding valid_step
valid_from [] st stack = is_single_done st
valid_from (i ∷ items) st stack = elim (valid_step i st stack) [
  | none ↦ false
  | some p ↦ valid_from items p.0 p.1
]

abbrev punct_byte : Punct → ℕ
punct_byte open_object = b'{'
punct_byte close_object = b'}'
punct_byte open_array = b'['
punct_byte close_array = b']'
punct_byte colon = b':'
punct_byte comma = b','

abbrev raw_item : Item → Bytes
raw_item (punct p) = punct_byte p ∷ []
raw_item (text raw) = raw
raw_item (number raw) = raw
raw_item (word raw) = raw
raw_item bad = []

unfoldable pub raw_items : List Item → Bytes
raw_items [] = []
raw_items (i ∷ items) = raw_item i ++ raw_items items

-- `json.Compact`: `none` is its error.
unfoldable pub compact : Bytes → Option Bytes
unfolding valid_from raw_items scan
compact content =
    if valid_from (scan content) single_value [] then some (raw_items (scan content)) else none
