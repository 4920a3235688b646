-- ===== src/RouterAuth/Object.antt =====
-- `decodeObject` and the value decoders of agent/routerauth/verifier.go. A `json.RawMessage` is the
-- items of its value.
pub mod Strict
pub mod Fuel
use nekiro_sdk_go.Prelude.{
  ℕ, zero, suc, ◌+◌, ◌-◌, ◌*◌, ◌^◌, Bytes, Bool, true, false, List, [], ◌∷◌, ◌++◌, ◌||◌, length,
  ltb, ◌==◌, all, if◌then◌else◌, Option, none, some, bytes_eq, codes,
}
use nekiro_sdk_go.Prelude.Int.{ℤ, pos, negsuc}
use nekiro_sdk_go.Errors.{GoError, plain, Result, ok, err, ◌>>=◌}
use nekiro_sdk_go.Json.Scanner.{
  open_object, close_object, open_array, close_array, colon, comma, Item, punct, text, number, word,
  is_digit,
}
use nekiro_sdk_go.Json.Unquote.{unquote}
use nekiro_sdk_go.Json.Decoder.{
  TokenState, object_comma, single_value, single_done, Decoder, Token, delim, string, token, more,
  new_decoder, syntax_error, decode_trailing, at_eof, another_value,
}
use nekiro_sdk_go.Json.Compact.{valid_step}

abbrev pub RawMessage : Type 0
RawMessage = List Item

abbrev pub Object : Type 0
Object = List (Bytes × RawMessage)

unfoldable pub member : Bytes → Object → Option RawMessage
member name [] = none
member name ((n, v) ∷ ms) = if bytes_eq n name then some v else member name ms

-- `_, known := allowed[name]`
unfoldable pub known : Bytes → List Bytes → Bool
known name [] = false
known name (n ∷ ns) = bytes_eq n name || known name ns

abbrev pub is_done : TokenState → Bool
is_done single_done = true
is_done _ = false

abbrev pub with_item : Item → Option (RawMessage × List Item) → Option (RawMessage × List Item)
with_item i none = none
with_item i (some p) = some (i ∷ p.0, p.1)

-- The items of one whole value, and those behind it.
unfoldable pub take_value :
    List Item → TokenState → List TokenState → Option (RawMessage × List Item)
unfolding valid_step
take_value [] st stack = none
take_value (i ∷ items) st stack = elim (valid_step i st stack) [
  | none ↦ none
  | some p ↦
      let whole = with_item i (take_value items p.0 p.1) in
      if is_done p.0 then some (i ∷ [], items) else whole
]

-- `decoder.Decode(&value)` of a member's value, behind its name.
abbrev pub colon_value : List Item → List TokenState → Result (RawMessage × Decoder)
colon_value (punct colon ∷ items) stack = elim (take_value items single_value []) [
  | none ↦ err syntax_error
  | some p ↦ ok (p.0, record { items = p.1; state = object_comma; stack = stack })
]
colon_value _ stack = err syntax_error

unfoldable pub decode_value : Decoder → Result (RawMessage × Decoder)
unfolding take_value
decode_value d = colon_value d.items d.stack

abbrev pub is_close_object : Token → Bool
is_close_object (delim close_object) = true
is_close_object _ = false

abbrev pub is_open_object : Token → Bool
is_open_object (delim open_object) = true
is_open_object _ = false

abbrev pub has_member : Bytes → Object → Bool
has_member name ms = elim (member name ms) [ none ↦ false | some _ ↦ true ]

-- The checks of a member's name.
abbrev pub member_name : List Bytes → Object → Token → Result Bytes
member_name allowed ms (string name) =
    if has_member name ms
    then err (plain "credential object contains a duplicate member")
    else if known name allowed
    then ok name
    else err (plain "credential object contains an unknown member")
member_name allowed ms _ = err (plain "credential object member name is invalid")

-- One round of the loop over `decoder.More()`.
unfoldable pub decode_member : List Bytes → Object → Decoder → Result (Object × Decoder)
unfolding member known token decode_value
decode_member allowed ms d = do
  r ← token d
  name ← member_name allowed ms r.0
  v ← decode_value r.1
  ok (ms ++ (name, v.0) ∷ [], v.1)

-- The loop, on fuel: each round consumes an item. `none` when it runs out.
unfoldable pub decode_members :
    ℕ → List Bytes → Decoder → Object → Option (Result (Object × Decoder))
unfolding decode_member
decode_members zero allowed d ms = none
decode_members (suc fuel) allowed d ms =
    if more d
    then elim (decode_member allowed ms d) [
      | err e ↦ some (err e)
      | ok r ↦ decode_members fuel allowed r.1 r.0
    ]
    else some (ok (ms, d))

abbrev pub settle_members : Option (Result (Object × Decoder)) → Result (Object × Decoder)
settle_members none = err (plain "out of fuel")
settle_members (some r) = r

unfoldable pub require_eof : Decoder → Result (Unit {0})
unfolding decode_trailing
require_eof d = elim (decode_trailing d) [
  | at_eof ↦ ok tt
  | another_value ↦ err (plain "credential JSON contains trailing data")
]

abbrev pub not_an_object : GoError
not_an_object = plain "credential segment must be a JSON object"

abbrev pub incomplete : GoError
incomplete = plain "credential JSON object is incomplete"

-- `token, err := decoder.Token(); if err != nil || token != …`
abbrev pub expect : (Token → Bool) → GoError → Decoder → Result Decoder
expect test e d = elim (token d) [ err _ ↦ err e | ok r ↦ if test r.0 then ok r.1 else err e ]

unfoldable pub decode_object : Bytes → List Bytes → Result Object
unfolding decode_members require_eof new_decoder
decode_object content allowed = do
  d ← expect is_open_object not_an_object (new_decoder content)
  r ← settle_members (decode_members (suc (length d.items)) allowed d [])
  d' ← expect is_close_object incomplete r.1
  _ ← require_eof d'
  ok r.0

abbrev is_null : Bytes → Bool
is_null raw = bytes_eq raw (codes "null")

-- `decodeJSONString`: a missing member is an error, and `null` leaves the empty string.
unfoldable pub decode_string : Option RawMessage → Option Bytes
unfolding bytes_eq unquote
decode_string (some (text raw ∷ [])) = some (unquote raw)
decode_string (some (word raw ∷ [])) = if is_null raw then some [] else none
decode_string _ = none

abbrev with_string : Bytes → Option (List Bytes) → Option (List Bytes)
with_string s none = none
with_string s (some ss) = some (s ∷ ss)

-- The elements of an array of strings, behind its opening bracket.
unfoldable pub strings_from : RawMessage → Option (List Bytes)
unfolding bytes_eq unquote
strings_from (punct close_array ∷ []) = some []
strings_from (punct comma ∷ items) = strings_from items
strings_from (text raw ∷ items) = with_string (unquote raw) (strings_from items)
strings_from (word raw ∷ items) =
    let rest = with_string [] (strings_from items) in if is_null raw then rest else none
strings_from _ = none

-- `decodeExactJSON` into a slice of strings that must not stay nil.
unfoldable pub decode_strings : Option RawMessage → Option (List Bytes)
unfolding strings_from
decode_strings (some (punct open_array ∷ items)) = strings_from items
decode_strings _ = none

digits_value : ℕ → Bytes → ℕ
digits_value n [] = n
digits_value n (c ∷ cs) = digits_value (n * 10 + (c - b'0')) cs

abbrev int64_of : Bool → ℕ → Option ℤ
int64_of false n = if ltb n (2 ^ 63) then some (pos n) else none
int64_of true zero = some (pos 0)
int64_of true (suc n) = if ltb n (2 ^ 63) then some (negsuc n) else none

-- A JSON number read as an int64: no fraction, no exponent, in range.
unfoldable pub parse_int64 : Bytes → Option ℤ
unfolding digits_value
parse_int64 [] = none
parse_int64 (c ∷ cs) =
    if c == b'-'
    then (if all is_digit cs then int64_of true (digits_value 0 cs) else none)
    else if all is_digit (c ∷ cs)
    then int64_of false (digits_value 0 (c ∷ cs))
    else none

-- `decodeExactJSON` into an int64; `null` leaves 0.
unfoldable pub decode_int64 : Option RawMessage → Option ℤ
unfolding parse_int64 bytes_eq
decode_int64 (some (number raw ∷ [])) = parse_int64 raw
decode_int64 (some (word raw ∷ [])) = if is_null raw then some (pos 0) else none
decode_int64 _ = none
