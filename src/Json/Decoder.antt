-- ===== src/Json/Decoder.antt =====
-- The token interface of `encoding/json.Decoder` over the items of its input, and `Compact`.
use nekiro_sdk_go.Prelude.{
  ℕ, suc, ◌+◌, ◌-◌, ◌*◌, ◌^◌, Bytes, Bool, true, false, List, [], ◌∷◌, ◌||◌, length, leb, ltb, ◌==◌,
  if◌then◌else◌,
}
use nekiro_sdk_go.Errors.{GoError, sentinel, plain, eof, Result, ok, err}
use nekiro_sdk_go.Json.Scanner.{
  Punct, open_object, close_object, open_array, close_array, colon, comma, Item, punct, text,
  number, word, bad, scan,
}
use nekiro_sdk_go.Json.Unquote.{unquote}

-- `tokenState` of the decoder. `single_value` and `single_done` are the ends of a whole text for
-- `Valid`, where only one value is allowed.
pub data TokenState : Type 0 where
  top_value array_start array_value array_comma : TokenState
  object_start object_key object_colon object_value object_comma : TokenState
  single_value single_done : TokenState

abbrev pub value_allowed : TokenState → Bool
value_allowed top_value = true
value_allowed array_start = true
value_allowed array_value = true
value_allowed object_value = true
value_allowed single_value = true
value_allowed _ = false

abbrev pub key_allowed : TokenState → Bool
key_allowed object_start = true
key_allowed object_key = true
key_allowed _ = false

abbrev pub array_may_end : TokenState → Bool
array_may_end array_start = true
array_may_end array_comma = true
array_may_end _ = false

abbrev pub object_may_end : TokenState → Bool
object_may_end object_start = true
object_may_end object_comma = true
object_may_end _ = false

-- `tokenValueEnd`
abbrev pub value_end : TokenState → TokenState
value_end array_start = array_comma
value_end array_value = array_comma
value_end object_value = object_comma
value_end single_value = single_done
value_end s = s

pub record Decoder : Type 0 where
  pub items : List Item
  pub state : TokenState
  pub stack : List TokenState

-- A `json.Token`: a `Delim`, a string, or another scalar.
pub data Token : Type 0 where
  delim : Punct → Token
  string : Bytes → Token
  scalar : Token

-- A decimal literal read from the left: its digits as one number, how many stand behind the point,
-- and the exponent.
record Decimal : Type 0 where
  mantissa : ℕ
  scale : ℕ
  exponent : ℕ
  negative : Bool
  after_point : Bool
  after_e : Bool

read_digit : Decimal → ℕ → Decimal
read_digit d c =
    if c == b'.'
    then record d { after_point = true }
    else if c == b'e' || c == b'E'
    then record d { after_e = true }
    else if c == b'-'
    then record d { negative = d.after_e }
    else if c == b'+'
    then d
    else if d.after_e
    then record d { exponent = d.exponent * 10 + (c - b'0') }
    else record d {
      mantissa = d.mantissa * 10 + (c - b'0');
      scale = if d.after_point then suc d.scale else d.scale;
    }

read_decimal : Decimal → Bytes → Decimal
unfolding read_digit
read_decimal d [] = d
read_decimal d (c ∷ cs) = read_decimal (read_digit d c) cs

-- Half a unit above the largest finite float64: what is not below it rounds to infinity.
abbrev float64_limit : ℕ
float64_limit = 2 ^ 1024 - 2 ^ 970

scaled_up_fits : ℕ → ℕ → Bool
scaled_up_fits m k = if leb k 400 then ltb (m * 10 ^ k) float64_limit else m == 0

scaled_down_fits : ℕ → ℕ → ℕ → Bool
scaled_down_fits len m k = if leb len k then true else ltb m (float64_limit * 10 ^ k)

-- Whether `strconv.ParseFloat(raw, 64)` reports no range error.
pub fits_float64 : Bytes → Bool
unfolding read_decimal scaled_up_fits scaled_down_fits
fits_float64 raw =
    let d =
      read_decimal
        (record {
          mantissa = 0;
          scale = 0;
          exponent = 0;
          negative = false;
          after_point = false;
          after_e = false;
        })
        raw in
    let up = if d.negative then 0 else d.exponent in
    let down = if d.negative then d.scale + d.exponent else d.scale in
    if leb down up
    then scaled_up_fits d.mantissa (up - down)
    else scaled_down_fits (length raw) d.mantissa (down - up)

abbrev pub syntax_error : GoError
syntax_error = plain "json: syntax error"

abbrev pub range_error : GoError
range_error = plain "json: number out of range"

-- `Decoder.Token`. A colon or a comma in its place is passed over.
unfoldable pub token_from : List Item → TokenState → List TokenState → Result (Token × Decoder)
unfolding fits_float64
token_from [] st stack = err (sentinel eof)
token_from (bad ∷ items) st stack = err syntax_error
token_from (punct open_array ∷ items) st stack =
    if value_allowed st
    then ok (delim open_array, record { items = items; state = array_start; stack = st ∷ stack })
    else err syntax_error
token_from (punct open_object ∷ items) st stack =
    if value_allowed st
    then ok (delim open_object, record { items = items; state = object_start; stack = st ∷ stack })
    else err syntax_error
token_from (punct close_array ∷ items) st [] = err syntax_error
token_from (punct close_array ∷ items) st (s ∷ stack) =
    if array_may_end st
    then ok (delim close_array, record { items = items; state = value_end s; stack = stack })
    else err syntax_error
token_from (punct close_object ∷ items) st [] = err syntax_error
token_from (punct close_object ∷ items) st (s ∷ stack) =
    if object_may_end st
    then ok (delim close_object, record { items = items; state = value_end s; stack = stack })
    else err syntax_error
token_from (punct colon ∷ items) object_colon stack = token_from items object_value stack
token_from (punct colon ∷ items) st stack = err syntax_error
token_from (punct comma ∷ items) array_comma stack = token_from items array_value stack
token_from (punct comma ∷ items) object_comma stack = token_from items object_key stack
token_from (punct comma ∷ items) st stack = err syntax_error
token_from (text raw ∷ items) st stack =
    if key_allowed st
    then ok (string (unquote raw), record { items = items; state = object_colon; stack = stack })
    else if value_allowed st
    then ok (string (unquote raw), record { items = items; state = value_end st; stack = stack })
    else err syntax_error
token_from (number raw ∷ items) st stack =
    if value_allowed st
    then (if fits_float64 raw
        then ok (scalar, record { items = items; state = value_end st; stack = stack })
        else err range_error)
    else err syntax_error
token_from (word raw ∷ items) st stack =
    if value_allowed st
    then ok (scalar, record { items = items; state = value_end st; stack = stack })
    else err syntax_error

unfoldable pub token : Decoder → Result (Token × Decoder)
unfolding token_from
token d = token_from d.items d.state d.stack

-- `Decoder.More`
abbrev pub more_items : List Item → Bool
more_items [] = false
more_items (punct close_object ∷ _) = false
more_items (punct close_array ∷ _) = false
more_items _ = true

abbrev pub more : Decoder → Bool
more d = more_items d.items

-- `json.NewDecoder(bytes.NewReader(data))`
unfoldable pub new_decoder : Bytes → Decoder
unfolding scan
new_decoder content = record { items = scan content; state = top_value; stack = [] }

-- `Decoder.Decode` of one more value, seen only as `io.EOF`, another error or success, between two
-- top-level values.
pub data Trailing : Type 0 where
  at_eof : Trailing
  another_value : Trailing

unfoldable pub decode_trailing : Decoder → Trailing
decode_trailing d = elim d.items [ [] ↦ at_eof | _ ↦ another_value ]
