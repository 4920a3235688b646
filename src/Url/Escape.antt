-- ===== src/Url/Escape.antt =====
-- The escaping of Go's net/url.
use nekiro_sdk_go.Prelude.{
  ℕ, ◌+◌, ◌-◌, ◌*◌, ◌/◌, ◌%◌, Bytes, Bool, true, false, [], ◌∷◌, ◌&&◌, ◌||◌, not, ltb, leb, ◌==◌,
  contains_byte, codes, if◌then◌else◌, Option, none, some,
}
use nekiro_sdk_go.Http.{is_upper, is_lower, is_digit}
use nekiro_sdk_go.Errors.{GoError, plain, Result, ok, err}

is_alphanumeric : ℕ → Bool
is_alphanumeric c = is_upper c || is_lower c || is_digit c

pub data Mode : Type 0 where
  encode_path encode_user encode_host encode_fragment : Mode

-- The reserved bytes, by where they stand.
reserved_escaped : Mode → ℕ → Bool
reserved_escaped encode_path c = c == b'?'
reserved_escaped encode_user c = contains_byte c (codes "@/?:")
reserved_escaped encode_host c = true
reserved_escaped encode_fragment c = false

is_host : Mode → Bool
is_host encode_host = true
is_host _ = false

is_fragment : Mode → Bool
is_fragment encode_fragment = true
is_fragment _ = false

-- `shouldEscape`
unfoldable pub should_escape : Mode → ℕ → Bool
unfolding is_alphanumeric reserved_escaped is_host is_fragment contains_byte
should_escape mode c =
    if is_alphanumeric c
    then false
    else if is_host mode && (contains_byte c (codes "!$&'()*+,;=:[]<>") || c == 34)
    then false
    else if contains_byte c (codes "-_.~")
    then false
    else if contains_byte c (codes "$&+,/:;=?@")
    then reserved_escaped mode c
    else not (is_fragment mode && contains_byte c (codes "!()*"))

hex_value : ℕ → Option ℕ
hex_value c =
    if is_digit c
    then some (c - 48)
    else if leb b'a' c && leb c b'f'
    then some (c - 87)
    else if leb b'A' c && leb c b'F'
    then some (c - 55)
    else none

hex_digit : ℕ → ℕ
hex_digit n = if ltb n 10 then n + 48 else n + 55

-- Whether a byte written out must not stand in a host, and whether an escape must not.
plain_refused : Mode → ℕ → Bool
plain_refused mode c = is_host mode && ltb c 0x80 && should_escape mode c

escape_refused : Mode → ℕ → ℕ → Bool
escape_refused mode h l = is_host mode && ltb h 8 && not (h == 2 && l == 5)

escape_invalid : GoError
escape_invalid = plain "invalid URL escape"

prepend : ℕ → Result Bytes → Result Bytes
prepend c (ok s) = ok (c ∷ s)
prepend c (err e) = err e

decoded : Mode → Option ℕ → Option ℕ → Result Bytes → Result Bytes
decoded mode (some h) (some l) rest =
    if escape_refused mode h l then err escape_invalid else prepend (h * 16 + l) rest
decoded mode _ _ rest = err escape_invalid

-- `unescape`
unfoldable pub unescape : Mode → Bytes → Result Bytes
unfolding should_escape hex_value plain_refused escape_refused escape_invalid prepend decoded
    is_host
unescape mode [] = ok []
unescape mode (c ∷ []) =
    if c == b'%' || plain_refused mode c then err escape_invalid else ok (c ∷ [])
unescape mode (c ∷ d ∷ []) =
    let rest = unescape mode (d ∷ []) in
    if c == b'%' || plain_refused mode c then err escape_invalid else prepend c rest
unescape mode (c ∷ d ∷ e ∷ s) =
    let rest = unescape mode (d ∷ e ∷ s) in
    let behind = unescape mode s in
    if c == b'%'
    then decoded mode (hex_value d) (hex_value e) behind
    else if plain_refused mode c
    then err escape_invalid
    else prepend c rest

-- `escape`
unfoldable pub escape : Mode → Bytes → Bytes
unfolding should_escape hex_digit
escape mode [] = []
escape mode (c ∷ cs) =
    let rest = escape mode cs in
    if should_escape mode c then b'%' ∷ hex_digit (c / 16) ∷ hex_digit (c % 16) ∷ rest else c ∷ rest
