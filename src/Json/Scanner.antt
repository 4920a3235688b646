-- ===== src/Json/Scanner.antt =====
-- The scanner of `encoding/json`: the lexical items of a text, in order. What cannot be scanned is
-- one last item `bad`.
use Prim.Native.Nat.{pred}
use nekiro_sdk_go.Prelude.{
  ℕ, Bytes, Bool, true, false, List, [], ◌∷◌, ◌++◌, ◌&&◌, ◌||◌, codes, leb, ltb, ◌==◌,
  if◌then◌else◌,
}

pub data Punct : Type 0 where
  open_object close_object open_array close_array colon comma : Punct

pub data Item : Type 0 where
  punct : Punct → Item
  text : Bytes → Item
  number : Bytes → Item
  word : Bytes → Item
  bad : Item

abbrev pub is_space : ℕ → Bool
is_space c = c == 32 || c == 9 || c == 10 || c == 13

abbrev pub is_digit : ℕ → Bool
is_digit c = leb b'0' c && leb c b'9'

abbrev pub is_hex : ℕ → Bool
is_hex c = is_digit c || leb b'a' c && leb c b'f' || leb b'A' c && leb c b'F'

-- Where the scanner stands inside a string: `hex n` wants n more digits of a `\u` escape.
pub data StringState : Type 0 where
  inside escaped : StringState
  hex : ℕ → StringState

pub data NumberState : Type 0 where
  minus leading_zero digits point fraction exponent exponent_sign exponent_digits : NumberState

pub data ScanState : Type 0 where
  idle broken : ScanState
  in_text : StringState → Bytes → ScanState
  in_number : NumberState → Bytes → ScanState
  in_word : Bytes → Bytes → ScanState

-- The items that a byte completes, and the state behind it.
abbrev Scanned : Type 0
Scanned = List Item × ScanState

abbrev fail : Scanned
fail = (bad ∷ [], broken)

abbrev emit : Punct → Scanned
emit p = (punct p ∷ [], idle)

unfoldable pub idle_step : ℕ → Scanned
idle_step c =
    if is_space c
    then ([], idle)
    else if c == b'{'
    then emit open_object
    else if c == b'}'
    then emit close_object
    else if c == b'['
    then emit open_array
    else if c == b']'
    then emit close_array
    else if c == b':'
    then emit colon
    else if c == b','
    then emit comma
    else if c == b'"'
    then ([], in_text inside (c ∷ []))
    else if c == b'-'
    then ([], in_number minus (c ∷ []))
    else if c == b'0'
    then ([], in_number leading_zero (c ∷ []))
    else if is_digit c
    then ([], in_number digits (c ∷ []))
    else if c == b't'
    then ([], in_word (c ∷ []) (codes "rue"))
    else if c == b'f'
    then ([], in_word (c ∷ []) (codes "alse"))
    else if c == b'n'
    then ([], in_word (c ∷ []) (codes "ull"))
    else fail

-- The bytes that may follow a backslash, `u` apart.
abbrev is_escape : ℕ → Bool
is_escape c =
    c == b'"'
    || c == 92
    || c == b'/'
    || c == b'b'
    || c == b'f'
    || c == b'n'
    || c == b'r'
    || c == b't'

unfoldable pub text_step : StringState → Bytes → ℕ → Scanned
text_step inside raw c =
    if c == b'"'
    then (text (raw ++ c ∷ []) ∷ [], idle)
    else if c == 92
    then ([], in_text escaped (raw ++ c ∷ []))
    else if ltb c 32
    then fail
    else ([], in_text inside (raw ++ c ∷ []))
text_step escaped raw c =
    if c == b'u'
    then ([], in_text (hex 4) (raw ++ c ∷ []))
    else if is_escape c
    then ([], in_text inside (raw ++ c ∷ []))
    else fail
text_step (hex n) raw c =
    if is_hex c
    then ([], in_text (if leb n 1 then inside else hex (pred n)) (raw ++ c ∷ []))
    else fail

abbrev accepting : NumberState → Bool
accepting leading_zero = true
accepting digits = true
accepting fraction = true
accepting exponent_digits = true
accepting _ = false

abbrev is_exponent : ℕ → Bool
is_exponent c = c == b'e' || c == b'E'

-- A number ends before the first byte that cannot continue it.
unfoldable pub number_ends : NumberState → Bytes → ℕ → Scanned
unfolding idle_step
number_ends s raw c =
    if accepting s then (let (items, t) = idle_step c in (number raw ∷ items, t)) else fail

unfoldable pub number_step : NumberState → Bytes → ℕ → Scanned
unfolding number_ends
number_step minus raw c =
    if c == b'0'
    then ([], in_number leading_zero (raw ++ c ∷ []))
    else if is_digit c
    then ([], in_number digits (raw ++ c ∷ []))
    else fail
number_step leading_zero raw c =
    if c == b'.'
    then ([], in_number point (raw ++ c ∷ []))
    else if is_exponent c
    then ([], in_number exponent (raw ++ c ∷ []))
    else number_ends leading_zero raw c
number_step digits raw c =
    if is_digit c
    then ([], in_number digits (raw ++ c ∷ []))
    else if c == b'.'
    then ([], in_number point (raw ++ c ∷ []))
    else if is_exponent c
    then ([], in_number exponent (raw ++ c ∷ []))
    else number_ends digits raw c
number_step point raw c = if is_digit c then ([], in_number fraction (raw ++ c ∷ [])) else fail
number_step fraction raw c =
    if is_digit c
    then ([], in_number fraction (raw ++ c ∷ []))
    else if is_exponent c
    then ([], in_number exponent (raw ++ c ∷ []))
    else number_ends fraction raw c
number_step exponent raw c =
    if c == b'+' || c == b'-'
    then ([], in_number exponent_sign (raw ++ c ∷ []))
    else if is_digit c
    then ([], in_number exponent_digits (raw ++ c ∷ []))
    else fail
number_step exponent_sign raw c =
    if is_digit c then ([], in_number exponent_digits (raw ++ c ∷ [])) else fail
number_step exponent_digits raw c =
    if is_digit c
    then ([], in_number exponent_digits (raw ++ c ∷ []))
    else number_ends exponent_digits raw c

unfoldable pub word_step : Bytes → Bytes → ℕ → Scanned
word_step raw [] c = fail
word_step raw (x ∷ []) c = if c == x then (word (raw ++ c ∷ []) ∷ [], idle) else fail
word_step raw (x ∷ y ∷ xs) c = if c == x then ([], in_word (raw ++ c ∷ []) (y ∷ xs)) else fail

unfoldable pub scan_step : ScanState → ℕ → Scanned
unfolding idle_step text_step number_step word_step
scan_step idle c = idle_step c
scan_step broken c = ([], broken)
scan_step (in_text s raw) c = text_step s raw c
scan_step (in_number s raw) c = number_step s raw c
scan_step (in_word raw left) c = word_step raw left c

-- The end of the input, which ends a number and breaks off anything else.
unfoldable pub scan_end : ScanState → List Item
scan_end idle = []
scan_end broken = []
scan_end (in_text s raw) = bad ∷ []
scan_end (in_number s raw) = if accepting s then number raw ∷ [] else bad ∷ []
scan_end (in_word raw left) = bad ∷ []

unfoldable pub scan_from : ScanState → Bytes → List Item
unfolding scan_step scan_end
scan_from s [] = scan_end s
scan_from s (c ∷ cs) = (scan_step s c).0 ++ scan_from (scan_step s c).1 cs

unfoldable pub scan : Bytes → List Item
unfolding scan_from
scan data_bytes = scan_from idle data_bytes
