-- ===== src/Json/Unquote.antt =====
-- What a JSON string literal stands for: `unquote` of `encoding/json`, with UTF-16 escapes and the
-- replacement of invalid UTF-8 by U+FFFD.
use Prim.Native.Nat.{pred}
use nekiro_sdk_go.Prelude.{
  ℕ, suc, zero, ◌+◌, ◌-◌, ◌*◌, ◌/◌, ◌%◌, Bytes, Bool, true, false, [], ◌∷◌, ◌++◌, ◌&&◌, length,
  take, drop, leb, ltb, ◌==◌, if◌then◌else◌,
}

abbrev hex_digit : ℕ → ℕ
hex_digit c = if leb c b'9' then c - b'0' else if leb c b'F' then c - b'A' + 10 else c - b'a' + 10

-- Four hexadecimal digits.
hex4 : Bytes → ℕ
hex4 (a ∷ b ∷ c ∷ d ∷ _) = ((hex_digit a * 16 + hex_digit b) * 16 + hex_digit c) * 16 + hex_digit d
hex4 _ = 0

-- `utf8.AppendRune`
encode_rune : ℕ → Bytes
encode_rune r =
    if ltb r 0x80
    then r ∷ []
    else if ltb r 0x800
    then (0xc0 + r / 64) ∷ (0x80 + r % 64) ∷ []
    else if ltb r 0x10000
    then (0xe0 + r / 4096) ∷ (0x80 + r / 64 % 64) ∷ (0x80 + r % 64) ∷ []
    else (0xf0 + r / 262144) ∷ (0x80 + r / 4096 % 64) ∷ (0x80 + r / 64 % 64) ∷ (0x80 + r % 64) ∷ []

abbrev replacement : Bytes
replacement = 0xef ∷ 0xbf ∷ 0xbd ∷ []

abbrev is_surrogate : ℕ → Bool
is_surrogate r = leb 0xd800 r && ltb r 0xe000

abbrev between : ℕ → ℕ → ℕ → Bool
between lo hi c = leb lo c && leb c hi

abbrev is_tail : ℕ → Bool
is_tail = between 0x80 0xbf

-- The second byte that a first byte of a longer sequence admits (no overlong form, no surrogate,
-- nothing above U+10FFFF).
second_ok : ℕ → ℕ → Bool
second_ok a b =
    if a == 0xe0
    then between 0xa0 0xbf b
    else if a == 0xed
    then between 0x80 0x9f b
    else if a == 0xf0
    then between 0x90 0xbf b
    else if a == 0xf4
    then between 0x80 0x8f b
    else is_tail b

-- The length of the valid sequence at the head of a text whose first byte is not ASCII, or 0.
rune_length : Bytes → ℕ
unfolding second_ok
rune_length (a ∷ b ∷ c ∷ d ∷ _) =
    if between 0xc2 0xdf a && is_tail b
    then 2
    else if between 0xe0 0xef a && second_ok a b && is_tail c
    then 3
    else if between 0xf0 0xf4 a && second_ok a b && is_tail c && is_tail d
    then 4
    else 0
rune_length (a ∷ b ∷ c ∷ []) =
    if between 0xc2 0xdf a && is_tail b
    then 2
    else if between 0xe0 0xef a && second_ok a b && is_tail c
    then 3
    else 0
rune_length (a ∷ b ∷ []) = if between 0xc2 0xdf a && is_tail b then 2 else 0
rune_length _ = 0

simple_escape : ℕ → ℕ
simple_escape c =
    if c == b'b'
    then 8
    else if c == b'f'
    then 12
    else if c == b'n'
    then 10
    else if c == b'r'
    then 13
    else if c == b't'
    then 9
    else c

-- The text for a `\u` escape of value `r` before `rest`, and how many bytes of `rest` it takes: a
-- high surrogate joins with the escape of a low one.
escape_rune : ℕ → Bytes → Bytes × ℕ
unfolding encode_rune hex4
escape_rune r rest =
    let low = hex4 (drop 2 rest) in
    if not_surrogate
    then (encode_rune r, 0)
    else if ltb r 0xdc00 && starts_escape rest && leb 0xdc00 low && ltb low 0xe000
    then (encode_rune ((r - 0xd800) * 1024 + (low - 0xdc00) + 0x10000), 6)
    else (replacement, 0)
  where
    not_surrogate : Bool
    not_surrogate = if is_surrogate r then false else true

    starts_escape : Bytes → Bool
    starts_escape (a ∷ b ∷ _) = a == 92 && b == b'u'
    starts_escape _ = false

-- The body of a literal without its quotes; fuel bounds the number of characters.
unquote_from : ℕ → Bytes → Bytes
unfolding escape_rune simple_escape rune_length
unquote_from zero cs = []
unquote_from (suc fuel) [] = []
unquote_from (suc fuel) (c ∷ []) = if ltb c 0x80 then c ∷ [] else replacement
unquote_from (suc fuel) (c ∷ d ∷ cs) =
    let n = rune_length (c ∷ d ∷ cs) in
    let rune = escape_rune (hex4 cs) (drop 4 cs) in
    let after_rune = rune.0 ++ unquote_from fuel (drop rune.1 (drop 4 cs)) in
    let after_escape = simple_escape d ∷ unquote_from fuel cs in
    let after_ascii = c ∷ unquote_from fuel (d ∷ cs) in
    let after_invalid = replacement ++ unquote_from fuel (d ∷ cs) in
    let after_sequence = take n (c ∷ d ∷ cs) ++ unquote_from fuel (drop n (c ∷ d ∷ cs)) in
    if c == 92
    then (if d == b'u' then after_rune else after_escape)
    else if ltb c 0x80
    then after_ascii
    else if n == 0
    then after_invalid
    else after_sequence

-- The bytes between the quotes.
abbrev body : Bytes → Bytes
body [] = []
body (q ∷ raw) = take (pred (length raw)) raw

unfoldable pub unquote : Bytes → Bytes
unfolding unquote_from
unquote raw = unquote_from (length raw) (body raw)
