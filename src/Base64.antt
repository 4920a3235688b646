-- ===== src/Base64.antt =====
-- `base64.RawURLEncoding.Strict().DecodeString` of Go's standard library.
use nekiro_sdk_go.Prelude.{
  ℕ, ◌+◌, ◌-◌, ◌*◌, ◌/◌, ◌%◌, Bytes, Bool, [], ◌∷◌, ◌&&◌, ◌||◌, leb, ◌==◌, if◌then◌else◌, Option,
  none, some,
}

abbrev in_range : ℕ → ℕ → ℕ → Bool
in_range lo hi c = leb lo c && leb c hi

-- The value of a character of the URL alphabet; 64 for any other byte.
sextet : ℕ → ℕ
sextet c =
    if in_range b'A' b'Z' c
    then c - b'A'
    else if in_range b'a' b'z' c
    then c - b'a' + 26
    else if in_range b'0' b'9' c
    then c - b'0' + 52
    else if c == b'-'
    then 62
    else if c == b'_'
    then 63
    else 64

abbrev is_sextet : ℕ → Bool
is_sextet c = leb (sextet c) 63

abbrev prepend : Bytes → Option Bytes → Option Bytes
prepend front none = none
prepend front (some back) = some (go front)
  where
    go : Bytes → Bytes
    go [] = back
    go (x ∷ xs) = x ∷ go xs

-- Groups of four characters; the unused bits of a shorter last group must be zero.
decode_groups : Bytes → Option Bytes
unfolding sextet
decode_groups [] = some []
decode_groups (a ∷ []) = none
decode_groups (a ∷ b ∷ []) =
    if is_sextet a && is_sextet b && sextet b % 16 == 0
    then some ((sextet a * 4 + sextet b / 16) ∷ [])
    else none
decode_groups (a ∷ b ∷ c ∷ []) =
    if is_sextet a && is_sextet b && is_sextet c && sextet c % 4 == 0
    then some ((sextet a * 4 + sextet b / 16) ∷ (sextet b % 16 * 16 + sextet c / 4) ∷ [])
    else none
decode_groups (a ∷ b ∷ c ∷ d ∷ rest) =
    let front =
      (sextet a * 4 + sextet b / 16)
      ∷ (sextet b % 16 * 16 + sextet c / 4)
      ∷ (sextet c % 4 * 64 + sextet d)
      ∷ [] in
    let whole = prepend front (decode_groups rest) in
    if is_sextet a && is_sextet b && is_sextet c && is_sextet d then whole else none

-- The decoder passes over line ends.
drop_line_ends : Bytes → Bytes
drop_line_ends [] = []
drop_line_ends (c ∷ cs) =
    let rest = drop_line_ends cs in if c == 10 || c == 13 then rest else c ∷ rest

unfoldable pub decode_base64 : Bytes → Option Bytes
unfolding decode_groups drop_line_ends
decode_base64 s = decode_groups (drop_line_ends s)
