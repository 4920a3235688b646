-- ===== src/Strconv.antt =====
-- What the program uses of Go's strconv: decimal numbers without a sign.
use nekiro_sdk_go.Prelude.{
  ℕ, zero, suc, ◌+◌, ◌-◌, ◌*◌, ◌/◌, ◌%◌, Bytes, [], ◌∷◌, ltb, leb, if◌then◌else◌, Option, none,
  some,
}

-- The value of a text of decimal digits.
unfoldable pub decimal_value : ℕ → Bytes → ℕ
decimal_value acc [] = acc
decimal_value acc (c ∷ cs) = decimal_value (acc * 10 + (c - 48)) cs

-- `strconv.Atoi`, or `strconv.ParseInt` to the base 10, of a text of digits: an `int` has 64 bits.
unfoldable pub atoi : Bytes → Option ℕ
unfolding decimal_value
atoi text = let n = decimal_value 0 text in if leb n 9223372036854775807 then some n else none

-- The digits of a number, the last one first; twenty are enough for 64 bits.
digits_from : ℕ → ℕ → Bytes → Bytes
digits_from zero n acc = acc
digits_from (suc fuel) n acc =
    let rest = digits_from fuel (n / 10) ((n % 10 + 48) ∷ acc) in
    if ltb n 10 then (n + 48) ∷ acc else rest

-- `strconv.Itoa` of a number that is not negative.
unfoldable pub itoa : ℕ → Bytes
unfolding digits_from
itoa n = digits_from 20 n []
