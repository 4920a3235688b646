-- ===== src/Client/Members.antt =====
-- `rejectDuplicateJSONMembers` and `requireEOF` of client/json.go; agent/client.go has the same
-- text.
pub mod Fuel
pub mod Trees
mod Steps
pub mod Accepts
pub mod Distinct
use nekiro_sdk_go.Prelude.{
  ℕ, zero, suc, Bytes, Bool, true, false, List, [], ◌∷◌, ◌||◌, ◌*◌, length, if◌then◌else◌, Option,
  none, some, bytes_eq,
}
use nekiro_sdk_go.Errors.{GoError, plain, quoted, Result, ok, err}
use nekiro_sdk_go.Json.Scanner.{open_object, open_array}
use nekiro_sdk_go.Json.Decoder.{
  Decoder, Token, delim, string, scalar, token, more, new_decoder, decode_trailing, at_eof,
  another_value,
}

-- A call that ends within its fuel, with a result or an error; `none` when the fuel runs out.
abbrev pub Run : Type 0 → Type 0
Run A = Option (Result A)

infixl 5 ◌>>=◌
abbrev pub ◌>>=◌ : {A B : Type 0} → Run A → (A → Run B) → Run B
none >>= f = none
some (ok a) >>= f = f a
some (err e) >>= f = some (err e)

abbrev pub is_seen : Bytes → List Bytes → Bool
is_seen key [] = false
is_seen key (k ∷ seen) = bytes_eq k key || is_seen key seen

abbrev pub duplicate_member : Bytes → GoError
duplicate_member key = quoted "duplicate JSON object member" key

abbrev pub invalid_name : GoError
invalid_name = plain "JSON object member name is invalid"

-- `_, err = decoder.Token(); return err`
abbrev pub end_token : Decoder → Run Decoder
end_token d = some (elim (token d) [ ok r ↦ ok r.1 | err e ↦ err e ])

-- `key, ok := keyToken.(string)`, and the look at `seen`, before the member's value is walked.
abbrev pub fresh_key : List Bytes → Token → (Bytes → Run Decoder) → Run Decoder
fresh_key seen (string key) k = elim (is_seen key seen) [
  | true ↦ some (err (duplicate_member key))
  | false ↦ k key
]
fresh_key seen _ k = some (err invalid_name)

-- The closure `walk`, and the loops over `decoder.More()` of an object and of an array.
unfoldable mutual
  pub walk : ℕ → Decoder → Run Decoder
  walk zero d = none
  walk (suc fuel) d = do
    r ← some (token d)
    elim r.0 [
      | delim open_object ↦ walk_members fuel r.1 []
      | delim open_array ↦ walk_elements fuel r.1
      | delim _ ↦ some (err (plain "unexpected JSON delimiter"))
      | string _ ↦ some (ok r.1)
      | scalar ↦ some (ok r.1)
    ]

  pub walk_members : ℕ → Decoder → List Bytes → Run Decoder
  walk_members zero d seen = none
  walk_members (suc fuel) d seen = elim (more d) [
    | false ↦ end_token d
    | true ↦ do
      r ← some (token d)
      fresh_key seen r.0 λ key. do d' ← walk fuel r.1; walk_members fuel d' (key ∷ seen)
  ]

  pub walk_elements : ℕ → Decoder → Run Decoder
  walk_elements zero d = none
  walk_elements (suc fuel) d = elim (more d) [
    | false ↦ end_token d
    | true ↦ do d' ← walk fuel d; walk_elements fuel d'
  ]

-- The fuel that `walk` is given: two rounds for each item, and one more.
abbrev pub fuel_for : Decoder → ℕ
fuel_for d = suc (2 * length d.items)

abbrev settle : Run Decoder → Result Decoder
settle none = err (plain "out of fuel")
settle (some r) = r

unfoldable pub require_eof : Decoder → Result (Unit {0})
unfolding decode_trailing
require_eof d = elim (decode_trailing d) [
  | at_eof ↦ ok tt
  | another_value ↦ err (plain "unexpected trailing JSON value")
]

unfoldable pub reject_decoder : Decoder → Result (Unit {0})
reject_decoder d = elim (settle (walk (fuel_for d) d)) [ err e ↦ err e | ok d' ↦ require_eof d' ]

unfoldable pub reject_duplicate_json_members : Bytes → Result (Unit {0})
reject_duplicate_json_members content = reject_decoder (new_decoder content)

-- What a test of the check runs.
unfoldable pub program : Unit {0}
unfolding reject_duplicate_json_members reject_decoder require_eof walk token new_decoder
program = tt
