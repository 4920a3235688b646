-- ===== src/Client/MemberTests.antt =====
-- Tests of the duplicate-member check of client/json.go.
use nekiro_sdk_go.Prelude.{Bytes, [], ◌∷◌, ◌++◌, length, codes, ◌≡◌, ◌↔◌, refl}
use nekiro_sdk_go.Errors.{ok}
use nekiro_sdk_go.Json.Scanner.{scan}
use nekiro_sdk_go.Json.Decoder.{new_decoder}
use nekiro_sdk_go.Json.Tree.{
  Value, text_value, word_value, object, array, no_member, member, no_element, element, value_items,
}
use nekiro_sdk_go.Client.Members.{fuel_for, walk, reject_duplicate_json_members}
use nekiro_sdk_go.Client.Members.Fuel.{Ends, walk-Ends}
use nekiro_sdk_go.Client.Members.Trees.{value_repeat}
use nekiro_sdk_go.Client.Members.Accepts.{verdict, reject_duplicate_json_members-verdict}
use nekiro_sdk_go.Client.Members.Distinct.{Distinct, reject_duplicate_json_members-Distinct}

abbrev quoted : Bytes → Bytes
quoted s = b'"' ∷ (s ++ b'"' ∷ [])

-- `{"a":[true],"b":{"a":"x","a":null}}`
abbrev repeated : Bytes
repeated =
    codes "{"
    ++ quoted (codes "a")
    ++ codes ":[true],"
    ++ quoted (codes "b")
    ++ codes ":{"
    ++ quoted (codes "a")
    ++ codes ":"
    ++ quoted (codes "x")
    ++ codes ","
    ++ quoted (codes "a")
    ++ codes ":null}}"

abbrev repeated_value : Value
repeated_value = object (
    member (quoted (codes "a")) (array (element (word_value (codes "true")) no_element)) (
      member (quoted (codes "b"))
        (object (
          member (quoted (codes "a")) (text_value (quoted (codes "x")))
            (member (quoted (codes "a")) (word_value (codes "null")) no_member)))
        no_member))

repeated-items : scan repeated ≡ value_items repeated_value []
unfolding scan value_items
repeated-items = refl

reject_duplicate_json_members-verdict_example :
    reject_duplicate_json_members repeated ≡ verdict (value_repeat repeated_value)
reject_duplicate_json_members-verdict_example =
    reject_duplicate_json_members-verdict repeated repeated_value repeated-items
      ((tt, tt), ((tt, (tt, tt)), tt))

reject_duplicate_json_members-Distinct_example :
    (reject_duplicate_json_members repeated ≡ ok tt) ↔ Distinct repeated_value
reject_duplicate_json_members-Distinct_example =
    reject_duplicate_json_members-Distinct repeated repeated_value repeated-items
      ((tt, tt), ((tt, (tt, tt)), tt))

walk-Ends_example :
    Ends
      (length (new_decoder repeated).items)
      (walk (fuel_for (new_decoder repeated)) (new_decoder repeated))
walk-Ends_example = walk-Ends (new_decoder repeated)
