-- ===== src/Client/Failure.antt =====
-- `PlatformError` and `decodePlatformError` of client/errors.go.
pub mod Rules
use nekiro_sdk_go.Prelude.{
  ℕ, zero, suc, ◌+◌, ◌-◌, Bytes, Bool, true, false, List, [], ◌∷◌, ◌&&◌, ◌||◌, not, bytes_eq, codes,
  if◌then◌else◌, Option, none, some,
}
use nekiro_sdk_go.Errors.{GoError, plain, wrap, platform, PlatformError, Result, ok, err}
use nekiro_sdk_go.Http.{Header}
use nekiro_sdk_go.Json.Scanner.{
  Item, punct, text, open_object, close_object, open_array, close_array, colon, comma, scan,
}
use nekiro_sdk_go.Json.Decoder.{single_value}
use nekiro_sdk_go.Json.Unquote.{unquote}
use nekiro_sdk_go.Json.Compact.{valid_from}
use nekiro_sdk_go.Client.Members.{reject_duplicate_json_members}
use nekiro_sdk_go.Client.Body.{
  Body, require_media_type, require_trace_header, read_and_close_bounded, close_with_error,
}
use nekiro_sdk_go.Client.Codes.{Code, valid_platform_error_status}

-- What the contracts module supplies: the codes, `ParseTraceID`, the validators of the two error
-- shapes, and the decoding of a valid one.
pub record FailureContract : Type 0 where
  pub spelling : Code → Bytes
  pub parse_trace : Bytes → Option GoError
  pub validate_correlated : Bytes → Option GoError
  pub validate_pre_correlation : Bytes → Option GoError
  pub decode_correlated : Bytes → Result PlatformError
  pub decode_pre_correlation : Bytes → Result (Bytes × Bytes)

-- `Correlated`
abbrev pub correlated : PlatformError → Bool
correlated e = not (bytes_eq e.invocation_id []) && not (bytes_eq e.root_task_id [])

-- Whether a member of the outermost object has the name; `depth` counts the open brackets.
unfoldable pub names_member : Bytes → ℕ → List Item → Bool
unfolding bytes_eq unquote
names_member name depth [] = false
names_member name depth (punct open_object ∷ items) = names_member name (suc depth) items
names_member name depth (punct open_array ∷ items) = names_member name (suc depth) items
names_member name depth (punct close_object ∷ items) = names_member name (depth - 1) items
names_member name depth (punct close_array ∷ items) = names_member name (depth - 1) items
names_member name (suc zero) (text raw ∷ punct colon ∷ items) =
    bytes_eq (unquote raw) name || names_member name (suc zero) items
names_member name depth (i ∷ items) = names_member name depth items

abbrev opens_object : List Item → Bool
opens_object (punct open_object ∷ _) = true
opens_object _ = false

-- `json.Unmarshal(body, &members)` into a map that must not stay nil.
unfoldable pub is_object : Bytes → Bool
unfolding valid_from scan
is_object content = opens_object (scan content) && valid_from (scan content) single_value []

unfoldable pub has_member : Bytes → Bytes → Bool
unfolding names_member scan
has_member name content = names_member name 0 (scan content)

abbrev pub error_invalid : GoError
error_invalid = plain "clientsdk: Gateway error response is invalid"

abbrev pub same_bool : Bool → Bool → Bool
same_bool true b = b
same_bool false b = not b

module _ (contract : FailureContract) where
  -- The error of the two shapes, with the Trace that the body names.
  abbrev correlated_error : ℕ → Bytes → Option PlatformError
  correlated_error status body = elim (contract.validate_correlated body) [
    | some _ ↦ none
    | none ↦ elim (contract.decode_correlated body) [
      | err _ ↦ none
      | ok value ↦ some (record value { status_code = status })
    ]
  ]

  abbrev pre_correlation_error : ℕ → Bytes → Option PlatformError
  pre_correlation_error status body = elim (contract.validate_pre_correlation body) [
    | some _ ↦ none
    | none ↦ elim (contract.decode_pre_correlation body) [
      | err _ ↦ none
      | ok value ↦ some (record {
        status_code = status;
        code = value.0;
        trace_id = value.1;
        invocation_id = [];
        root_task_id = [];
      })
    ]
  ]

  abbrev pub wire_error : Bool → ℕ → Bytes → Option PlatformError
  wire_error true status body = correlated_error status body
  wire_error false status body = pre_correlation_error status body

  -- The checks on an error and its Trace header.
  abbrev pub settled : ℕ → Bytes → Option PlatformError → GoError
  settled status trace none = error_invalid
  settled status trace (some value) =
      if not (bytes_eq value.trace_id trace)
      then error_invalid
      else if valid_platform_error_status contract.spelling status value.code (correlated value)
      then platform value
      else error_invalid

  -- The part of `decodePlatformError` behind the reading of the body.
  unfoldable pub decode_error_body : ℕ → Bytes → Bytes → GoError
  unfolding reject_duplicate_json_members is_object has_member bytes_eq valid_platform_error_status
  decode_error_body status trace body = elim (reject_duplicate_json_members body) [
    | err _ ↦ error_invalid
    | ok _ ↦
        let with_invocation = has_member (codes "invocationId") body in
        let with_root_task = has_member (codes "rootTaskId") body in
        if not (is_object body)
        then error_invalid
        else if not (same_bool with_invocation with_root_task)
        then error_invalid
        else settled status trace (wire_error with_invocation status body)
  ]

  -- `decodePlatformError`
  unfoldable pub decode_platform_error : ℕ → ℕ → Header → Body → GoError × Body
  unfolding decode_error_body require_media_type require_trace_header read_and_close_bounded
      close_with_error
  decode_platform_error limit status header b =
      elim (require_media_type header (codes "application/json")) [
        | err _ ↦ close_with_error b error_invalid
        | ok _ ↦ elim (require_trace_header contract.parse_trace header) [
          | err _ ↦ close_with_error b error_invalid
          | ok trace ↦
              let (content, b') = read_and_close_bounded limit b in
              elim content [
                | err e ↦ (wrap "clientsdk: read Gateway error response" e, b')
                | ok body ↦ (decode_error_body status trace body, b')
              ]
        ]
      ]
