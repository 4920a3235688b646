-- ===== src/Nacos/Values.antt =====
-- The values of a registration's configuration: the patterns, readers and checks of
-- agent/registration/nacos/config.go.
use nekiro_sdk_go.Prelude.{
  ℕ, ◌*◌, ◌%◌, ◌-◌, Bytes, Bool, true, false, List, [], ◌∷◌, ◌&&◌, ◌||◌, not, all, length, ltb, leb,
  ◌==◌, bytes_eq, contains_byte, codes, if◌then◌else◌, Option, none, some,
}
use nekiro_sdk_go.Prelude.Int.{ℤ, pos, negsuc}
use nekiro_sdk_go.Prelude.Spaces.{trim_space}
use nekiro_sdk_go.Errors.{quoted, Result, ok, err, ◌>>=◌, ◌>>◌, guard}
use nekiro_sdk_go.Http.{is_digit, is_upper, is_lower}
use nekiro_sdk_go.Strconv.{atoi}
use nekiro_sdk_go.Url.{Url, UrlLibrary, parse, lower}

-- The parts of the library that rest on the operating system or on the notation of addresses: the text
-- of the address that `net.ParseIP` reads, `filepath.IsAbs`, and `filepath.Clean`.
pub record SystemLibrary : Type 0 where
  pub urls : UrlLibrary
  pub parse_ip : Bytes → Option Bytes
  pub is_absolute : Bytes → Bool
  pub clean : Bytes → Bytes

abbrev pub Lookup : Type 0
Lookup = Bytes → Option Bytes

is_alphanumeric : ℕ → Bool
is_alphanumeric c = is_upper c || is_lower c || is_digit c

-- `identifierPattern`
unfoldable pub matches_identifier : Bytes → Bool
unfolding is_alphanumeric
matches_identifier [] = false
matches_identifier (c ∷ cs) =
    is_alphanumeric c
    && all (λ d. is_alphanumeric d || d == b'.' || d == b'_' || d == b':' || d == b'-') cs
    && leb (length cs) 127

is_prefix_byte : ℕ → Bool
is_prefix_byte c = is_upper c || is_digit c

-- The rest of `prefixPattern`; the flag says that a byte of a part has been read behind the last `_`.
prefix_from : Bool → Bytes → Bool
prefix_from inside [] = inside
prefix_from inside (c ∷ cs) =
    if is_prefix_byte c then prefix_from true cs else inside && c == b'_' && prefix_from false cs

-- `prefixPattern`
unfoldable pub matches_prefix : Bytes → Bool
unfolding prefix_from is_prefix_byte
matches_prefix [] = false
matches_prefix (c ∷ cs) = is_upper c && prefix_from true cs

-- `validTLSPath`
unfoldable pub valid_tls_path : SystemLibrary → Bytes → Bool
valid_tls_path system value =
    not (bytes_eq value [])
    && bytes_eq (trim_space value) value
    && system.is_absolute value
    && bytes_eq (system.clean value) value

has_two_dots : Bytes → Bool
has_two_dots [] = false
has_two_dots (c ∷ []) = false
has_two_dots (c ∷ d ∷ cs) = (c == b'.' && d == b'.') || has_two_dots (d ∷ cs)

ends_with : ℕ → Bytes → Bool
ends_with b [] = false
ends_with b (c ∷ []) = c == b
ends_with b (c ∷ d ∷ cs) = ends_with b (d ∷ cs)

starts_with : ℕ → Bytes → Bool
starts_with b [] = false
starts_with b (c ∷ cs) = c == b

-- The label that a text begins with, and the ones behind it.
labels_from : Bytes → Bytes × List Bytes
labels_from [] = ([], [])
labels_from (c ∷ cs) =
    let (label, labels) = labels_from cs in
    if c == b'.' then ([], label ∷ labels) else (c ∷ label, labels)

-- `strings.Split` at the dots.
labels_of : Bytes → List Bytes
unfolding labels_from
labels_of value = let (label, labels) = labels_from value in label ∷ labels

valid_label : Bytes → Bool
unfolding starts_with ends_with is_alphanumeric
valid_label label =
    not
      (length label == 0 || ltb 63 (length label) || starts_with b'-' label || ends_with b'-' label)
    && all (λ c. c == b'-' || is_alphanumeric c) label

-- The part of `validTLSServerName` for a text that is no address; `strings.Trim` leaves nothing where
-- every byte is a digit or a dot.
valid_dns_name : SystemLibrary → Bytes → Bool
unfolding has_two_dots labels_of valid_label contains_byte
valid_dns_name system value =
    if length value == 0
      || ltb 253 (length value)
      || not (bytes_eq value (lower system.urls value))
      || has_two_dots value
      || contains_byte b':' value
    then false
    else if all (λ c. is_digit c || c == b'.') value
    then false
    else all valid_label (labels_of value)

-- `validTLSServerName`
unfoldable pub valid_tls_server_name : SystemLibrary → Bytes → Bool
unfolding valid_dns_name
valid_tls_server_name system value = elim (system.parse_ip value) [
  | some text ↦ bytes_eq text value
  | none ↦ valid_dns_name system value
]

unfoldable pub required_text : Bytes → Option Bytes → Result Bytes
required_text name none = err (quoted "is required and must contain no surrounding whitespace" name)
required_text name (some value) =
    if bytes_eq value [] || not (bytes_eq (trim_space value) value)
    then err (quoted "is required and must contain no surrounding whitespace" name)
    else ok value

-- `required`
unfoldable pub required : Lookup → Bytes → Result Bytes
unfolding required_text
required lookup name = required_text name (lookup name)

identifier_or : Bytes → Result Bytes → Result Bytes
identifier_or name (err e) = err (quoted "must be a safe identifier" name)
identifier_or name (ok value) =
    if matches_identifier value then ok value else err (quoted "must be a safe identifier" name)

-- `requiredIdentifier`
unfoldable pub required_identifier : Lookup → Bytes → Result Bytes
unfolding identifier_or
required_identifier lookup name = identifier_or name (required lookup name)

unfoldable pub within : Bytes → ℕ → ℕ → Option ℕ → Result ℕ
within name minimum maximum none = err (quoted "must be an integer within its range" name)
within name minimum maximum (some n) =
    if ltb n minimum || ltb maximum n
    then err (quoted "must be an integer within its range" name)
    else ok n

-- `requiredUnsigned`
unfoldable pub required_unsigned : Lookup → Bytes → ℕ → ℕ → Result ℕ
unfolding within
required_unsigned lookup name minimum maximum = do
  value ← required lookup name
  guard (all is_digit value) (quoted "must be an unsigned base-10 integer" name)
  within name minimum maximum (atoi value)

-- A `time.Duration`, which is an `int64`, from its bits.
unfoldable pub duration_of : ℕ → ℤ
duration_of n =
    let bits = n % 18446744073709551616 in
    if leb bits 9223372036854775807 then pos bits else negsuc (18446744073709551615 - bits)

-- `requiredDuration`, in nanoseconds, whose product is one of 64 bits.
unfoldable pub required_duration : Lookup → Bytes → ℕ → ℕ → Result ℤ
required_duration lookup name minimum maximum = do
  value ← required_unsigned lookup name minimum maximum
  ok (duration_of (value * 1000000))

unfoldable pub origin_refused : Url → Bool
origin_refused u =
    (not (bytes_eq u.scheme (codes "http")) && not (bytes_eq u.scheme (codes "https")))
    || bytes_eq u.host []
    || u.user
    || not (bytes_eq u.path (codes "/nacos"))
    || not (bytes_eq u.raw_path [])
    || not (bytes_eq u.raw_query [])
    || u.force_query
    || not (bytes_eq u.fragment [])
    || not (bytes_eq u.raw_fragment [])

-- `validateOrigin`
unfoldable pub origin_of : UrlLibrary → Bytes → Bytes → Result Url
unfolding origin_refused
origin_of urls value name = elim (parse urls value) [
  | err _ ↦ err (quoted "must be an HTTP(S) URL with the exact /nacos path" name)
  | ok u ↦
      if origin_refused u
      then err (quoted "must be an HTTP(S) URL with the exact /nacos path" name)
      else ok u
]
