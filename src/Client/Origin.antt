-- ===== src/Client/Origin.antt =====
-- `validateGatewayOrigin` of client/config.go.
pub mod Laws
use nekiro_sdk_go.Prelude.{
  ℕ, Bytes, Bool, true, false, [], ◌∷◌, ◌&&◌, ◌||◌, not, all, ltb, ◌==◌, bytes_eq, contains_byte,
  codes, if◌then◌else◌, Option, none, some,
}
use nekiro_sdk_go.Prelude.Spaces.{trim_space}
use nekiro_sdk_go.Errors.{GoError, plain, Result, ok, err, ◌>>=◌, ◌>>◌, guard}
use nekiro_sdk_go.Strconv.{atoi, itoa}
use nekiro_sdk_go.Url.{Url, UrlLibrary, parse, hostname, port, origin_text, lower}

abbrev origin_invalid : GoError
origin_invalid = plain "clientsdk: Gateway origin is invalid"

is_visible : ℕ → Bool
is_visible c = not (ltb c 0x21 || ltb 0x7e c)

-- The tests on the parsed URL, in the order of the code; `String` is only read of a URL that has nothing
-- but its scheme and host.
url_refused : UrlLibrary → Bytes → Url → Bool
url_refused lib value u =
    (not (bytes_eq u.scheme (codes "http")) && not (bytes_eq u.scheme (codes "https")))
    || bytes_eq u.host []
    || bytes_eq (hostname u) []
    || u.user
    || not (bytes_eq u.opaque [])
    || not (bytes_eq u.path [])
    || not (bytes_eq u.raw_path [])
    || not (bytes_eq u.raw_query [])
    || u.force_query
    || not (bytes_eq u.fragment [])
    || not (bytes_eq u.raw_fragment [])
    || not (bytes_eq (origin_text u) value)
    || not (bytes_eq u.host (lower lib u.host))
    || contains_byte b'%' (hostname u)

ends_with_colon : Bytes → Bool
ends_with_colon [] = false
ends_with_colon (c ∷ []) = c == b':'
ends_with_colon (c ∷ d ∷ cs) = ends_with_colon (d ∷ cs)

-- The tests on the port's number.
port_number_refused : Bytes → Bytes → ℕ → Bool
port_number_refused scheme written n =
    not (bytes_eq (itoa n) written)
    || ltb n 1
    || ltb 65535 n
    || (bytes_eq scheme (codes "http") && n == 80)
    || (bytes_eq scheme (codes "https") && n == 443)

port_refused : Bytes → Bytes → Bool
port_refused scheme written = elim (atoi written) [
  | none ↦ true
  | some n ↦ port_number_refused scheme written n
]

-- `validateGatewayOrigin` behind `url.Parse`.
check_url : UrlLibrary → Bytes → Url → Result Bytes
check_url lib value u =
    if url_refused lib value u
    then err origin_invalid
    else if ends_with_colon u.host
    then err origin_invalid
    else if not (bytes_eq (port u) []) && port_refused u.scheme (port u)
    then err origin_invalid
    else ok value

unfoldable pub validate_gateway_origin : UrlLibrary → Bytes → Result Bytes
unfolding check_url url_refused ends_with_colon port_refused port_number_refused atoi is_visible
validate_gateway_origin lib value =
    if bytes_eq value [] || not (bytes_eq (trim_space value) value)
    then err origin_invalid
    else if not (all is_visible value)
    then err origin_invalid
    else elim (parse lib value) [ err _ ↦ err origin_invalid | ok u ↦ check_url lib value u ]
