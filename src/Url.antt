-- ===== src/Url.antt =====
-- What the program uses of Go's net/url: `Parse`, `Hostname`, `Port`, and `String` of a URL that has only
-- a scheme and a host.
pub mod Escape
use nekiro_sdk_go.Prelude.{
  ℕ, zero, suc, ◌+◌, ◌-◌, Bytes, Bool, true, false, [], ◌∷◌, ◌++◌, ◌&&◌, ◌||◌, not, all, any, ltb,
  leb, ◌==◌, bytes_eq, contains_byte, has_prefix, codes, if◌then◌else◌, Option, none, some, map,
  drop,
}
use nekiro_sdk_go.Http.{is_upper, is_lower, is_digit, to_lower}
use nekiro_sdk_go.Errors.{GoError, plain, Result, ok, err, ◌>>=◌, ◌>>◌, guard}
use nekiro_sdk_go.Url.Escape.{
  Mode, encode_path, encode_user, encode_host, encode_fragment, escape, unescape,
}

pub record Url : Type 0 where
  pub scheme : Bytes
  pub opaque : Bytes
  pub user : Bool
  pub host : Bytes
  pub path : Bytes
  pub raw_path : Bytes
  pub raw_query : Bytes
  pub force_query : Bool
  pub fragment : Bytes
  pub raw_fragment : Bytes

-- The parts of the library that differ between releases of Go or rest on Unicode tables: the reading of a
-- host with a bracket, and `strings.ToLower` of a text that is not ASCII.
pub record UrlLibrary : Type 0 where
  pub read_literal : Bytes → Result Bytes
  pub lower_unicode : Bytes → Bytes

-- What is before the first such byte, and what is behind it.
unfoldable pub cut : ℕ → Bytes → Bytes × Option Bytes
cut c [] = ([], none)
cut c (x ∷ xs) = let r = cut c xs in if x == c then ([], some xs) else (x ∷ r.0, r.1)

-- The same at the last such byte: none if there is no such byte.
unfoldable pub cut_last : ℕ → Bytes → Option (Bytes × Bytes)
cut_last c [] = none
cut_last c (x ∷ xs) = elim (cut_last c xs) [
  | some (before, behind) ↦ some (x ∷ before, behind)
  | none ↦ if x == c then some ([], xs) else none
]

is_letter : ℕ → Bool
is_letter c = is_upper c || is_lower c

is_scheme_byte : ℕ → Bool
is_scheme_byte c = is_digit c || c == b'+' || c == b'-' || c == b'.'

-- The loop of `getScheme`: none where a byte shows that there is no scheme.
scheme_from : Bool → Bytes → Option (Bytes × Bytes)
scheme_from first [] = none
scheme_from first (c ∷ cs) =
    let rest = scheme_from false cs in
    if is_letter c || (is_scheme_byte c && not first)
    then elim rest [ none ↦ none | some (scheme, behind) ↦ some (c ∷ scheme, behind) ]
    else if c == b':' && not first
    then some ([], cs)
    else none

starts_with_colon : Bytes → Bool
starts_with_colon [] = false
starts_with_colon (c ∷ cs) = c == b':'

-- `getScheme`, with the scheme in lower case.
get_scheme : Bytes → Result (Bytes × Bytes)
unfolding scheme_from starts_with_colon is_letter is_scheme_byte
get_scheme text =
    if starts_with_colon text
    then err (plain "missing protocol scheme")
    else elim (scheme_from true text) [
      | none ↦ ok ([], text)
      | some (scheme, rest) ↦ ok (map to_lower scheme, rest)
    ]

-- `validOptionalPort`
valid_optional_port : Bytes → Bool
valid_optional_port [] = true
valid_optional_port (c ∷ cs) = c == b':' && all is_digit cs

-- What follows the first colon, with it: since Go 1.26 a host without brackets holds no other colon.
port_part : Bytes → Bytes
port_part host = elim (cut b':' host).1 [ none ↦ [] | some port ↦ b':' ∷ port ]

-- `parseHost`
unfoldable pub parse_host : UrlLibrary → Bytes → Result Bytes
unfolding valid_optional_port port_part cut contains_byte
parse_host lib host =
    if contains_byte b'[' host
    then lib.read_literal host
    else if valid_optional_port (port_part host)
    then unescape encode_host host
    else err (plain "invalid port after host")

-- `validUserinfo`
valid_userinfo : Bytes → Bool
valid_userinfo = all λ c. is_letter c || is_digit c || contains_byte c (codes "-._:~!$&'()*+,;=%@")

-- The two parts of the user information, which must unescape.
check_userinfo : Bytes → Result (Unit {0})
unfolding valid_userinfo is_letter cut contains_byte
check_userinfo info =
    if not (valid_userinfo info)
    then err (plain "net/url: invalid userinfo")
    else (let (name, password) = cut b':' info in
        do
          _ ← unescape encode_user name
          _ ← unescape encode_user (elim password [ none ↦ [] | some p ↦ p ])
          ok tt)

-- `parseAuthority`: whether there is user information, and the host.
parse_authority : UrlLibrary → Bytes → Result (Bool × Bytes)
unfolding check_userinfo parse_host cut_last
parse_authority lib authority = elim (cut_last b'@' authority) [
  | none ↦ do host ← parse_host lib authority; ok (false, host)
  | some (info, rest) ↦ do host ← parse_host lib rest; _ ← check_userinfo info; ok (true, host)
]

-- The escaped form that is kept where it is not the one that `escape` yields.
raw_of : Mode → Bytes → Bytes → Bytes
raw_of mode written read = if bytes_eq (escape mode read) written then [] else written

-- The query: whether the URL ends in its only `?`, and else what is behind the first one.
split_query : Bytes → Bytes × Bool × Bytes
unfolding cut
split_query text =
    let (rest, query) = cut b'?' text in
    elim query [
      | none ↦ (rest, false, [])
      | some [] ↦ (rest, true, [])
      | some (c ∷ cs) ↦ (rest, false, c ∷ cs)
    ]

is_control : ℕ → Bool
is_control c = ltb c 0x20 || c == 0x7f

-- The authority, and the path from the next `/` on.
split_authority : Bytes → Bytes × Bytes
unfolding cut
split_authority text =
    let (authority, path) = cut b'/' text in
    elim path [ none ↦ (authority, []) | some p ↦ (authority, b'/' ∷ p) ]

abbrev with_path : Url → Bytes → Result Url
with_path u written = do
  path ← unescape encode_path written
  ok (record u { path = path; raw_path = raw_of encode_path written path })

abbrev pub no_url : Url
no_url = record {
  scheme = [];
  opaque = [];
  user = false;
  host = [];
  path = [];
  raw_path = [];
  raw_query = [];
  force_query = false;
  fragment = [];
  raw_fragment = [];
}

-- The first path segment of a text without a scheme must hold no colon.
segment_has_colon : Bytes → Bool
unfolding cut contains_byte
segment_has_colon text = contains_byte b':' (cut b'/' text).0

-- `parse` behind the splitting of scheme and query.
parse_rest : UrlLibrary → Url → Bytes → Result Url
unfolding parse_authority split_authority segment_has_colon raw_of has_prefix
parse_rest lib u rest =
    if not (has_prefix (codes "/") rest) && not (bytes_eq u.scheme [])
    then ok (record u { opaque = rest })
    else if not (has_prefix (codes "/") rest) && segment_has_colon rest
    then err (plain "first path segment in URL cannot contain colon")
    else if (not (bytes_eq u.scheme []) || not (has_prefix (codes "///") rest))
        && has_prefix (codes "//") rest
    then (let (authority, path) = split_authority (drop 2 rest) in
        do
          found ← parse_authority lib authority
          with_path (record u { user = found.0; host = found.1 }) path)
    else with_path u rest

-- `parse(rawURL, false)`
parse_unfragmented : UrlLibrary → Bytes → Result Url
unfolding parse_rest split_query get_scheme is_control
parse_unfragmented lib text =
    if any is_control text
    then err (plain "net/url: invalid control character in URL")
    else if bytes_eq text (codes "*")
    then ok (record no_url { path = codes "*" })
    else do
      found ← get_scheme text
      let (rest, forced, query) = split_query found.1
      parse_rest lib (record no_url { scheme = found.0; force_query = forced; raw_query = query })
          rest

with_fragment : Url → Option Bytes → Result Url
unfolding raw_of
with_fragment u none = ok u
with_fragment u (some []) = ok u
with_fragment u (some (c ∷ cs)) = do
  fragment ← unescape encode_fragment (c ∷ cs)
  ok (record u { fragment = fragment; raw_fragment = raw_of encode_fragment (c ∷ cs) fragment })

-- `url.Parse`
unfoldable pub parse : UrlLibrary → Bytes → Result Url
unfolding parse_unfragmented with_fragment cut
parse lib text =
    let (rest, fragment) = cut b'#' text in
    do u ← parse_unfragmented lib rest; with_fragment u fragment

-- `splitHostPort`: the host without its port, and the port.
split_host_port : Bytes → Bytes × Bytes
unfolding cut_last
split_host_port host = elim (cut_last b':' host) [
  | none ↦ (host, [])
  | some (before, port) ↦ if all is_digit port then (before, port) else (host, [])
]

-- The brackets around an address.
unbracketed : Bytes → Bytes
unfolding cut_last
unbracketed [] = []
unbracketed (c ∷ cs) = elim (cut_last b']' cs) [
  | some (inside, []) ↦ if c == b'[' then inside else c ∷ cs
  | _ ↦ c ∷ cs
]

unfoldable pub hostname : Url → Bytes
unfolding split_host_port unbracketed
hostname u = unbracketed (split_host_port u.host).0

unfoldable pub port : Url → Bytes
unfolding split_host_port
port u = (split_host_port u.host).1

-- `String` of a URL with a scheme and a host, and nothing else.
unfoldable pub origin_text : Url → Bytes
origin_text u = u.scheme ++ (codes "://" ++ escape encode_host u.host)

is_ascii : Bytes → Bool
is_ascii = all λ c. ltb c 0x80

-- `strings.ToLower`
unfoldable pub lower : UrlLibrary → Bytes → Bytes
unfolding is_ascii
lower lib text = if is_ascii text then map to_lower text else lib.lower_unicode text
