-- ===== src/Http.antt =====
-- `net/http` headers as the program reads them.
use nekiro_sdk_go.Prelude.{
  ℕ, ◌+◌, ◌-◌, Bytes, Bool, true, List, [], ◌∷◌, ◌&&◌, ◌||◌, all, leb, ◌==◌, codes, if◌then◌else◌,
  bytes_eq, contains_byte,
}

-- A header map as its entries, in the order of one iteration.
abbrev pub Header : Type 0
Header = List (Bytes × List Bytes)

abbrev pub is_upper : ℕ → Bool
is_upper c = leb b'A' c && leb c b'Z'

abbrev pub is_lower : ℕ → Bool
is_lower c = leb b'a' c && leb c b'z'

abbrev pub is_digit : ℕ → Bool
is_digit c = leb b'0' c && leb c b'9'

abbrev pub to_lower : ℕ → ℕ
to_lower c = if is_upper c then c + 32 else c

abbrev pub to_upper : ℕ → ℕ
to_upper c = if is_lower c then c - 32 else c

-- The bytes of a token of RFC 7230.
abbrev is_token_byte : ℕ → Bool
is_token_byte c =
    is_upper c || is_lower c || is_digit c || contains_byte c (codes "!#$%&'*+-.^_`|~")

canonical_from : Bool → Bytes → Bytes
canonical_from first [] = []
canonical_from first (c ∷ cs) =
    (if first then to_upper c else to_lower c) ∷ canonical_from (c == b'-') cs

-- `textproto.CanonicalMIMEHeaderKey`
unfoldable pub canonical_key : Bytes → Bytes
unfolding canonical_from contains_byte
canonical_key name = if all is_token_byte name then canonical_from true name else name

lookup : Bytes → Header → List Bytes
lookup key [] = []
lookup key ((k, vs) ∷ h) = if bytes_eq k key then vs else lookup key h

-- `Header.Values`
unfoldable pub values : Header → Bytes → List Bytes
unfolding lookup canonical_key bytes_eq
values h name = lookup (canonical_key name) h
