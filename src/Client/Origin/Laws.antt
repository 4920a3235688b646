-- ===== src/Client/Origin/Laws.antt =====
-- What `validateGatewayOrigin` of client/config.go accepts.
use nekiro_sdk_go.Prelude.{
  ℕ, ◌≤◌, Bytes, false, [], ◌++◌, bytes_eq, bytes_eq_iff, contains_byte, codes, ◌≡◌, ◌≢◌, ◌⊎◌, inl,
  inr, sym, arith, Bool-cases, Option-cases,
}
use nekiro_sdk_go.Errors.{ok, Result-cases}
use nekiro_sdk_go.Strconv.{atoi, itoa}
use nekiro_sdk_go.Url.{Url, UrlLibrary, parse, hostname, port, origin_text, lower}
use nekiro_sdk_go.Url.Escape.{escape, encode_host}
use nekiro_sdk_go.Client.Origin.{
  url_refused, check_url, port_refused, port_number_refused, validate_gateway_origin,
}

-- A port that is written out: a number from 1 to 65535 in its shortest form, not the scheme's own.
pub record IsPort (scheme written : Bytes) : Type 0 where
  pub number : ℕ
  pub shortest : itoa number ≡ written
  pub in_range : (1 ≤ number) × (number ≤ 65535)
  pub not_http : scheme ≡ codes "http" → number ≢ 80
  pub not_https : scheme ≡ codes "https" → number ≢ 443

-- The origin as `url.Parse` reads it.
pub record IsOrigin (lib : UrlLibrary) (value : Bytes) : Type 0 where
  pub url : Url
  pub parsed : parse lib value ≡ ok url
  pub scheme_known : (url.scheme ≡ codes "http") ⊎ (url.scheme ≡ codes "https")
  pub written : value ≡ url.scheme ++ (codes "://" ++ escape encode_host url.host)
  pub named : hostname url ≢ []
  pub anonymous : url.user ≡ false
  pub no_path : url.path ≡ []
  pub no_query : (url.raw_query ≡ []) × (url.force_query ≡ false)
  pub no_fragment : url.fragment ≡ []
  pub host_lower : url.host ≡ lower lib url.host
  pub no_percent : contains_byte b'%' (hostname url) ≡ false
  pub port_valid : (port url ≡ []) ⊎ IsPort url.scheme (port url)

port_number_refused-IsPort :
    (scheme written : Bytes) (n : ℕ)
    → port_number_refused scheme written n ≡ false
    → IsPort scheme written
unfolding port_number_refused
port_number_refused-IsPort scheme written n h = record {
  number = n;
  shortest = ground (arith, bytes_eq_iff (itoa n) written);
  in_range = ground arith;
  not_http = λ s. ground (arith, (bytes_eq_iff scheme (codes "http")).1 s);
  not_https = λ s. ground (arith, (bytes_eq_iff scheme (codes "https")).1 s);
}

port_refused-IsPort :
    (scheme written : Bytes) → port_refused scheme written ≡ false → IsPort scheme written
unfolding port_refused
port_refused-IsPort scheme written h = elim (Option-cases (atoi written)) [
  | inl e ↦ absurd (ground arith)
  | inr (n, e) ↦ port_number_refused-IsPort scheme written n (ground arith)
]

module _ (lib : UrlLibrary) (value : Bytes) where
  url_refused-IsOrigin :
      (u : Url)
      → parse lib value ≡ ok u
      → url_refused lib value u ≡ false
      → (port u ≡ []) ⊎ IsPort u.scheme (port u)
      → IsOrigin lib value
  unfolding url_refused origin_text
  url_refused-IsOrigin u p h k = record {
    url = u;
    parsed = p;
    scheme_known = known;
    written = sym (ground (arith, bytes_eq_iff (origin_text u) value));
    named = ground (arith, bytes_eq_iff (hostname u) []);
    anonymous = ground arith;
    no_path = ground (arith, bytes_eq_iff u.path []);
    no_query = ground (arith, bytes_eq_iff u.raw_query []);
    no_fragment = ground (arith, bytes_eq_iff u.fragment []);
    host_lower = ground (arith, bytes_eq_iff u.host (lower lib u.host));
    no_percent = ground arith;
    port_valid = k;
  }
    where
      known : (u.scheme ≡ codes "http") ⊎ (u.scheme ≡ codes "https")
      known = elim (Bool-cases (bytes_eq u.scheme (codes "http"))) [
        | inl e ↦ inl ((bytes_eq_iff u.scheme (codes "http")).0 e)
        | inr e ↦ inr ((bytes_eq_iff u.scheme (codes "https")).0 (ground (arith, h, e)))
      ]

  -- An origin is accepted only as it is written, and only if it is a URL of `http` or `https` that has
  -- just a scheme and a host: no user information, path, query or fragment; the host is named, is in
  -- lower case and holds no percent sign; and a port, if there is one, is the shortest form of a number
  -- from 1 to 65535 that is not the scheme's own.
  pub validate_gateway_origin-IsOrigin :
      (origin : Bytes)
      → validate_gateway_origin lib value ≡ ok origin
      → (origin ≡ value) × IsOrigin lib value
  unfolding validate_gateway_origin check_url
  validate_gateway_origin-IsOrigin origin h = elim (Result-cases (parse lib value)) [
    | inr (e, p) ↦ absurd (ground arith)
    | inl (u, p) ↦
        let refused : url_refused lib value u ≡ false = ground arith in
        (
          ground arith,
          url_refused-IsOrigin u p refused (elim (Bool-cases (bytes_eq (port u) [])) [
            | inl e ↦ inl ((bytes_eq_iff (port u) []).0 e)
            | inr e ↦ inr (port_refused-IsPort u.scheme (port u) (ground arith))
          ]),
        )
  ]
