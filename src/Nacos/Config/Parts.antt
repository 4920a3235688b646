-- ===== src/Nacos/Config/Parts.antt =====
-- What the tests of `Validate` of agent/registration/nacos/config.go on the endpoint, the durations, the
-- authentication, the TLS fields and the origin let through.
use nekiro_sdk_go.Prelude.{
  ℕ, ◌≤◌, Bytes, true, false, [], codes, Option, none, some, ◌≡◌, ◌≢◌, refl, ap, subst, ◌⊎◌, inl,
  inr, arith, bytes_eq, bytes_eq_iff, Bool-cases,
}
use nekiro_sdk_go.Prelude.Int.{pos, negsuc, ◌≤ℤ◌, ◌<ℤ◌}
use nekiro_sdk_go.Prelude.Spaces.{trim_space}
use nekiro_sdk_go.Errors.{ok, Result-cases}
use nekiro_sdk_go.Url.{Url, UrlLibrary, parse}
use nekiro_sdk_go.Nacos.Values.{
  SystemLibrary, valid_tls_path, valid_tls_server_name, origin_of, origin_refused,
}
use nekiro_sdk_go.Nacos.Config.{
  Config, Float64, whole, behind, infinite, nan, is_canonical, weight_refused, endpoint_refused,
  timing_refused, auth_refused, pair_refused, check_tls,
}

pub record IsEndpoint (system : SystemLibrary) (c : Config) : Type 0 where
  pub address : system.parse_ip c.advertised_ip ≡ some c.advertised_ip
  pub port_range : (pos 1 ≤ℤ c.advertised_port) × (c.advertised_port ≤ℤ pos 65535)
  pub weight_range : (n : ℕ) × (c.weight ≡ whole (pos n)) × (1 ≤ n) × (n ≤ 10000)

weight_refused-whole :
    (w : Float64) → weight_refused w ≡ false → (n : ℕ) × (w ≡ whole (pos n)) × (1 ≤ n) × (n ≤ 10000)
unfolding weight_refused
weight_refused-whole (whole (pos n)) h = (n, refl, ground arith, ground arith)
weight_refused-whole (whole (negsuc n)) h = absurd (ground arith)
weight_refused-whole (behind n) h = absurd (ground arith)
weight_refused-whole (infinite positive) h = absurd (ground arith)
weight_refused-whole nan h = absurd (ground arith)

is_canonical-some :
    (value : Bytes) (text : Option Bytes) → is_canonical value text ≡ true → text ≡ some value
is_canonical-some value none h = absurd (ground arith)
is_canonical-some value (some text) h = ap some ((bytes_eq_iff text value).0 h)

pub endpoint_refused-IsEndpoint :
    (system : SystemLibrary) (c : Config) → endpoint_refused system c ≡ false → IsEndpoint system c
unfolding endpoint_refused
endpoint_refused-IsEndpoint system c h = record {
  address = is_canonical-some c.advertised_ip (system.parse_ip c.advertised_ip) (ground arith);
  port_range = (ground arith, ground arith);
  weight_range = weight_refused-whole c.weight (ground arith);
}

-- An interval from a second to a minute, below the timeout; the timeout below the deletion's; each
-- request from 100 ms to a minute.
pub record IsTiming (c : Config) : Type 0 where
  pub interval :
      (pos 1000000000 ≤ℤ c.heartbeat_interval) × (c.heartbeat_interval ≤ℤ pos 60000000000)
  pub timeout :
      (c.heartbeat_interval <ℤ c.heartbeat_timeout) × (c.heartbeat_timeout ≤ℤ pos 300000000000)
  pub deletion :
      (c.heartbeat_timeout <ℤ c.ip_delete_timeout) × (c.ip_delete_timeout ≤ℤ pos 600000000000)
  pub request : (pos 100000000 ≤ℤ c.request_timeout) × (c.request_timeout ≤ℤ pos 60000000000)

pub timing_refused-IsTiming : (c : Config) → timing_refused c ≡ false → IsTiming c
unfolding timing_refused
timing_refused-IsTiming c h = record {
  interval = (ground arith, ground arith);
  timeout = (ground arith, ground arith);
  deletion = (ground arith, ground arith);
  request = (ground arith, ground arith);
}

-- No token without authentication; with it, one that has no space around it.
abbrev pub IsAuth : Config → Type 0
IsAuth c =
    ((c.auth_mode ≡ codes "none") × (c.access_token ≡ []))
    ⊎ ((c.auth_mode ≡ codes "access_token")
        × (c.access_token ≢ [])
        × (trim_space c.access_token ≡ c.access_token))

pub auth_refused-IsAuth : (c : Config) → auth_refused c ≡ false → IsAuth c
unfolding auth_refused
auth_refused-IsAuth c h = elim (Bool-cases (bytes_eq c.auth_mode (codes "none"))) [
  | inl e ↦
      inl ((bytes_eq_iff c.auth_mode _).0 e, (bytes_eq_iff c.access_token []).0 (ground arith))
  | inr e ↦ inr (
    (bytes_eq_iff c.auth_mode (codes "access_token")).0 (ground arith),
    (λ n.
        let same = (bytes_eq_iff (trim_space c.access_token) c.access_token).0 (ground arith) in
        let nothing : trim_space c.access_token ≡ [] = cc in
        let tested = (bytes_eq_iff (trim_space c.access_token) []).1 nothing in ground arith),
    (bytes_eq_iff (trim_space c.access_token) c.access_token).0 (ground arith),
  )
]

-- No TLS field for HTTP; for HTTPS a trust root and a server name, and a client's certificate and key
-- both or neither.
abbrev pub IsTls : SystemLibrary → Config → Bytes → Type 0
IsTls system c scheme =
    ((scheme ≡ codes "http")
      × (c.tls_ca_file ≡ [])
      × (c.tls_server_name ≡ [])
      × (c.tls_client_cert_file ≡ [])
      × (c.tls_client_key_file ≡ []))
    ⊎ ((scheme ≡ codes "https")
        × (valid_tls_path system c.tls_ca_file ≡ true)
        × (valid_tls_server_name system c.tls_server_name ≡ true)
        × (((c.tls_client_cert_file ≡ []) × (c.tls_client_key_file ≡ []))
            ⊎ ((valid_tls_path system c.tls_client_cert_file ≡ true)
                × (valid_tls_path system c.tls_client_key_file ≡ true))))

pair_refused-false :
    (system : SystemLibrary) (c : Config)
    → pair_refused system c ≡ false
    → ((c.tls_client_cert_file ≡ []) × (c.tls_client_key_file ≡ []))
      ⊎ ((valid_tls_path system c.tls_client_cert_file ≡ true)
          × (valid_tls_path system c.tls_client_key_file ≡ true))
pair_refused-false system c h = elim (Bool-cases (bytes_eq c.tls_client_cert_file [])) [
  | inl e ↦ inl (
    (bytes_eq_iff c.tls_client_cert_file []).0 e,
    (bytes_eq_iff c.tls_client_key_file []).0 (ground arith),
  )
  | inr e ↦ inr (ground arith, ground arith)
]

pub check_tls-IsTls :
    (system : SystemLibrary) (c : Config) (u : Url) (done : Unit {0})
    → (u.scheme ≡ codes "http") ⊎ (u.scheme ≡ codes "https")
    → check_tls system c u ≡ ok done
    → IsTls system c u.scheme
unfolding check_tls
check_tls-IsTls system c u done (inl e) h =
    let http : bytes_eq u.scheme (codes "http") ≡ true = (bytes_eq_iff u.scheme _).1 e in
    inl (
      e,
      (bytes_eq_iff c.tls_ca_file []).0 (ground arith),
      (bytes_eq_iff c.tls_server_name []).0 (ground arith),
      (bytes_eq_iff c.tls_client_cert_file []).0 (ground arith),
      (bytes_eq_iff c.tls_client_key_file []).0 (ground arith),
    )
check_tls-IsTls system c u done (inr e) h =
    let https : bytes_eq u.scheme (codes "https") ≡ true = (bytes_eq_iff u.scheme _).1 e in
    inr (e, ground arith, ground arith, pair_refused-false system c (ground arith))

-- An HTTP or HTTPS URL with a host, the path `/nacos`, and nothing else.
pub record IsNacosUrl (u : Url) : Type 0 where
  pub scheme_known : (u.scheme ≡ codes "http") ⊎ (u.scheme ≡ codes "https")
  pub host_given : u.host ≢ []
  pub no_user : u.user ≡ false
  pub nacos_path : (u.path ≡ codes "/nacos") × (u.raw_path ≡ [])
  pub no_query : (u.raw_query ≡ []) × (u.force_query ≡ false)
  pub no_fragment : (u.fragment ≡ []) × (u.raw_fragment ≡ [])

origin_refused-IsNacosUrl : (u : Url) → origin_refused u ≡ false → IsNacosUrl u
unfolding origin_refused
origin_refused-IsNacosUrl u h = record {
  scheme_known = elim (Bool-cases (bytes_eq u.scheme (codes "http"))) [
    | inl e ↦ inl ((bytes_eq_iff u.scheme _).0 e)
    | inr e ↦ inr ((bytes_eq_iff u.scheme (codes "https")).0 (ground arith))
  ];
  host_given = λ n. let none_given = (bytes_eq_iff u.host []).1 n in ground arith;
  no_user = ground arith;
  nacos_path = (
    (bytes_eq_iff u.path (codes "/nacos")).0 (ground arith),
    (bytes_eq_iff u.raw_path []).0 (ground arith),
  );
  no_query = ((bytes_eq_iff u.raw_query []).0 (ground arith), ground arith);
  no_fragment = (
    (bytes_eq_iff u.fragment []).0 (ground arith),
    (bytes_eq_iff u.raw_fragment []).0 (ground arith),
  );
}

pub origin_of-IsNacosUrl :
    (urls : UrlLibrary) (value name : Bytes) (u : Url)
    → origin_of urls value name ≡ ok u
    → (parse urls value ≡ ok u) × IsNacosUrl u
unfolding origin_of
origin_of-IsNacosUrl urls value name u h = elim (Result-cases (parse urls value)) [
  | inl (v, e) ↦
      let accepted : origin_refused v ≡ false = ground arith in
      let same : v ≡ u = ground arith in
      (ground arith, subst IsNacosUrl same (origin_refused-IsNacosUrl v accepted))
  | inr (d, e) ↦ absurd (ground arith)
]
