-- ===== src/Nacos/Config.antt =====
-- `Config` of agent/registration/nacos/config.go, with `Validate` and `hasNacosConfiguration`.
pub mod Parts
pub mod Valid
pub mod Fields
pub mod Load
pub mod Loading
pub mod Order
use nekiro_sdk_go.Prelude.{
  ℕ, Bytes, Bool, true, false, [], ◌∷◌, ◌&&◌, ◌||◌, not, bytes_eq, codes, if◌then◌else◌, Option,
  none, some, ◌==◌,
}
use nekiro_sdk_go.Prelude.Int.{ℤ, pos, negsuc, ltb_ℤ, leb_ℤ}
use nekiro_sdk_go.Prelude.Spaces.{trim_space}
use nekiro_sdk_go.Errors.{GoError, plain, Result, ok, err, ◌>>=◌, ◌>>◌, guard}
use nekiro_sdk_go.Nacos.Values.{
  SystemLibrary, matches_identifier, valid_tls_path, valid_tls_server_name, origin_of,
}
use nekiro_sdk_go.Url.{Url}

-- A `float64` as far as the tests on a weight can tell: a whole number, a number strictly between a whole
-- number and the next one, an infinity (the flag says whether it is positive), or no number.
pub data Float64 : Type 0 where
  whole : ℤ → Float64
  behind : ℤ → Float64
  infinite : Bool → Float64
  nan : Float64

-- Durations are nanoseconds.
pub record Config : Type 0 where
  pub mode : Bytes
  pub agent_id : Bytes
  pub instance_id : Bytes
  pub agent_card_version : Bytes
  pub release_id : Bytes
  pub card_digest : Bytes
  pub canonical_endpoint : Bytes
  pub audience : Bytes
  pub api_origin : Bytes
  pub namespace_id : Bytes
  pub group_name : Bytes
  pub service_name : Bytes
  pub cluster_name : Bytes
  pub port_name : Bytes
  pub advertised_ip : Bytes
  pub advertised_port : ℤ
  pub weight : Float64
  pub heartbeat_interval : ℤ
  pub heartbeat_timeout : ℤ
  pub ip_delete_timeout : ℤ
  pub request_timeout : ℤ
  pub auth_mode : Bytes
  pub access_token : Bytes
  pub tls_ca_file : Bytes
  pub tls_server_name : Bytes
  pub tls_client_cert_file : Bytes
  pub tls_client_key_file : Bytes

-- `ReleaseTargetInput` of the registry module, in the order in which `Validate` fills it.
pub record ReleaseTarget : Type 0 where
  pub target_agent : Bytes
  pub target_version : Bytes
  pub target_release : Bytes
  pub target_digest : Bytes
  pub target_endpoint : Bytes
  pub target_audience : Bytes

abbrev pub target_of : Config → ReleaseTarget
target_of c = record {
  target_agent = c.agent_id;
  target_version = c.agent_card_version;
  target_release = c.release_id;
  target_digest = c.card_digest;
  target_endpoint = c.canonical_endpoint;
  target_audience = c.audience;
}

abbrev pub is_empty : Bytes → Bool
is_empty value = bytes_eq value []

abbrev pub is_zero : ℤ → Bool
is_zero (pos n) = n == 0
is_zero (negsuc n) = false

abbrev pub is_zero_weight : Float64 → Bool
is_zero_weight (whole n) = is_zero n
is_zero_weight w = false

-- `hasNacosConfiguration`
unfoldable pub has_nacos_configuration : Config → Bool
has_nacos_configuration c =
    not (is_empty c.agent_card_version)
    || not (is_empty c.release_id)
    || not (is_empty c.card_digest)
    || not (is_empty c.canonical_endpoint)
    || not (is_empty c.audience)
    || not (is_empty c.api_origin)
    || not (is_empty c.namespace_id)
    || not (is_empty c.group_name)
    || not (is_empty c.service_name)
    || not (is_empty c.cluster_name)
    || not (is_empty c.port_name)
    || not (is_empty c.advertised_ip)
    || not (is_zero c.advertised_port)
    || not (is_zero_weight c.weight)
    || not (is_zero c.heartbeat_interval)
    || not (is_zero c.heartbeat_timeout)
    || not (is_zero c.ip_delete_timeout)
    || not (is_zero c.request_timeout)
    || not (is_empty c.auth_mode)
    || not (is_empty c.access_token)
    || not (is_empty c.tls_ca_file)
    || not (is_empty c.tls_server_name)
    || not (is_empty c.tls_client_cert_file)
    || not (is_empty c.tls_client_key_file)

-- `Weight < 1`, `Weight > 10000`, or `Weight` is not whole.
unfoldable pub weight_refused : Float64 → Bool
weight_refused (whole n) = ltb_ℤ n (pos 1) || ltb_ℤ (pos 10000) n
weight_refused (behind n) = true
weight_refused (infinite positive) = true
weight_refused nan = true

-- The text of the address is the given text.
abbrev pub is_canonical : Bytes → Option Bytes → Bool
is_canonical value none = false
is_canonical value (some text) = bytes_eq text value

abbrev pub tuple_valid : Config → Bool
tuple_valid c =
    matches_identifier c.namespace_id
    && matches_identifier c.group_name
    && matches_identifier c.service_name
    && matches_identifier c.cluster_name
    && matches_identifier c.port_name

-- The tests on the endpoint, and on the four durations.
unfoldable pub endpoint_refused : SystemLibrary → Config → Bool
endpoint_refused system c =
    not (is_canonical c.advertised_ip (system.parse_ip c.advertised_ip))
    || ltb_ℤ c.advertised_port (pos 1)
    || ltb_ℤ (pos 65535) c.advertised_port
    || weight_refused c.weight

unfoldable pub timing_refused : Config → Bool
timing_refused c =
    ltb_ℤ c.heartbeat_interval (pos 1000000000)
    || ltb_ℤ (pos 60000000000) c.heartbeat_interval
    || leb_ℤ c.heartbeat_timeout c.heartbeat_interval
    || ltb_ℤ (pos 300000000000) c.heartbeat_timeout
    || leb_ℤ c.ip_delete_timeout c.heartbeat_timeout
    || ltb_ℤ (pos 600000000000) c.ip_delete_timeout
    || ltb_ℤ c.request_timeout (pos 100000000)
    || ltb_ℤ (pos 60000000000) c.request_timeout

unfoldable pub auth_refused : Config → Bool
auth_refused c =
    (not (bytes_eq c.auth_mode (codes "none")) && not (bytes_eq c.auth_mode (codes "access_token")))
    || (bytes_eq c.auth_mode (codes "none") && not (is_empty c.access_token))
    || (bytes_eq c.auth_mode (codes "access_token")
        && (is_empty (trim_space c.access_token)
            || not (bytes_eq (trim_space c.access_token) c.access_token)))

abbrev pub has_tls : Config → Bool
has_tls c =
    not (is_empty c.tls_ca_file)
    || not (is_empty c.tls_server_name)
    || not (is_empty c.tls_client_cert_file)
    || not (is_empty c.tls_client_key_file)

abbrev pub differ : Bool → Bool → Bool
differ true b = not b
differ false b = b

abbrev pub pair_refused : SystemLibrary → Config → Bool
pair_refused system c =
    differ (is_empty c.tls_client_cert_file) (is_empty c.tls_client_key_file)
    || (not (is_empty c.tls_client_cert_file)
        && (not (valid_tls_path system c.tls_client_cert_file)
            || not (valid_tls_path system c.tls_client_key_file)))

-- The tests on the TLS fields, by the scheme of the origin.
unfoldable pub check_tls : SystemLibrary → Config → Url → Result (Unit {0})
check_tls system c u =
    if bytes_eq u.scheme (codes "http") && has_tls c
    then err (plain "runtime Nacos HTTP registration cannot contain TLS configuration")
    else if bytes_eq u.scheme (codes "https")
        && (not (valid_tls_path system c.tls_ca_file)
            || not (valid_tls_server_name system c.tls_server_name)
            || pair_refused system c)
    then err (plain "runtime Nacos HTTPS registration TLS configuration is invalid")
    else ok tt

abbrev pub tuple_invalid : GoError
tuple_invalid = plain "runtime Nacos registration tuple is invalid"

abbrev pub or_tuple : Result Url → Result Url
or_tuple (ok u) = ok u
or_tuple (err e) = err tuple_invalid

abbrev pub check_target : Option GoError → Result (Unit {0})
check_target none = ok tt
check_target (some e) = err (plain "runtime exact Release target is invalid")

-- `Validate` of a configuration that is not disabled; the origin is parsed twice by the code.
abbrev pub validate_nacos :
    SystemLibrary → (ReleaseTarget → Option GoError) → Config → Result (Unit {0})
validate_nacos system target_error c = do
  guard (bytes_eq c.mode (codes "nacos")) tuple_invalid
  u ← or_tuple (origin_of system.urls c.api_origin (codes "Nacos API origin"))
  guard (tuple_valid c) tuple_invalid
  check_target (target_error (target_of c))
  guard (not (endpoint_refused system c || timing_refused c))
      (plain "runtime Nacos registration endpoint or timing is invalid")
  guard (not (auth_refused c)) (plain "runtime Nacos authentication configuration is invalid")
  check_tls system c u

-- `Validate`; `target_error` is the error of `NewReleaseTarget` of the registry module.
unfoldable pub validate :
    SystemLibrary → (ReleaseTarget → Option GoError) → Config → Result (Unit {0})
validate system target_error c =
    if not (matches_identifier c.agent_id) || not (matches_identifier c.instance_id)
    then err (plain "runtime registration identity is invalid")
    else if bytes_eq c.mode (codes "disabled")
    then guard (not (has_nacos_configuration c))
        (plain "runtime disabled registration contains Nacos configuration")
    else validate_nacos system target_error c
