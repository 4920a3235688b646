-- ===== src/Nacos/ConfigTests.antt =====
-- Tests of agent/registration/nacos/config.go.
use mathlib.Core.List.Permᴰ
use nekiro_sdk_go.Prelude.{
  ℕ, ◌*◌, arith, ◌↔◌, Bytes, Bool, true, false, List, [], ◌∷◌, all, codes, ◌≡◌, refl, bytes_eq,
  has_prefix, contains_byte, Option, none, some, if◌then◌else◌,
}
use nekiro_sdk_go.Prelude.Int.{pos}
use nekiro_sdk_go.Prelude.Spaces.{trim_space}
use nekiro_sdk_go.Errors.{GoError, Result, ok, err}
use nekiro_sdk_go.Http.{is_digit}
use nekiro_sdk_go.Url.{parse, lower}
use nekiro_sdk_go.Url.Escape.{unescape, escape}
use nekiro_sdk_go.Strconv.{atoi, decimal_value}
use nekiro_sdk_go.Nacos.Values.{
  SystemLibrary, Lookup, matches_identifier, matches_prefix, valid_tls_path, valid_tls_server_name,
  required, required_identifier, required_unsigned, required_duration, duration_of, origin_of,
}
use nekiro_sdk_go.Nacos.Ranges.{IsNumber, required_duration_iff}
use nekiro_sdk_go.Nacos.Config.{
  Config, whole, ReleaseTarget, has_nacos_configuration, weight_refused, endpoint_refused,
  timing_refused, auth_refused, check_tls, validate,
}
use nekiro_sdk_go.Nacos.Config.Fields.{
  card_version, release, digest, endpoint, audience_field, namespace, group, service, cluster,
  port_field, read_fields, check_absent,
}
use nekiro_sdk_go.Nacos.Config.Load.{
  Orders, load_tls, load_transport, load_origin, load_endpoint, load_token, load_auth, load_nacos,
  load_mode, load_from, load_config,
}
use nekiro_sdk_go.Nacos.Config.Order.{SameFields, load_config-perm}
use nekiro_sdk_go.Nacos.Config.Loading.{IsConfigured, load_config-IsConfigured}

-- A text that begins with a digit is an address, and is printed as it is written; every path is clean.
read_address : Bytes → Option Bytes
read_address [] = none
read_address (c ∷ cs) = if is_digit c then some (c ∷ cs) else none

abbrev system : SystemLibrary
system = record {
  urls = record { read_literal = λ host. ok host; lower_unicode = λ text. text };
  parse_ip = read_address;
  is_absolute = has_prefix (codes "/");
  clean = λ path. path;
}

abbrev no_error : ReleaseTarget → Option GoError
no_error target = none

abbrev orders : Orders
orders = record {
  targets = audience_field ∷ card_version ∷ release ∷ digest ∷ endpoint ∷ [];
  tuples = group ∷ namespace ∷ service ∷ cluster ∷ port_field ∷ [];
}

find : Bytes → List (Bytes × Bytes) → Option Bytes
unfolding bytes_eq
find name [] = none
find name ((key, value) ∷ rest) = if bytes_eq key name then some value else find name rest

abbrev variables : List (Bytes × Bytes)
variables =
    (codes "A_REGISTRATION_MODE", codes "nacos")
    ∷ (codes "A_AGENT_CARD_VERSION", codes "1.0.0")
    ∷ (codes "A_RELEASE_ID", codes "release")
    ∷ (codes "A_CARD_DIGEST", codes "digest")
    ∷ (codes "A_CANONICAL_ENDPOINT", codes "https://agent.example")
    ∷ (codes "A_AUDIENCE", codes "audience")
    ∷ (codes "A_NACOS_API_ORIGIN", codes "https://nacos.example/nacos")
    ∷ (codes "A_NACOS_TLS_CA_FILE", codes "/ca.pem")
    ∷ (codes "A_NACOS_TLS_SERVER_NAME", codes "nacos.example")
    ∷ (codes "A_NACOS_NAMESPACE_ID", codes "public")
    ∷ (codes "A_NACOS_GROUP_NAME", codes "group")
    ∷ (codes "A_NACOS_SERVICE_NAME", codes "service")
    ∷ (codes "A_NACOS_CLUSTER_NAME", codes "cluster")
    ∷ (codes "A_NACOS_PORT_NAME", codes "http")
    ∷ (codes "A_NACOS_ADVERTISED_IP", codes "10.0.0.1")
    ∷ (codes "A_NACOS_ADVERTISED_PORT", codes "8080")
    ∷ (codes "A_NACOS_WEIGHT", codes "1")
    ∷ (codes "A_NACOS_HEARTBEAT_INTERVAL_MS", codes "5000")
    ∷ (codes "A_NACOS_HEARTBEAT_TIMEOUT_MS", codes "15000")
    ∷ (codes "A_NACOS_IP_DELETE_TIMEOUT_MS", codes "30000")
    ∷ (codes "A_NACOS_REQUEST_TIMEOUT_MS", codes "100")
    ∷ (codes "A_NACOS_AUTH_MODE", codes "access_token")
    ∷ (codes "A_NACOS_ACCESS_TOKEN", codes "token")
    ∷ []

abbrev environment : Lookup
environment name = find name variables

load : Lookup → Result Config
unfolding load_config load_from load_mode load_nacos load_auth load_token load_endpoint load_origin
    load_transport load_tls check_absent read_fields required required_identifier required_unsigned
    required_duration origin_of parse lower unescape escape bytes_eq trim_space has_prefix
    contains_byte atoi decimal_value matches_identifier matches_prefix valid_tls_path
    valid_tls_server_name validate has_nacos_configuration weight_refused endpoint_refused
    timing_refused auth_refused check_tls find read_address
load lookup =
    load_config system no_error orders (some lookup) (codes "A") (codes "agent") (codes "instance")

abbrev loaded : Config
loaded = record {
  mode = codes "nacos";
  agent_id = codes "agent";
  instance_id = codes "instance";
  agent_card_version = codes "1.0.0";
  release_id = codes "release";
  card_digest = codes "digest";
  canonical_endpoint = codes "https://agent.example";
  audience = codes "audience";
  api_origin = codes "https://nacos.example/nacos";
  namespace_id = codes "public";
  group_name = codes "group";
  service_name = codes "service";
  cluster_name = codes "cluster";
  port_name = codes "http";
  advertised_ip = codes "10.0.0.1";
  advertised_port = pos 8080;
  weight = whole (pos 1);
  heartbeat_interval = pos 5000000000;
  heartbeat_timeout = pos 15000000000;
  ip_delete_timeout = pos 30000000000;
  request_timeout = pos 100000000;
  auth_mode = codes "access_token";
  access_token = codes "token";
  tls_ca_file = codes "/ca.pem";
  tls_server_name = codes "nacos.example";
  tls_client_cert_file = [];
  tls_client_key_file = [];
}

environment-loaded : load environment ≡ ok loaded
unfolding load duration_of
environment-loaded = refl

-- A second value for a name that the environment has hides the first one.
changed : Bytes → Bytes → Lookup
unfolding find
changed name value key = find key ((name, value) ∷ variables)

is_refused : Bytes × Bytes → Bool
unfolding load changed
is_refused (name, value) = elim (load (changed name value)) [ ok c ↦ false | err e ↦ true ]

all_refused :
    all is_refused (
      (codes "A_REGISTRATION_MODE", codes "consul")
      ∷ (codes "A_REGISTRATION_MODE", codes "disabled")
      ∷ (codes "A_NACOS_API_ORIGIN", codes "https://nacos.example/nacos/")
      ∷ (codes "A_NACOS_API_ORIGIN", codes "http://nacos.example/nacos")
      ∷ (codes "A_NACOS_ADVERTISED_PORT", codes "0")
      ∷ (codes "A_NACOS_ADVERTISED_PORT", codes "+1")
      ∷ (codes "A_NACOS_WEIGHT", codes "10001")
      ∷ (codes "A_NACOS_HEARTBEAT_TIMEOUT_MS", codes "5000")
      ∷ (codes "A_NACOS_REQUEST_TIMEOUT_MS", codes "99")
      ∷ (codes "A_NACOS_GROUP_NAME", codes "-group")
      ∷ (codes "A_NACOS_AUTH_MODE", codes "none")
      ∷ (codes "A_NACOS_ACCESS_TOKEN", codes " token")
      ∷ (codes "A_NACOS_TLS_CA_FILE", codes "ca.pem")
      ∷ (codes "A_NACOS_TLS_SERVER_NAME", codes "nacos..example")
      ∷ (codes "A_NACOS_TLS_SERVER_NAME", codes "nacos.-example")
      ∷ (codes "A_NACOS_TLS_SERVER_NAME", codes "Nacos.example")
      ∷ (codes "A_NACOS_TLS_CLIENT_KEY_FILE", codes "/key.pem")
      ∷ [])
    ≡ true
unfolding is_refused duration_of
all_refused = refl

load_config-IsConfigured_example :
    IsConfigured system no_error environment (codes "A") (codes "agent") (codes "instance") loaded
unfolding load load_config
load_config-IsConfigured_example =
    load_config-IsConfigured system no_error orders environment (codes "A") (codes "agent")
      (codes "instance") loaded environment-loaded

abbrev other_orders : Orders
other_orders = record {
  targets = card_version ∷ audience_field ∷ release ∷ digest ∷ endpoint ∷ [];
  tuples = group ∷ namespace ∷ service ∷ port_field ∷ cluster ∷ [];
}

same_fields : SameFields orders other_orders
same_fields = (
  Permᴰ.swap refl refl,
  Permᴰ.cons refl (Permᴰ.cons refl (Permᴰ.cons refl (Permᴰ.swap refl refl))),
)

load_config-perm_example :
    (load_config system no_error orders
        (some environment)
        (codes "A")
        (codes "agent")
        (codes "instance")
      ≡ ok loaded)
    ↔ (load_config system no_error other_orders
          (some environment)
          (codes "A")
          (codes "agent")
          (codes "instance")
        ≡ ok loaded)
load_config-perm_example =
    load_config-perm system no_error orders other_orders environment (codes "A") (codes "agent")
      (codes "instance") loaded same_fields

abbrev request_timeout_name : Bytes
request_timeout_name = codes "A_NACOS_REQUEST_TIMEOUT_MS"

timeout-read : required_duration environment request_timeout_name 100 60000 ≡ ok (pos 100000000)
unfolding required_duration required_unsigned required find duration_of bytes_eq trim_space atoi
    decimal_value
timeout-read = refl

required_duration_iff_example :
    (required_duration environment request_timeout_name 100 60000 ≡ ok (pos 100000000)) ↔ (
      (n : ℕ) × IsNumber environment request_timeout_name 100 60000 n
      × (pos 100000000 ≡ pos (n * 1000000)))
required_duration_iff_example =
    required_duration_iff environment request_timeout_name 100 60000 (pos 100000000) (omega arith)
