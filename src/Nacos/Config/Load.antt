-- ===== src/Nacos/Config/Load.antt =====
-- `LoadConfig` of agent/registration/nacos/config.go.
use nekiro_sdk_go.Prelude.{
  Bytes, Bool, true, false, List, [], ◌∷◌, ◌&&◌, ◌||◌, not, length, ltb, bytes_eq, codes,
  if◌then◌else◌, Option, none, some,
}
use nekiro_sdk_go.Prelude.Int.{pos}
use nekiro_sdk_go.Errors.{GoError, plain, quoted, Result, ok, err, ◌>>=◌, ◌>>◌, guard}
use nekiro_sdk_go.Url.{Url}
use nekiro_sdk_go.Nacos.Values.{
  Lookup, SystemLibrary, matches_identifier, matches_prefix, valid_tls_path, valid_tls_server_name,
  origin_of, required, required_unsigned, required_duration,
}
use nekiro_sdk_go.Nacos.Config.{Config, whole, ReleaseTarget, is_canonical, differ, validate}
use nekiro_sdk_go.Nacos.Config.Fields.{
  name_of, nacos_suffixes, empty_config, check_absent, TargetField, TupleField, read_targets,
  read_tuples,
}

abbrev pub tls_suffixes : List Bytes
tls_suffixes =
    codes "NACOS_TLS_CA_FILE"
    ∷ codes "NACOS_TLS_SERVER_NAME"
    ∷ codes "NACOS_TLS_CLIENT_CERT_FILE"
    ∷ codes "NACOS_TLS_CLIENT_KEY_FILE"
    ∷ []

abbrev is_some : Option Bytes → Bool
is_some none = false
is_some (some value) = true

abbrev value_or_empty : Option Bytes → Bytes
value_or_empty none = []
value_or_empty (some value) = value

-- The TLS fields of an HTTPS origin.
unfoldable pub load_tls : SystemLibrary → Lookup → Bytes → Config → Result Config
load_tls system lookup prefix c = do
  ca_file ← required lookup (name_of prefix (codes "NACOS_TLS_CA_FILE"))
  guard (valid_tls_path system ca_file)
      (quoted "must be a clean absolute path" (name_of prefix (codes "NACOS_TLS_CA_FILE")))
  server_name ← required lookup (name_of prefix (codes "NACOS_TLS_SERVER_NAME"))
  let cert = lookup (name_of prefix (codes "NACOS_TLS_CLIENT_CERT_FILE"))
  let key = lookup (name_of prefix (codes "NACOS_TLS_CLIENT_KEY_FILE"))
  guard
      (not (
        differ (is_some cert) (is_some key)
        || (is_some cert
            && (not (valid_tls_path system (value_or_empty cert))
                || not (valid_tls_path system (value_or_empty key))))))
      (quoted "must be a complete non-empty pair"
        (name_of prefix (codes "NACOS_TLS_CLIENT_CERT_FILE")))
  guard (valid_tls_server_name system server_name) (
      quoted "must be a valid DNS name or IP address"
        (name_of prefix (codes "NACOS_TLS_SERVER_NAME")))
  ok (record c {
    tls_ca_file = ca_file;
    tls_server_name = server_name;
    tls_client_cert_file = value_or_empty cert;
    tls_client_key_file = value_or_empty key;
  })

-- What the origin's scheme asks for.
unfoldable pub load_transport : SystemLibrary → Lookup → Bytes → Url → Config → Result Config
load_transport system lookup prefix u c =
    if bytes_eq u.scheme (codes "http")
    then (do
      check_absent lookup prefix "must be absent for HTTP Nacos registration" tls_suffixes
      ok c)
    else load_tls system lookup prefix c

unfoldable pub load_origin : SystemLibrary → Lookup → Bytes → Config → Result Config
load_origin system lookup prefix c = do
  origin ← required lookup (name_of prefix (codes "NACOS_API_ORIGIN"))
  u ← origin_of system.urls origin (name_of prefix (codes "NACOS_API_ORIGIN"))
  load_transport system lookup prefix u (record c { api_origin = origin })

abbrev or_address : Bytes → Result Bytes → Result Bytes
or_address name (ok value) = ok value
or_address name (err e) = err (quoted "must be a canonical IP address" name)

-- The address, the port, the weight and the durations.
unfoldable pub load_endpoint : SystemLibrary → Lookup → Bytes → Config → Result Config
load_endpoint system lookup prefix c = do
  ip ←
      or_address (name_of prefix (codes "NACOS_ADVERTISED_IP"))
        (required lookup (name_of prefix (codes "NACOS_ADVERTISED_IP")))
  guard (is_canonical ip (system.parse_ip ip))
      (quoted "must be a canonical IP address" (name_of prefix (codes "NACOS_ADVERTISED_IP")))
  port ← required_unsigned lookup (name_of prefix (codes "NACOS_ADVERTISED_PORT")) 1 65535
  weight ← required_unsigned lookup (name_of prefix (codes "NACOS_WEIGHT")) 1 10000
  interval ←
      required_duration lookup (name_of prefix (codes "NACOS_HEARTBEAT_INTERVAL_MS")) 1000 60000
  timeout ←
      required_duration lookup (name_of prefix (codes "NACOS_HEARTBEAT_TIMEOUT_MS")) 1001 300000
  delete_timeout ←
      required_duration lookup (name_of prefix (codes "NACOS_IP_DELETE_TIMEOUT_MS")) 1002 600000
  request ← required_duration lookup (name_of prefix (codes "NACOS_REQUEST_TIMEOUT_MS")) 100 60000
  ok (record c {
    advertised_ip = ip;
    advertised_port = pos port;
    weight = whole (pos weight);
    heartbeat_interval = interval;
    heartbeat_timeout = timeout;
    ip_delete_timeout = delete_timeout;
    request_timeout = request;
  })

-- The token that the mode of authentication asks for.
unfoldable pub load_token : Lookup → Bytes → Config → Result Config
load_token lookup prefix c =
    if bytes_eq c.auth_mode (codes "none")
    then (do
      check_absent lookup prefix "must be absent when Nacos authentication is none"
          (codes "NACOS_ACCESS_TOKEN" ∷ [])
      ok c)
    else if bytes_eq c.auth_mode (codes "access_token")
    then (do
      token ← required lookup (name_of prefix (codes "NACOS_ACCESS_TOKEN"))
      ok (record c { access_token = token }))
    else err (quoted "is unsupported" (name_of prefix (codes "NACOS_AUTH_MODE")))

unfoldable pub load_auth : Lookup → Bytes → Config → Result Config
load_auth lookup prefix c = do
  mode ← required lookup (name_of prefix (codes "NACOS_AUTH_MODE"))
  load_token lookup prefix (record c { auth_mode = mode })

-- The orders in which the two loops over maps happen to run.
pub record Orders : Type 0 where
  pub targets : List TargetField
  pub tuples : List TupleField

-- `LoadConfig` in the mode `nacos`, but for the final `Validate`.
unfoldable pub load_nacos : SystemLibrary → Orders → Lookup → Bytes → Config → Result Config
load_nacos system orders lookup prefix c = do
  named ← read_targets lookup prefix orders.targets c
  origin ← load_origin system lookup prefix named
  tuple ← read_tuples lookup prefix orders.tuples origin
  placed ← load_endpoint system lookup prefix tuple
  load_auth lookup prefix placed

abbrev pub started : Bytes → Bytes → Bytes → Config
started mode agent_id instance_id = record empty_config {
  mode = mode;
  agent_id = agent_id;
  instance_id = instance_id;
}

-- The part of `LoadConfig` that depends on the mode.
unfoldable pub load_mode : SystemLibrary → Orders → Lookup → Bytes → Config → Result Config
load_mode system orders lookup prefix c =
    if bytes_eq c.mode (codes "disabled")
    then (do
      check_absent lookup prefix "must be absent when registration is disabled" nacos_suffixes
      ok c)
    else if not (bytes_eq c.mode (codes "nacos"))
    then err (quoted "is unsupported" (name_of prefix (codes "REGISTRATION_MODE")))
    else load_nacos system orders lookup prefix c

-- `LoadConfig` behind its first test.
unfoldable pub load_from :
    SystemLibrary
    → (ReleaseTarget → Option GoError)
    → Orders
    → Lookup
    → Bytes
    → Bytes
    → Bytes
    → Result Config
load_from system target_error orders lookup prefix agent_id instance_id = do
  mode ← required lookup (name_of prefix (codes "REGISTRATION_MODE"))
  c ← load_mode system orders lookup prefix (started mode agent_id instance_id)
  validate system target_error c
  ok c

abbrev dependencies_invalid : GoError
dependencies_invalid = plain "runtime registration dependencies are invalid"

-- `LoadConfig`; the lookup may be nil.
unfoldable pub load_config :
    SystemLibrary
    → (ReleaseTarget → Option GoError)
    → Orders
    → Option Lookup
    → Bytes
    → Bytes
    → Bytes
    → Result Config
load_config system target_error orders none prefix agent_id instance_id = err dependencies_invalid
load_config system target_error orders (some lookup) prefix agent_id instance_id =
    if ltb 64 (length prefix)
      || not (matches_prefix prefix)
      || not (matches_identifier agent_id)
      || not (matches_identifier instance_id)
    then err dependencies_invalid
    else load_from system target_error orders lookup prefix agent_id instance_id
