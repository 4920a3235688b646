-- ===== src/Nacos/Config/Fields.antt =====
-- The variables that `LoadConfig` of agent/registration/nacos/config.go reads by name, and its loops over
-- them.
use nekiro_sdk_go.Prelude.{String, Bytes, List, [], ◌∷◌, ◌++◌, codes, none, some}
use nekiro_sdk_go.Prelude.Int.{pos}
use nekiro_sdk_go.Errors.{quoted, Result, ok, err, ◌>>=◌}
use nekiro_sdk_go.Nacos.Values.{Lookup, required, required_identifier}
use nekiro_sdk_go.Nacos.Config.{Config, whole}

-- `name`
abbrev pub name_of : Bytes → Bytes → Bytes
name_of prefix suffix = prefix ++ b'_' ∷ suffix

-- `nacosSuffixes`
abbrev pub nacos_suffixes : List Bytes
nacos_suffixes =
    codes "AGENT_CARD_VERSION"
    ∷ codes "RELEASE_ID"
    ∷ codes "CARD_DIGEST"
    ∷ codes "CANONICAL_ENDPOINT"
    ∷ codes "AUDIENCE"
    ∷ codes "NACOS_API_ORIGIN"
    ∷ codes "NACOS_NAMESPACE_ID"
    ∷ codes "NACOS_GROUP_NAME"
    ∷ codes "NACOS_SERVICE_NAME"
    ∷ codes "NACOS_CLUSTER_NAME"
    ∷ codes "NACOS_PORT_NAME"
    ∷ codes "NACOS_ADVERTISED_IP"
    ∷ codes "NACOS_ADVERTISED_PORT"
    ∷ codes "NACOS_WEIGHT"
    ∷ codes "NACOS_HEARTBEAT_INTERVAL_MS"
    ∷ codes "NACOS_HEARTBEAT_TIMEOUT_MS"
    ∷ codes "NACOS_IP_DELETE_TIMEOUT_MS"
    ∷ codes "NACOS_REQUEST_TIMEOUT_MS"
    ∷ codes "NACOS_AUTH_MODE"
    ∷ codes "NACOS_ACCESS_TOKEN"
    ∷ codes "NACOS_TLS_CA_FILE"
    ∷ codes "NACOS_TLS_SERVER_NAME"
    ∷ codes "NACOS_TLS_CLIENT_CERT_FILE"
    ∷ codes "NACOS_TLS_CLIENT_KEY_FILE"
    ∷ []

-- As a `Config` literal leaves the fields that it does not name.
abbrev pub empty_config : Config
empty_config = record {
  mode = [];
  agent_id = [];
  instance_id = [];
  agent_card_version = [];
  release_id = [];
  card_digest = [];
  canonical_endpoint = [];
  audience = [];
  api_origin = [];
  namespace_id = [];
  group_name = [];
  service_name = [];
  cluster_name = [];
  port_name = [];
  advertised_ip = [];
  advertised_port = pos 0;
  weight = whole (pos 0);
  heartbeat_interval = pos 0;
  heartbeat_timeout = pos 0;
  ip_delete_timeout = pos 0;
  request_timeout = pos 0;
  auth_mode = [];
  access_token = [];
  tls_ca_file = [];
  tls_server_name = [];
  tls_client_cert_file = [];
  tls_client_key_file = [];
}

-- No such variable exists.
unfoldable pub check_absent : Lookup → Bytes → String → List Bytes → Result (Unit {0})
check_absent lookup prefix message [] = ok tt
check_absent lookup prefix message (suffix ∷ rest) = elim (lookup (name_of prefix suffix)) [
  | none ↦ check_absent lookup prefix message rest
  | some value ↦ err (quoted message (name_of prefix suffix))
]

-- The entries of the first map of destinations.
pub data TargetField : Type 0 where
  card_version release digest endpoint audience_field : TargetField

abbrev pub target_suffix : TargetField → Bytes
target_suffix card_version = codes "AGENT_CARD_VERSION"
target_suffix release = codes "RELEASE_ID"
target_suffix digest = codes "CARD_DIGEST"
target_suffix endpoint = codes "CANONICAL_ENDPOINT"
target_suffix audience_field = codes "AUDIENCE"

abbrev pub assign_target : TargetField → Bytes → Config → Config
assign_target card_version v c = record c { agent_card_version = v }
assign_target release v c = record c { release_id = v }
assign_target digest v c = record c { card_digest = v }
assign_target endpoint v c = record c { canonical_endpoint = v }
assign_target audience_field v c = record c { audience = v }

-- The entries of the second map.
pub data TupleField : Type 0 where
  namespace group service cluster port_field : TupleField

abbrev pub tuple_suffix : TupleField → Bytes
tuple_suffix namespace = codes "NACOS_NAMESPACE_ID"
tuple_suffix group = codes "NACOS_GROUP_NAME"
tuple_suffix service = codes "NACOS_SERVICE_NAME"
tuple_suffix cluster = codes "NACOS_CLUSTER_NAME"
tuple_suffix port_field = codes "NACOS_PORT_NAME"

abbrev pub assign_tuple : TupleField → Bytes → Config → Config
assign_tuple namespace v c = record c { namespace_id = v }
assign_tuple group v c = record c { group_name = v }
assign_tuple service v c = record c { service_name = v }
assign_tuple cluster v c = record c { cluster_name = v }
assign_tuple port_field v c = record c { port_name = v }

-- A loop over one of the two maps, in the order of one iteration.
unfoldable pub read_fields :
    {F : Type 0}
    → (F → Result Bytes)
    → (F → Bytes → Config → Config)
    → List F
    → Config
    → Result Config
read_fields read assign [] c = ok c
read_fields read assign (field ∷ rest) c = do
  value ← read field
  read_fields read assign rest (assign field value c)

abbrev pub read_targets : Lookup → Bytes → List TargetField → Config → Result Config
read_targets lookup prefix =
    read_fields (λ field. required lookup (name_of prefix (target_suffix field))) assign_target

abbrev pub read_tuples : Lookup → Bytes → List TupleField → Config → Result Config
read_tuples lookup prefix =
    read_fields (λ field. required_identifier lookup (name_of prefix (tuple_suffix field)))
      assign_tuple
