-- ===== src/Nacos/Config/Valid.antt =====
-- What a configuration that `Validate` of agent/registration/nacos/config.go accepts holds.
use nekiro_sdk_go.Prelude.{
  true, false, [], not, codes, Option, none, some, ◌≡◌, refl, ap, ◌||◌, ◌⊎◌, inl, inr, arith,
  bytes_eq, bytes_eq_iff, Bool-cases,
}
use nekiro_sdk_go.Prelude.Int.{ℤ, pos, negsuc}
use nekiro_sdk_go.Errors.{GoError, Result, ok, err, guard, >>=-ok, guard-ok_iff}
use nekiro_sdk_go.Url.{Url, parse}
use nekiro_sdk_go.Nacos.Values.{SystemLibrary, matches_identifier, origin_of}
use nekiro_sdk_go.Nacos.Config.{
  is_zero, is_zero_weight, Config, Float64, whole, behind, infinite, nan, ReleaseTarget, target_of,
  has_nacos_configuration, tuple_valid, endpoint_refused, timing_refused, auth_refused,
  check_target, or_tuple, validate_nacos, validate,
}
use nekiro_sdk_go.Nacos.Config.Parts.{
  IsEndpoint, endpoint_refused-IsEndpoint, IsTiming, timing_refused-IsTiming, IsAuth,
  auth_refused-IsAuth, IsTls, check_tls-IsTls, IsNacosUrl, origin_of-IsNacosUrl,
}

-- The release target of the registry module, and the rest of the tuple that names the instance.
abbrev IsTuple : (ReleaseTarget → Option GoError) → Config → Type 0
IsTuple target_error c =
    (target_error (target_of c) ≡ none)
    × (matches_identifier c.namespace_id ≡ true)
    × (matches_identifier c.group_name ≡ true)
    × (matches_identifier c.service_name ≡ true)
    × (matches_identifier c.cluster_name ≡ true)
    × (matches_identifier c.port_name ≡ true)

-- A configuration that registers an instance.
pub record IsEnabled (system : SystemLibrary) (target_error : ReleaseTarget → Option GoError)
    (c : Config) : Type 0 where
  pub mode_nacos : c.mode ≡ codes "nacos"
  pub origin : Url
  pub origin_parsed : (parse system.urls c.api_origin ≡ ok origin) × IsNacosUrl origin
  pub tuple : IsTuple target_error c
  pub endpoint : IsEndpoint system c
  pub timing : IsTiming c
  pub auth : IsAuth c
  pub tls : IsTls system c origin.scheme

or_tuple-ok : (r : Result Url) (u : Url) → or_tuple r ≡ ok u → r ≡ ok u
or_tuple-ok (ok v) u h = h
or_tuple-ok (err e) u h = absurd (ground arith)

check_target-none : (e : Option GoError) (u : Unit {0}) → check_target e ≡ ok u → e ≡ none
check_target-none none u h = refl
check_target-none (some d) u h = absurd (ground arith)

validate_nacos-IsEnabled :
    (system : SystemLibrary) (target_error : ReleaseTarget → Option GoError) (c : Config)
    (done : Unit {0})
    → validate_nacos system target_error c ≡ ok done
    → IsEnabled system target_error c
validate_nacos-IsEnabled system target_error c done h0 =
    let (a, e1, h1) = >>=-ok (guard (bytes_eq c.mode (codes "nacos")) _) _ _ h0 in
    let (u, e2, h2) =
      >>=-ok (or_tuple (origin_of system.urls c.api_origin (codes "Nacos API origin"))) _ _ h1 in
    let (b, e3, h3) = >>=-ok (guard (tuple_valid c) _) _ _ h2 in
    let (d, e4, h4) = >>=-ok (check_target (target_error (target_of c))) _ _ h3 in
    let (f, e5, h5) =
      >>=-ok (guard (not (endpoint_refused system c || timing_refused c)) _) _ _ h4 in
    let (g, e6, h6) = >>=-ok (guard (not (auth_refused c)) _) _ _ h5 in
    let valid = (guard-ok_iff _ _).0 e3 in
    let placed = (guard-ok_iff _ _).0 e5 in
    let secured = (guard-ok_iff _ _).0 e6 in
    let parsed =
      origin_of-IsNacosUrl system.urls c.api_origin _ u
        (or_tuple-ok (origin_of system.urls c.api_origin _) u e2) in
    record {
      mode_nacos = (bytes_eq_iff c.mode (codes "nacos")).0 ((guard-ok_iff _ _).0 e1);
      origin = u;
      origin_parsed = parsed;
      tuple = (
        check_target-none (target_error (target_of c)) d e4,
        ground arith,
        ground arith,
        ground arith,
        ground arith,
        ground arith,
      );
      endpoint = endpoint_refused-IsEndpoint system c (ground arith);
      timing = timing_refused-IsTiming c (ground arith);
      auth = auth_refused-IsAuth c (ground arith);
      tls = check_tls-IsTls system c u done parsed.1.scheme_known h6;
    }

-- Nothing is set but the mode and the identity.
pub record IsUnset (c : Config) : Type 0 where
  pub target_unset :
      (c.agent_card_version ≡ [])
      × (c.release_id ≡ [])
      × (c.card_digest ≡ [])
      × (c.canonical_endpoint ≡ [])
      × (c.audience ≡ [])
  pub tuple_unset :
      (c.api_origin ≡ [])
      × (c.namespace_id ≡ [])
      × (c.group_name ≡ [])
      × (c.service_name ≡ [])
      × (c.cluster_name ≡ [])
      × (c.port_name ≡ [])
      × (c.advertised_ip ≡ [])
  pub numbers_unset :
      (c.weight ≡ whole (pos 0))
      × (c.advertised_port ≡ pos 0)
      × (c.heartbeat_interval ≡ pos 0)
      × (c.heartbeat_timeout ≡ pos 0)
      × (c.ip_delete_timeout ≡ pos 0)
      × (c.request_timeout ≡ pos 0)
  pub access_unset :
      (c.auth_mode ≡ [])
      × (c.access_token ≡ [])
      × (c.tls_ca_file ≡ [])
      × (c.tls_server_name ≡ [])
      × (c.tls_client_cert_file ≡ [])
      × (c.tls_client_key_file ≡ [])

is_zero-pos : (n : ℤ) → is_zero n ≡ true → n ≡ pos 0
is_zero-pos (pos n) h = ap pos (ground arith)
is_zero-pos (negsuc n) h = absurd (ground arith)

is_zero_weight-whole : (w : Float64) → is_zero_weight w ≡ true → w ≡ whole (pos 0)
is_zero_weight-whole (whole n) h = ap whole (is_zero-pos n h)
is_zero_weight-whole (behind n) h = absurd (ground arith)
is_zero_weight-whole (infinite positive) h = absurd (ground arith)
is_zero_weight-whole nan h = absurd (ground arith)

has_nacos_configuration-IsUnset : (c : Config) → has_nacos_configuration c ≡ false → IsUnset c
unfolding has_nacos_configuration
has_nacos_configuration-IsUnset c h = record {
  target_unset = (
    (bytes_eq_iff c.agent_card_version []).0 (ground arith),
    (bytes_eq_iff c.release_id []).0 (ground arith),
    (bytes_eq_iff c.card_digest []).0 (ground arith),
    (bytes_eq_iff c.canonical_endpoint []).0 (ground arith),
    (bytes_eq_iff c.audience []).0 (ground arith),
  );
  tuple_unset = (
    (bytes_eq_iff c.api_origin []).0 (ground arith),
    (bytes_eq_iff c.namespace_id []).0 (ground arith),
    (bytes_eq_iff c.group_name []).0 (ground arith),
    (bytes_eq_iff c.service_name []).0 (ground arith),
    (bytes_eq_iff c.cluster_name []).0 (ground arith),
    (bytes_eq_iff c.port_name []).0 (ground arith),
    (bytes_eq_iff c.advertised_ip []).0 (ground arith),
  );
  numbers_unset = (
    is_zero_weight-whole c.weight (ground arith),
    is_zero-pos c.advertised_port (ground arith),
    is_zero-pos c.heartbeat_interval (ground arith),
    is_zero-pos c.heartbeat_timeout (ground arith),
    is_zero-pos c.ip_delete_timeout (ground arith),
    is_zero-pos c.request_timeout (ground arith),
  );
  access_unset = (
    (bytes_eq_iff c.auth_mode []).0 (ground arith),
    (bytes_eq_iff c.access_token []).0 (ground arith),
    (bytes_eq_iff c.tls_ca_file []).0 (ground arith),
    (bytes_eq_iff c.tls_server_name []).0 (ground arith),
    (bytes_eq_iff c.tls_client_cert_file []).0 (ground arith),
    (bytes_eq_iff c.tls_client_key_file []).0 (ground arith),
  );
}

-- A configuration that is disabled and has nothing to register, or one that registers an instance.
abbrev pub IsValid : SystemLibrary → (ReleaseTarget → Option GoError) → Config → Type 0
IsValid system target_error c =
    (matches_identifier c.agent_id ≡ true)
    × (matches_identifier c.instance_id ≡ true)
    × (((c.mode ≡ codes "disabled") × IsUnset c) ⊎ IsEnabled system target_error c)

-- `Validate` accepts only a configuration with identifiers for the Agent and the instance that is
-- disabled with no other field set, or that has the mode `nacos`, an origin with the exact path, a
-- release target that the registry module takes, a canonical address, a port, a whole weight and
-- durations within their ranges and in their order, a token exactly if the authentication asks for one,
-- and TLS fields that fit the origin's scheme.
pub validate-IsValid :
    (system : SystemLibrary) (target_error : ReleaseTarget → Option GoError) (c : Config)
    (done : Unit {0})
    → validate system target_error c ≡ ok done
    → IsValid system target_error c
unfolding validate
validate-IsValid system target_error c done h =
    elim (Bool-cases (bytes_eq c.mode (codes "disabled"))) [
      | inl e ↦
          let nothing_set : has_nacos_configuration c ≡ false = ground arith in
          (
            ground arith,
            ground arith,
            inl ((bytes_eq_iff c.mode _).0 e, has_nacos_configuration-IsUnset c nothing_set),
          )
      | inr e ↦ (
        ground arith,
        ground arith,
        inr (validate_nacos-IsEnabled system target_error c done (ground arith)),
      )
    ]
