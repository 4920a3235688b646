-- ===== src/Nacos/Config/Loading.antt =====
-- What a configuration that `LoadConfig` of agent/registration/nacos/config.go returns holds.
use nekiro_sdk_go.Prelude.{
  String, Bytes, true, List, [], ◌∷◌, length, bytes_eq, bytes_eq_iff, codes, Option, none, some,
  ◌≡◌, refl, sym, ◌∙◌, ◌≤◌, ap, subst, arith, All, inl, inr, Bool-cases, Option-cases,
}
use nekiro_sdk_go.Errors.{Result, GoError, ok, ◌>>◌, >>=-ok}
use nekiro_sdk_go.Url.{Url}
use nekiro_sdk_go.Nacos.Values.{
  Lookup, SystemLibrary, matches_prefix, origin_of, required, required_text,
}
use nekiro_sdk_go.Nacos.Config.{Config, ReleaseTarget, validate}
use nekiro_sdk_go.Nacos.Config.Valid.{IsValid, validate-IsValid}
use nekiro_sdk_go.Nacos.Config.Fields.{
  name_of, nacos_suffixes, check_absent, TargetField, card_version, release, digest, endpoint,
  audience_field, assign_target, TupleField, namespace, group, service, cluster, port_field,
  assign_tuple, read_targets, read_fields, read_tuples,
}
use nekiro_sdk_go.Nacos.Config.Load.{
  load_tls, load_transport, load_origin, load_endpoint, load_token, load_auth, Orders, load_nacos,
  started, load_mode, load_from, load_config,
}

-- The mode and the identity, which no step of the loading changes.
abbrev identity_of : Config → Bytes × Bytes × Bytes
identity_of c = (c.mode, c.agent_id, c.instance_id)

abbrev Keeps : Config → Config → Type 0
Keeps c d = identity_of d ≡ identity_of c

ok-Keeps : (c e d : Config) → Keeps c e → ok e ≡ ok d → Keeps c d
ok-Keeps c e d k h = let same : e ≡ d = cc in subst (Keeps c) same k

assign_target-Keeps :
    (field : TargetField) (v : Bytes) (c : Config) → Keeps c (assign_target field v c)
assign_target-Keeps card_version v c = refl
assign_target-Keeps release v c = refl
assign_target-Keeps digest v c = refl
assign_target-Keeps endpoint v c = refl
assign_target-Keeps audience_field v c = refl

assign_tuple-Keeps :
    (field : TupleField) (v : Bytes) (c : Config) → Keeps c (assign_tuple field v c)
assign_tuple-Keeps namespace v c = refl
assign_tuple-Keeps group v c = refl
assign_tuple-Keeps service v c = refl
assign_tuple-Keeps cluster v c = refl
assign_tuple-Keeps port_field v c = refl

read_fields-Keeps :
    {F : Type 0} (read : F → Result Bytes) (assign : F → Bytes → Config → Config)
    → ((field : F) (v : Bytes) (c : Config) → Keeps c (assign field v c))
    → (order : List F) (c d : Config) → read_fields read assign order c ≡ ok d
    → Keeps c d
unfolding read_fields
read_fields-Keeps read assign keeps [] c d h = ok-Keeps c c d refl h
read_fields-Keeps read assign keeps (field ∷ rest) c d h =
    let (v, e, k) = >>=-ok (read field) _ _ h in
    let later = read_fields-Keeps read assign keeps rest (assign field v c) d k in
    let now = keeps field v c in cc

required-lookup :
    (lookup : Lookup) (name value : Bytes)
    → required lookup name ≡ ok value
    → lookup name ≡ some value
unfolding required required_text
required-lookup lookup name value h = ground arith

module _ (lookup : Lookup) (prefix : Bytes) where
  check_absent-All :
      (message : String) (suffixes : List Bytes) (done : Unit {0})
      → check_absent lookup prefix message suffixes ≡ ok done
      → All (λ suffix. lookup (name_of prefix suffix) ≡ none) suffixes
  unfolding check_absent
  check_absent-All message [] done h = tt
  check_absent-All message (suffix ∷ rest) done h =
      elim (Option-cases (lookup (name_of prefix suffix))) [
        | inl absent ↦ (absent, check_absent-All message rest done (ground arith))
        | inr (value, present) ↦ absurd (ground arith)
      ]

  load_endpoint-Keeps :
      (system : SystemLibrary) (c d : Config)
      → load_endpoint system lookup prefix c ≡ ok d
      → Keeps c d
  unfolding load_endpoint
  load_endpoint-Keeps system c d h = ground arith

  load_tls-Keeps :
      (system : SystemLibrary) (c d : Config) → load_tls system lookup prefix c ≡ ok d → Keeps c d
  unfolding load_tls
  load_tls-Keeps system c d h = ground arith

  load_transport-Keeps :
      (system : SystemLibrary) (u : Url) (c d : Config)
      → load_transport system lookup prefix u c ≡ ok d
      → Keeps c d
  unfolding load_transport
  load_transport-Keeps system u c d h = elim (Bool-cases (bytes_eq u.scheme (codes "http"))) [
    | inl e ↦ ground arith
    | inr e ↦ load_tls-Keeps system c d (ground arith)
  ]

  load_token-Keeps : (c d : Config) → load_token lookup prefix c ≡ ok d → Keeps c d
  unfolding load_token
  load_token-Keeps c d h = ground arith

  load_origin-Keeps :
      (system : SystemLibrary) (c d : Config)
      → load_origin system lookup prefix c ≡ ok d
      → Keeps c d
  unfolding load_origin
  load_origin-Keeps system c d h =
      let (origin, e1, h1) =
        >>=-ok (required lookup (name_of prefix (codes "NACOS_API_ORIGIN"))) _ _ h in
      let (u, e2, h2) =
        >>=-ok (origin_of system.urls origin (name_of prefix (codes "NACOS_API_ORIGIN"))) _ _ h1 in
      load_transport-Keeps system u (record c { api_origin = origin }) d h2

  load_auth-Keeps : (c d : Config) → load_auth lookup prefix c ≡ ok d → Keeps c d
  unfolding load_auth
  load_auth-Keeps c d h =
      let (mode, e, k) =
        >>=-ok (required lookup (name_of prefix (codes "NACOS_AUTH_MODE"))) _ _ h in
      load_token-Keeps (record c { auth_mode = mode }) d k

  load_nacos-Keeps :
      (system : SystemLibrary) (orders : Orders) (c d : Config)
      → load_nacos system orders lookup prefix c ≡ ok d
      → Keeps c d
  unfolding load_nacos
  load_nacos-Keeps system orders c d h0 =
      let (named, e1, h1) = >>=-ok (read_targets lookup prefix orders.targets c) _ _ h0 in
      let (found, e2, h2) = >>=-ok (load_origin system lookup prefix named) _ _ h1 in
      let (tuple, e3, h3) = >>=-ok (read_tuples lookup prefix orders.tuples found) _ _ h2 in
      let (placed, e4, h4) = >>=-ok (load_endpoint system lookup prefix tuple) _ _ h3 in
      let k1 = read_fields-Keeps _ assign_target assign_target-Keeps orders.targets c named e1 in
      let k2 = load_origin-Keeps system named found e2 in
      let k3 = read_fields-Keeps _ assign_tuple assign_tuple-Keeps orders.tuples found tuple e3 in
      let k4 = load_endpoint-Keeps system tuple placed e4 in
      let k5 = load_auth-Keeps placed d h4 in cc

-- A configuration as it is loaded: the mode is the environment's, the identity is the caller's, the
-- configuration is valid, and where it is disabled no variable of a registration exists.
pub record IsConfigured (system : SystemLibrary) (target_error : ReleaseTarget → Option GoError)
    (lookup : Lookup) (prefix agent_id instance_id : Bytes) (c : Config) : Type 0 where
  pub prefix_valid : (matches_prefix prefix ≡ true) × (length prefix ≤ 64)
  pub mode_read : lookup (name_of prefix (codes "REGISTRATION_MODE")) ≡ some c.mode
  pub identity : (c.agent_id ≡ agent_id) × (c.instance_id ≡ instance_id)
  pub valid : IsValid system target_error c
  pub absent :
      c.mode ≡ codes "disabled"
      → All (λ suffix. lookup (name_of prefix suffix) ≡ none) nacos_suffixes

module _ (system : SystemLibrary) (target_error : ReleaseTarget → Option GoError) (orders : Orders)
    (lookup : Lookup) (prefix agent_id instance_id : Bytes) where
  load_mode-Keeps :
      (c d : Config)
      → load_mode system orders lookup prefix c ≡ ok d
      → Keeps c d
        × (c.mode ≡ codes "disabled"
            → All (λ suffix. lookup (name_of prefix suffix) ≡ none) nacos_suffixes)
  unfolding load_mode
  load_mode-Keeps c d h = elim (Bool-cases (bytes_eq c.mode (codes "disabled"))) [
    | inl e ↦
        let loaded : (check_absent lookup prefix "must be absent when registration is disabled"
                nacos_suffixes
              >> ok c)
            ≡ ok d =
          ground arith in
        let (done, absent, same) =
          >>=-ok (check_absent lookup prefix _ nacos_suffixes) _ _ loaded in
        (ok-Keeps c c d refl same, λ _. check_absent-All lookup prefix _ nacos_suffixes done absent)
    | inr e ↦ (
      load_nacos-Keeps lookup prefix system orders c d (ground arith),
      λ disabled. absurd (ground (arith, (bytes_eq_iff c.mode (codes "disabled")).1 disabled)),
    )
  ]

  load_from-IsConfigured :
      (c : Config)
      → (matches_prefix prefix ≡ true) × (length prefix ≤ 64)
      → load_from system target_error orders lookup prefix agent_id instance_id ≡ ok c
      → IsConfigured system target_error lookup prefix agent_id instance_id c
  unfolding load_from
  load_from-IsConfigured c prefix_valid h0 =
      let (mode, e1, h1) =
        >>=-ok (required lookup (name_of prefix (codes "REGISTRATION_MODE"))) _ _ h0 in
      let (d, e2, h2) =
        >>=-ok (load_mode system orders lookup prefix (started mode agent_id instance_id)) _ _ h1 in
      let (done, e3, h3) = >>=-ok (validate system target_error d) _ _ h2 in
      let (kept, absent) = load_mode-Keeps (started mode agent_id instance_id) d e2 in
      let read = required-lookup lookup (name_of prefix (codes "REGISTRATION_MODE")) mode e1 in
      let same_mode : d.mode ≡ mode = ap (λ k. k.0) kept in
      let same : d ≡ c = cc in
      subst (IsConfigured system target_error lookup prefix agent_id instance_id) same (record {
        prefix_valid = prefix_valid;
        mode_read = cc;
        identity = (ap (λ k. k.1) kept, ap (λ k. k.2) kept);
        valid = validate-IsValid system target_error d done e3;
        absent = λ disabled. absent (sym same_mode ∙ disabled);
      })

  -- A configuration that `LoadConfig` returns has the mode that the environment holds, and the identity
  -- that the caller gives; it is valid, in whatever order the two maps are read; and where it is disabled
  -- no variable of a registration exists. The prefix is a valid one of at most 64 bytes.
  pub load_config-IsConfigured :
      (c : Config)
      → load_config system target_error orders (some lookup) prefix agent_id instance_id ≡ ok c
      → IsConfigured system target_error lookup prefix agent_id instance_id c
  unfolding load_config
  load_config-IsConfigured c h =
      load_from-IsConfigured c (ground arith, ground arith) (ground arith)
