-- ===== src/RouterAuth/Config/Loading.antt =====
-- What a configuration loaded by agent/routerauth/config.go satisfies.
use nekiro_sdk_go.Prelude.{
  String, Bytes, Bool, true, false, length, ==_iff, ◌∙◌, ◌≡◌, refl, ap, sym, subst, arith, Option,
  none, some,
}
use nekiro_sdk_go.Errors.{>>=-ok, guard-ok_iff, GoError, Result, ok, err, check, or_wrap, or_error}
use nekiro_sdk_go.Base64.{decode_base64}
use nekiro_sdk_go.RouterAuth.Verify.{VerifierConfig}
use nekiro_sdk_go.RouterAuth.Replay.{new_replay_guard}
use nekiro_sdk_go.RouterAuth.Config.{
  ConfigContract, required_value, load_config, validate, decode_public_key, sized_key, Verifier,
  new_verifier, issuer_environment, audience_environment, key_id_environment,
  public_key_environment,
}

check-none :
    (e : Option GoError) (m : String) (u : Unit {0}) → or_wrap (check e) m ≡ ok u → e ≡ none
check-none none m u h = refl
check-none (some e) m u h = cc

or_error-ok {ℓ} : {A : Type ℓ} (r : Result A) (e : GoError) (a : A) → or_error r e ≡ ok a → r ≡ ok a
or_error-ok (ok x) e a h = h
or_error-ok (err d) e a h = cc

sized_key-length :
    (d : Option Bytes) (key : Bytes) → sized_key d ≡ ok key → (d ≡ some key) × (length key ≡ 32)
sized_key-length none key h = cc
sized_key-length (some decoded) key h = ground arith

-- Every value is what the environment holds under its name, and the key is decoded from it.
pub record IsLoaded (contract : ConfigContract) (lookup : Bytes → Option Bytes)
    (config : VerifierConfig) : Type 0 where
  pub issuer_value : lookup issuer_environment ≡ some config.config_issuer
  pub audience_value : lookup audience_environment ≡ some config.config_audience
  pub key_id_value : lookup key_id_environment ≡ some config.key_id
  pub encoded_key : Bytes
  pub key_value : lookup public_key_environment ≡ some encoded_key
  pub key_decoded : decode_base64 encoded_key ≡ some config.public_key
  pub valid : validate contract config ≡ ok tt

required_value-lookup :
    (lookup : Bytes → Option Bytes) (name : Bytes) (secret : Bool) (value : Bytes)
    → required_value lookup name secret ≡ ok value
    → lookup name ≡ some value
unfolding required_value
required_value-lookup lookup name secret value h = ground arith

validate_of :
    (contract : ConfigContract) (c : VerifierConfig)
    → contract.validate_issuer c.config_issuer ≡ none
    → contract.validate_audience c.config_audience ≡ none
    → contract.validate_key_id c.key_id ≡ none
    → length c.public_key ≡ 32
    → validate contract c ≡ ok tt
unfolding validate
validate_of contract c a b k l = rw (a, b, k, l)

-- A configuration that loads holds the environment's own values, with the key decoded, and passes
-- `Validate`.
pub load_config-IsLoaded :
    (contract : ConfigContract) (lookup : Bytes → Option Bytes) (config : VerifierConfig)
    → load_config contract lookup ≡ ok config
    → IsLoaded contract lookup config
unfolding load_config decode_public_key
load_config-IsLoaded contract lookup config h0 =
    let (issuer, e1, h1) = >>=-ok (required_value lookup issuer_environment false) _ _ h0 in
    let (_, e2, h2) = >>=-ok (or_wrap (check (contract.validate_issuer issuer)) _) _ _ h1 in
    let (audience, e3, h3) = >>=-ok (required_value lookup audience_environment false) _ _ h2 in
    let (_, e4, h4) = >>=-ok (or_wrap (check (contract.validate_audience audience)) _) _ _ h3 in
    let (key_id, e5, h5) = >>=-ok (required_value lookup key_id_environment false) _ _ h4 in
    let (_, e6, h6) = >>=-ok (or_wrap (check (contract.validate_key_id key_id)) _) _ _ h5 in
    let (encoded, e7, h7) = >>=-ok (required_value lookup public_key_environment true) _ _ h6 in
    let (key, e8, h8) = >>=-ok (or_error (sized_key (decode_base64 encoded)) _) _ _ h7 in
    let (key_of, size) =
      sized_key-length (decode_base64 encoded) key
        (or_error-ok (sized_key (decode_base64 encoded)) _ key e8) in
    let loaded : VerifierConfig = record {
      config_issuer = issuer;
      config_audience = audience;
      key_id = key_id;
      public_key = key;
    } in
    let valid =
      validate_of contract loaded (check-none (contract.validate_issuer issuer) _ _ e2)
        (check-none (contract.validate_audience audience) _ _ e4)
        (check-none (contract.validate_key_id key_id) _ _ e6) size in
    let last : loaded ≡ config = cc in
    subst (IsLoaded contract lookup) last (record {
      issuer_value = required_value-lookup lookup issuer_environment false issuer e1;
      audience_value = required_value-lookup lookup audience_environment false audience e3;
      key_id_value = required_value-lookup lookup key_id_environment false key_id e5;
      encoded_key = encoded;
      key_value = required_value-lookup lookup public_key_environment true encoded e7;
      key_decoded = key_of;
      valid = valid;
    })

-- A verifier is only built from a valid configuration, with a clock, and starts with no identifier
-- seen.
pub new_verifier-ok :
    (contract : ConfigContract) (config : VerifierConfig) (has_clock : Bool) (v : Verifier)
    → new_verifier contract config has_clock ≡ ok v
    → (validate contract config ≡ ok tt)
      × (has_clock ≡ true)
      × (v.config ≡ config)
      × ((id : Bytes) → v.replay.expires id ≡ none)
unfolding new_verifier new_replay_guard
new_verifier-ok contract config true v h0 =
    let (_, e1, h1) = >>=-ok (validate contract config) _ _ h0 in
    let fresh : Verifier = record { config = config; replay = record { expires = λ _. none } } in
    let last : fresh ≡ v = cc in
    (e1, refl, sym (ap (λ x. x.config) last), λ id. sym (ap (λ x. x.replay.expires id) last))
new_verifier-ok contract config false v h0 =
    let (_, e1, h1) = >>=-ok (validate contract config) _ _ h0 in absurd (ground arith)

-- The configuration of a verifier that has been built holds a key of 32 bytes.
pub new_verifier-length :
    (contract : ConfigContract) (config : VerifierConfig) (has_clock : Bool) (v : Verifier)
    → new_verifier contract config has_clock ≡ ok v
    → length v.config.public_key ≡ 32
unfolding validate
new_verifier-length contract config has_clock v h =
    let (valid, _, same, _) = new_verifier-ok contract config has_clock v h in
    let (_, e1, h1) =
      >>=-ok (or_wrap (check (contract.validate_issuer config.config_issuer)) _) _ _ valid in
    let (_, e2, h2) =
      >>=-ok (or_wrap (check (contract.validate_audience config.config_audience)) _) _ _ h1 in
    let (_, e3, h3) = >>=-ok (or_wrap (check (contract.validate_key_id config.key_id)) _) _ _ h2 in
    let sized : length config.public_key ≡ 32 =
      (==_iff (length config.public_key) 32).0 ((guard-ok_iff _ _).0 h3) in
    ap (λ c. length c.public_key) same ∙ sized
