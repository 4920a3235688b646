-- ===== src/Host/Policy.antt =====
-- The policy that `New` of agent/host/host.go validates.
use nekiro_sdk_go.Prelude.{
  Bytes, Bool, true, false, ◌||◌, ◌&&◌, not, ◌≡◌, ◌≢◌, ◌↔◌, refl, if◌then◌else◌, Option, none, some,
  List, [], ◌∷◌, codes, bytes_eq, bytes_eq_iff, All, arith,
}
use nekiro_sdk_go.Prelude.Int.{ℤ, pos, leb_ℤ, ◌<ℤ◌}
use nekiro_sdk_go.Errors.{GoError, plain}
use nekiro_sdk_go.Host.Staged.{wrap_stage, stage_config}

-- A value of interface type: `nil`, a value of a kind that can be nil with whether it is, or another.
pub data Interface : Type 0 where
  absent : Interface
  nilable : Bool → Interface
  solid : Interface

-- `isNil`
unfoldable pub is_nil : Interface → Bool
is_nil absent = true
is_nil (nilable b) = b
is_nil solid = false

unfoldable pub is_absent : Interface → Bool
is_absent absent = true
is_absent _ = false

pub data Factory : Type 0 where
  default_server : Factory
  custom : Factory

pub record Config : Type 0 where
  pub address : Bytes
  pub handler : Interface
  pub registration : Interface
  pub shutdown_timeout : ℤ
  pub signals : Option (List Interface)
  pub new_server : Option Factory

abbrev pub is_none {ℓ} : {A : Type ℓ} → Option A → Bool
is_none none = true
is_none (some a) = false

unfoldable pub policy_missing : Config → Bool
policy_missing c =
    bytes_eq c.address []
    || is_nil c.handler
    || leb_ℤ c.shutdown_timeout (pos 0)
    || is_none c.signals
    || (not (is_absent c.registration) && is_nil c.registration)

-- `configuredSignal == nil`: a typed nil pointer passes.
unfoldable pub any_absent : List Interface → Bool
unfolding is_absent
any_absent [] = false
any_absent (s ∷ rest) = is_absent s || any_absent rest

abbrev pub the_list : Option (List Interface) → List Interface
the_list none = []
the_list (some l) = l

abbrev pub with_factory : Option Factory → Config → Config
with_factory none c = record c { new_server = some default_server }
with_factory (some f) c = c

abbrev pub policy_error : Bytes → GoError → Option GoError
policy_error message e = wrap_stage stage_config message (some e)

-- `New`: the host, or the staged error.
pub data Constructed : Type 0 where
  host : Config → Constructed
  invalid : Option GoError → Constructed

unfoldable pub new : Config → Constructed
new c =
    if policy_missing c
    then invalid (
        policy_error (codes "validate host policy")
          (plain "address, handler, shutdown timeout, and signals are required"))
    else if any_absent (the_list c.signals)
    then invalid (policy_error (codes "validate host policy") (plain "signals cannot contain nil"))
    else host (with_factory c.new_server c)

-- A value that can be used.
abbrev IsUsable : Interface → Type 0
IsUsable v = (v ≢ absent) × (v ≢ nilable true)

-- The policy of a host that can run: every part is set and usable, the registration may be left out.
pub record IsRunnable (c : Config) : Type 0 where
  pub address_set : c.address ≢ []
  pub handler_usable : IsUsable c.handler
  pub registration_usable : c.registration ≢ absent → IsUsable c.registration
  pub timeout_positive : pos 0 <ℤ c.shutdown_timeout
  pub signals_set : c.signals ≢ none
  pub signals_present : All (λ s. s ≢ absent) (the_list c.signals)

is_nil_iff : (v : Interface) → (is_nil v ≡ false) ↔ IsUsable v
unfolding is_nil
is_nil_iff absent = (λ h. cc, λ h. absurd (h.0 refl))
is_nil_iff (nilable true) = (λ h. cc, λ h. absurd (h.1 refl))
is_nil_iff (nilable false) = (λ h. (λ e. cc, λ e. cc), λ h. refl)
is_nil_iff solid = (λ h. (λ e. cc, λ e. cc), λ h. refl)

is_absent_iff : (v : Interface) → (is_absent v ≡ false) ↔ (v ≢ absent)
unfolding is_absent
is_absent_iff absent = (λ h. cc, λ h. absurd (h refl))
is_absent_iff (nilable b) = (λ h e. cc, λ h. refl)
is_absent_iff solid = (λ h e. cc, λ h. refl)

||-false : (a b : Bool) → ((a || b) ≡ false) ↔ ((a ≡ false) × (b ≡ false))
||-false true b = (λ h. cc, λ h. h.0)
||-false false b = (λ h. (refl, h), λ h. h.1)

registration_iff :
    (v : Interface) → ((not (is_absent v) && is_nil v) ≡ false) ↔ (v ≢ absent → IsUsable v)
unfolding is_absent
registration_iff absent = (λ h n. absurd (n refl), λ h. refl)
registration_iff (nilable b) =
    (λ h n. (is_nil_iff (nilable b)).0 h, λ h. (is_nil_iff (nilable b)).1 (h (λ e. cc)))
registration_iff solid = (λ h n. (is_nil_iff solid).0 h, λ h. (is_nil_iff solid).1 (h (λ e. cc)))

any_absent_iff : (l : List Interface) → (any_absent l ≡ false) ↔ All (λ s. s ≢ absent) l
unfolding any_absent
any_absent_iff [] = (λ h. tt, λ h. refl)
any_absent_iff (s ∷ rest) = (
  λ h. let p = (||-false _ _).0 h in ((is_absent_iff s).0 p.0, (any_absent_iff rest).0 p.1),
  λ h. (||-false _ _).1 ((is_absent_iff s).1 h.0, (any_absent_iff rest).1 h.1),
)

-- The guard of `New`.
accepted : Config → Bool
accepted c = not (policy_missing c) && not (any_absent (the_list c.signals))

accepted-IsRunnable : (c : Config) → accepted c ≡ true → IsRunnable c
unfolding accepted policy_missing
accepted-IsRunnable c h = record {
  address_set = ground (arith, bytes_eq_iff c.address []);
  handler_usable = (is_nil_iff c.handler).0 (ground arith);
  registration_usable = (registration_iff c.registration).0 (ground arith);
  timeout_positive = ground arith;
  signals_set = ground arith;
  signals_present = (any_absent_iff (the_list c.signals)).0 (ground arith);
}

IsRunnable-accepted : (c : Config) → IsRunnable c → accepted c ≡ true
unfolding accepted policy_missing
IsRunnable-accepted c r = ground (
  arith,
  bytes_eq_iff c.address [],
  (is_nil_iff c.handler).1 r.handler_usable,
  (registration_iff c.registration).1 r.registration_usable,
  (any_absent_iff (the_list c.signals)).1 r.signals_present,
)

-- `New` makes a host exactly of the policies whose address is set, whose handler is neither nil nor
-- a typed nil, whose registration is left out or likewise usable, whose timeout is positive, and
-- whose signals are given, none of them nil; the host keeps every field, with the default server
-- where no factory is given.
pub new-host_iff : (c : Config) → (new c ≡ host (with_factory c.new_server c)) ↔ IsRunnable c
unfolding new accepted
new-host_iff c =
    (λ h. accepted-IsRunnable c (ground arith), λ r. ground (arith, IsRunnable-accepted c r))
