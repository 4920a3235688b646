-- ===== src/Nacos/Hosted/Settling.antt =====
-- What has reached the registrar when the host has returned.
use nekiro_sdk_go.Prelude.{ℕ, none, some, List, [], ◌∷◌, ◌≡◌}
use nekiro_sdk_go.Errors.{GoError, ok, err}
use nekiro_sdk_go.Host.State.{Pc, creating, registering, returned, State}
use nekiro_sdk_go.Nacos.Registration.{
  RegistrarCall, published, lease_closed, registrar_closed, Registration,
}

-- The calls that have reached the registrar once `Run` has returned.
pub data IsSettled : List RegistrarCall → Type 0 where
  untouched : {calls : List RegistrarCall} → calls ≡ [] → IsSettled calls
  refused :
      {calls : List RegistrarCall} (e : GoError) → calls ≡ published (err e) ∷ [] → IsSettled calls
  released :
      {calls : List RegistrarCall} (lease : ℕ)
      → calls ≡ published (ok (some lease)) ∷ lease_closed lease ∷ registrar_closed ∷ []
      → IsSettled calls
  released_nil :
      {calls : List RegistrarCall}
      → calls ≡ published (ok none) ∷ registrar_closed ∷ []
      → IsSettled calls

-- The registration where the host's main routine stands.
abbrev RegistrationAt : Pc → Registration → Type 0
RegistrationAt creating r = (r.lease ≡ none) × (r.calls ≡ [])
RegistrationAt registering r = (r.lease ≡ none) × (r.calls ≡ [])
RegistrationAt (returned e) r = IsSettled r.calls
RegistrationAt pc r = r.calls ≡ published (ok r.lease) ∷ []
