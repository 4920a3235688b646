-- ===== src/Nacos/Hosted.antt =====
-- The host and its Nacos registration together: `Host.Run` of agent/host/host.go, with the calls of
-- its registration answered by agent/registration/nacos/registration.go.
pub mod Settling
use nekiro_sdk_go.Prelude.{
  ℕ, Bool, true, false, not, ◌||◌, Option, none, some, List, [], ◌∷◌, ◌++◌, ◌≡◌, refl, sym, subst,
  ap, ◌∙◌, arith, if◌then◌else◌,
}
use nekiro_sdk_go.Errors.{GoError, Result, ok, err}
use nekiro_sdk_go.Host.State.{
  Setup, Source, server, lease, Pc, creating, registering, starting, selecting, checking, deciding,
  cancelling, shutting, stopping_server, stopping_lease, deregistering, returned, State, Choice,
  proceed, returns, take_done, take_server, take_lease, server_returns, lease_returns, interrupt,
  timeout, init,
}
use nekiro_sdk_go.Host.Lifecycle.{step, main_step, after}
use nekiro_sdk_go.Nacos.Registration.{
  RegistrarCall, published, lease_closed, registrar_closed, Registration, fresh, register, observe,
  deregister, Wake, context_done, lease_done, closing_calls,
}

pub record Joint : Type 0 where
  pub host : State
  pub registration : Registration

-- A choice of the host that is no call of its registration; or the registrar's answer to
-- `Register`; or what wakes `Run`; or the errors of the two `Close` calls of `Deregister`.
pub data JointChoice : Type 0 where
  hosts : Choice → JointChoice
  answers : Result (Option ℕ) → JointChoice
  wakes : Wake → JointChoice
  closes : Option GoError → Option GoError → JointChoice

-- The host's own choices: what its registration returns is not for the host to choose.
abbrev pub is_own : Pc → Choice → Bool
is_own registering (returns e) = false
is_own deregistering (returns e) = false
is_own pc (lease_returns e) = false
is_own pc c = true

abbrev pub with_registration : Registration → Option State → Option Joint
with_registration r none = none
with_registration r (some h) = some (record { host = h; registration = r })

abbrev pub at_register : Setup → Pc → Registration × Option GoError → State → Option Joint
at_register setup registering (r, e) h = with_registration r (step setup (returns e) h)
at_register setup pc r h = none

abbrev pub at_deregister : Setup → Pc → Registration × Option GoError → State → Option Joint
at_deregister setup deregistering (r, e) h = with_registration r (step setup (returns e) h)
at_deregister setup pc r h = none

-- `Run` wakes by its context only when the run context has ended.
abbrev pub can_wake : Wake → State → Bool
can_wake context_done h = h.interrupted || h.cancelled
can_wake (lease_done e) h = true

unfoldable pub joint_step : Setup → JointChoice → Joint → Option Joint
joint_step setup (hosts c) s =
    if is_own s.host.pc c then with_registration s.registration (step setup c s.host) else none
joint_step setup (answers a) s = at_register setup s.host.pc (register true a s.registration) s.host
joint_step setup (wakes w) s =
    if can_wake w s.host
    then with_registration s.registration
        (step setup (lease_returns (observe true w s.registration)) s.host)
    else none
joint_step setup (closes e d) s =
    at_deregister setup s.host.pc (deregister true e d s.registration) s.host

abbrev pub joint_after : Option Joint → (Joint → Option Joint) → Option Joint
joint_after none next = none
joint_after (some s) next = next s

unfoldable pub joint_run : Setup → List JointChoice → Joint → Option Joint
joint_run setup [] s = some s
joint_run setup (c ∷ rest) s = joint_after (joint_step setup c s) (λ t. joint_run setup rest t)

abbrev pub joint_init : Setup → Joint
joint_init setup = record { host = init setup; registration = fresh }
