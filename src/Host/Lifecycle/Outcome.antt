-- ===== src/Host/Lifecycle/Outcome.antt =====
-- What `Host.Run` returns: the causes of a clean exit, and the stage of an error.
use nekiro_sdk_go.Prelude.{
  Bytes, true, false, Option, none, some, List, ◌≡◌, ◌≢◌, refl, subst, arith, codes,
}
use nekiro_sdk_go.Errors.{GoError, plain, errors_join}
use nekiro_sdk_go.Host.Staged.{
  wrap_stage, wrap_stage-IsStaged, stage_config, stage_registration, stage_serve, stage_shutdown,
}
use nekiro_sdk_go.Host.Lifecycle.{
  Setup, received, server, lease, Pc, creating, registering, checking, deciding, cancelling,
  shutting, stopping_server, stopping_lease, deregistering, returned, State, Choice, proceed,
  returns, take_done, take_server, take_lease, server_begins, lease_begins, server_returns,
  lease_returns, interrupt, timeout, init, main_step, step, run, run-keeps, overdue,
}

-- The error so far, and at the end the one that is returned.
abbrev error_at : Pc → Option GoError → Option GoError
error_at (returned e) r = e
error_at pc r = r

-- Past the first `select`, and without an error, the run context has ended.
abbrev CausedAt : Setup → Pc → State → Type 0
CausedAt setup (deciding source e) s = (s.cancelled ≡ false) × (e ≡ none → s.interrupted ≡ true)
CausedAt setup cancelling s = s.run_error ≡ none → s.interrupted ≡ true
CausedAt setup shutting s = s.run_error ≡ none → s.interrupted ≡ true
CausedAt setup stopping_server s = s.run_error ≡ none → s.interrupted ≡ true
CausedAt setup stopping_lease s = s.run_error ≡ none → s.interrupted ≡ true
CausedAt setup deregistering s = s.run_error ≡ none → s.interrupted ≡ true
CausedAt setup (returned e) s = e ≡ none → s.interrupted ≡ true
CausedAt setup (checking source e) s = s.cancelled ≡ false
CausedAt setup pc s =
    (s.cancelled ≡ false)
    × (s.server_stopped ≡ false)
    × (setup.managed ≡ true → s.lease_stopped ≡ false)

-- The error of the server has been received, or one has been recorded.
abbrev ServerAt : Pc → State → Type 0
ServerAt stopping_lease s = s.run_error ≡ none → s.server_routine ≡ received
ServerAt deregistering s = s.run_error ≡ none → s.server_routine ≡ received
ServerAt (returned e) s = e ≡ none → s.server_routine ≡ received
ServerAt pc s = Unit

abbrev LeaseAt : Setup → Pc → State → Type 0
LeaseAt setup deregistering s =
    s.run_error ≡ none → setup.managed ≡ true → s.lease_routine ≡ received
LeaseAt setup (returned e) s = e ≡ none → setup.managed ≡ true → s.lease_routine ≡ received
LeaseAt setup pc s = Unit

record HasCause (setup : Setup) (pc : Pc) (s : State) : Type 0 where
  caused : CausedAt setup pc s
  server_stopped : s.server_stopped ≡ true → s.server_routine ≡ received
  lease_stopped : s.lease_stopped ≡ true → setup.managed ≡ true → s.lease_routine ≡ received
  server_at : ServerAt pc s
  lease_at : LeaseAt setup pc s

pub wrap_stage-ne-none :
    (stage message : Bytes) (e : GoError) → wrap_stage stage message (some e) ≢ none
wrap_stage-ne-none stage message e h = let (made, p, q) = wrap_stage-IsStaged stage message e in cc

-- Nothing is joined but where both errors are nil.
errors_join-none :
    (stage message : Bytes) (r e : Option GoError)
    → errors_join r (wrap_stage stage message e) ≡ none
    → (r ≡ none) × (e ≡ none)
errors_join-none stage message (some d) e h = cc
errors_join-none stage message none none h = (refl, refl)
errors_join-none stage message none (some e) h = absurd (wrap_stage-ne-none stage message e h)

main_step-HasCause :
    (setup : Setup) (pc : Pc) (c : Choice) (s t : State)
    → main_step setup pc c s ≡ some t
    → HasCause setup pc s
    → HasCause setup t.pc t
unfolding main_step
main_step-HasCause setup creating c s t h p = ground (
  arith,
  wrap_stage-ne-none stage_config (codes "create server") (plain "server factory returned nil"),
)
main_step-HasCause setup registering (returns none) s t h p = ground arith
main_step-HasCause setup registering (returns (some e)) s t h p =
    ground (arith, wrap_stage-ne-none stage_registration (codes "register runtime") e)
main_step-HasCause setup (checking source none) c s t h p = ground arith
main_step-HasCause setup (deciding source none) c s t h p = ground arith
main_step-HasCause setup (deciding server (some e)) c s t h p =
    ground (arith, wrap_stage-ne-none stage_serve (codes "serve runtime") e)
main_step-HasCause setup (deciding lease (some e)) c s t h p =
    ground (arith, wrap_stage-ne-none stage_registration (codes "registration lease") e)
main_step-HasCause setup shutting (returns e) s t h p =
    ground (arith, errors_join-none stage_shutdown (codes "shutdown server") s.run_error e)
main_step-HasCause setup stopping_server proceed s t h p = ground arith
main_step-HasCause setup stopping_server take_server s t h p = grind (arith, errors_join-none)
main_step-HasCause setup stopping_server take_done s t h p =
    ground (arith, errors_join-none stage_shutdown (codes "stop server") s.run_error overdue)
main_step-HasCause setup stopping_lease proceed s t h p = ground arith
main_step-HasCause setup stopping_lease take_lease s t h p = grind (arith, errors_join-none)
main_step-HasCause setup stopping_lease take_done s t h p =
    ground
      (arith, errors_join-none stage_shutdown (codes "stop registration lease") s.run_error overdue)
main_step-HasCause setup deregistering (returns e) s t h p =
    ground (arith, errors_join-none stage_shutdown (codes "deregister runtime") s.run_error e)
main_step-HasCause setup pc c s t h p = ground arith

step-HasCause :
    (setup : Setup) (c : Choice) (s t : State)
    → step setup c s ≡ some t
    → HasCause setup s.pc s
    → HasCause setup t.pc t
unfolding step
step-HasCause setup server_begins s t h p = ground arith
step-HasCause setup lease_begins s t h p = ground arith
step-HasCause setup (server_returns e) s t h p = ground arith
step-HasCause setup (lease_returns e) s t h p = ground arith
step-HasCause setup interrupt s t h p = ground arith
step-HasCause setup timeout s t h p = ground arith
step-HasCause setup c s t h p = main_step-HasCause setup s.pc c s t h p

init-HasCause : (setup : Setup) → HasCause setup creating (init setup)
init-HasCause setup = ground arith

-- Where `Run` returns nil, whatever the order of the steps: the run context was ended from outside,
-- by the caller's context or a signal, and the goroutine of the server, and that of the lease where
-- there is a registration, has ended and its error has been read.
pub run-clean_exit :
    (setup : Setup) (schedule : List Choice) (t : State)
    → run setup schedule (init setup) ≡ some t
    → t.pc ≡ returned none
    → (t.interrupted ≡ true)
      × (t.server_routine ≡ received)
      × (setup.managed ≡ true → t.lease_routine ≡ received)
run-clean_exit setup schedule t h at_end =
    let p =
      run-keeps setup (λ s. HasCause setup s.pc s) (step-HasCause setup) schedule (init setup) t h
        (init-HasCause setup) in
    clean (subst (λ pc. HasCause setup pc t) at_end p)
  where
    clean :
        HasCause setup (returned none) t
        → (t.interrupted ≡ true)
          × (t.server_routine ≡ received)
          × (setup.managed ≡ true → t.lease_routine ≡ received)
    clean p = (p.caused refl, p.server_at refl, p.lease_at refl)
