-- ===== src/Host/Lifecycle/Early.antt =====
-- What `Host.Run` returns where it ends before it starts its goroutines.
use nekiro_sdk_go.Prelude.{Bool, false, none, some, List, ◌≡◌, refl, ◌≢◌, codes, arith}
use nekiro_sdk_go.Errors.{plain}
use nekiro_sdk_go.Host.Lifecycle.{
  Setup, Pc, creating, registering, checking, deciding, returned, State, Choice, proceed, returns,
  server_begins, lease_begins, server_returns, lease_returns, interrupt, timeout, init, main_step,
  step, run, run-keeps,
}
use nekiro_sdk_go.Host.Staged.{stage_config, stage_registration}
use nekiro_sdk_go.Host.Lifecycle.Outcome.{wrap_stage-ne-none}
use nekiro_sdk_go.Host.Lifecycle.Orderly.{CancelledAt}

-- A run that ends before it starts its goroutines returns an error.
abbrev pub FailedAt : Pc → Bool → Type 0
FailedAt (returned e) cancelled = cancelled ≡ false → e ≢ none
FailedAt pc cancelled = Unit

record FailsEarly (pc : Pc) (s : State) : Type 0 where
  cancelled_at : CancelledAt s.cancelled pc
  failed_at : FailedAt pc s.cancelled

main_step-FailsEarly :
    (setup : Setup) (pc : Pc) (c : Choice) (s t : State)
    → main_step setup pc c s ≡ some t
    → FailsEarly pc s
    → FailsEarly t.pc t
unfolding main_step
main_step-FailsEarly setup creating proceed s t h p = ground (
  arith,
  wrap_stage-ne-none stage_config (codes "create server") (plain "server factory returned nil"),
)
main_step-FailsEarly setup registering (returns none) s t h p = ground arith
main_step-FailsEarly setup registering (returns (some e)) s t h p =
    ground (arith, wrap_stage-ne-none stage_registration (codes "register runtime") e)
main_step-FailsEarly setup (checking source none) c s t h p = ground arith
main_step-FailsEarly setup (deciding source none) c s t h p = ground arith
main_step-FailsEarly setup pc c s t h p = ground arith

step-FailsEarly :
    (setup : Setup) (c : Choice) (s t : State)
    → step setup c s ≡ some t
    → FailsEarly s.pc s
    → FailsEarly t.pc t
unfolding step
step-FailsEarly setup server_begins s t h p = ground arith
step-FailsEarly setup lease_begins s t h p = ground arith
step-FailsEarly setup (server_returns e) s t h p = ground arith
step-FailsEarly setup (lease_returns e) s t h p = ground arith
step-FailsEarly setup interrupt s t h p = ground arith
step-FailsEarly setup timeout s t h p = ground arith
step-FailsEarly setup c s t h p = main_step-FailsEarly setup s.pc c s t h p

pub run-FailedAt :
    (setup : Setup) (schedule : List Choice) (t : State)
    → run setup schedule (init setup) ≡ some t
    → FailedAt t.pc t.cancelled
run-FailedAt setup schedule t h =
    (run-keeps setup (λ s. FailsEarly s.pc s) (step-FailsEarly setup) schedule (init setup) t h
      (record { cancelled_at = refl; failed_at = tt })).failed_at
