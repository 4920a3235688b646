-- ===== src/Host/Lifecycle/Stages.antt =====
-- Every error that `Host.Run` returns carries a stage.
use nekiro_sdk_go.Prelude.{Bytes, true, Option, none, some, List, ◌≡◌, sym, subst, arith}
use nekiro_sdk_go.Errors.{GoError, errors_join}
use nekiro_sdk_go.Host.Staged.{wrap_stage, wrap_stage-IsStaged, stage_of, valid_stage}
use nekiro_sdk_go.Host.Lifecycle.{
  Setup, server, lease, Pc, creating, registering, checking, deciding, shutting, stopping_server,
  stopping_lease, deregistering, returned, State, Choice, returns, server_begins, lease_begins,
  server_returns, lease_returns, interrupt, timeout, init, main_step, step, run, run-keeps,
}

abbrev IsStage : GoError → Type 0
IsStage e = (stage : Bytes) × (stage_of e ≡ some stage) × (valid_stage stage ≡ true)

-- An error that may be nil is nil or has a stage.
HasStage : Option GoError → Type 0
HasStage none = Unit
HasStage (some e) = IsStage e

wrap_stage-HasStage :
    (stage message : Bytes) (e : Option GoError) → HasStage (wrap_stage stage message e)
unfolding HasStage wrap_stage
wrap_stage-HasStage stage message none = tt
wrap_stage-HasStage stage message (some e) =
    let (made, p, q) = wrap_stage-IsStaged stage message e in
    subst HasStage (sym p) (q.stage, q.stage_found, q.stage_known)

errors_join-HasStage : (d e : Option GoError) → HasStage d → HasStage e → HasStage (errors_join d e)
unfolding HasStage stage_of
errors_join-HasStage none e p q = q
errors_join-HasStage (some d) none p q = p
errors_join-HasStage (some d) (some e) (stage, found, known) q = (stage, rw found, known)

with_error-HasStage :
    (stage message : Bytes) (r e : Option GoError)
    → HasStage r
    → HasStage (errors_join r (wrap_stage stage message e))
with_error-HasStage stage message r e p =
    errors_join-HasStage r _ p (wrap_stage-HasStage stage message e)

-- The error so far has a stage, and so has the one that is returned.
abbrev StagedAt : Pc → Option GoError → Type 0
StagedAt (returned e) r = HasStage e
StagedAt pc r = HasStage r

main_step-StagedAt :
    (setup : Setup) (pc : Pc) (c : Choice) (s t : State)
    → main_step setup pc c s ≡ some t
    → StagedAt pc s.run_error
    → StagedAt t.pc t.run_error
unfolding main_step
main_step-StagedAt setup creating c s t h p = grind (arith, wrap_stage-HasStage)
main_step-StagedAt setup registering (returns none) s t h p = ground arith
main_step-StagedAt setup registering c s t h p = grind (arith, wrap_stage-HasStage)
main_step-StagedAt setup (checking source none) c s t h p = ground arith
main_step-StagedAt setup (deciding source none) c s t h p = ground arith
main_step-StagedAt setup (deciding server e) c s t h p = grind (arith, wrap_stage-HasStage)
main_step-StagedAt setup (deciding lease e) c s t h p = grind (arith, wrap_stage-HasStage)
main_step-StagedAt setup shutting c s t h p = grind (arith, with_error-HasStage)
main_step-StagedAt setup stopping_server c s t h p = grind (arith, with_error-HasStage)
main_step-StagedAt setup stopping_lease c s t h p = grind (arith, with_error-HasStage)
main_step-StagedAt setup deregistering c s t h p = grind (arith, with_error-HasStage)
main_step-StagedAt setup pc c s t h p = ground arith

step-StagedAt :
    (setup : Setup) (c : Choice) (s t : State)
    → step setup c s ≡ some t
    → StagedAt s.pc s.run_error
    → StagedAt t.pc t.run_error
unfolding step
step-StagedAt setup server_begins s t h p = ground arith
step-StagedAt setup lease_begins s t h p = ground arith
step-StagedAt setup (server_returns e) s t h p = ground arith
step-StagedAt setup (lease_returns e) s t h p = ground arith
step-StagedAt setup interrupt s t h p = ground arith
step-StagedAt setup timeout s t h p = ground arith
step-StagedAt setup c s t h p = main_step-StagedAt setup s.pc c s t h p

-- Every error that `Run` returns has one of the five stages, whatever the order of the steps and
-- whatever the server and the registration return.
pub run-stage_of :
    (setup : Setup) (schedule : List Choice) (t : State) (e : GoError)
    → run setup schedule (init setup) ≡ some t
    → t.pc ≡ returned (some e)
    → (stage : Bytes) × (stage_of e ≡ some stage) × (valid_stage stage ≡ true)
unfolding HasStage
run-stage_of setup schedule t e h at_end =
    subst (λ pc. StagedAt pc t.run_error) at_end
      (run-keeps setup (λ s. StagedAt s.pc s.run_error) (step-StagedAt setup) schedule (init setup)
        t h tt)
