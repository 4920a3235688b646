-- ===== src/Host/Lifecycle/Orderly.antt =====
-- What every step of `Host.Run` and of its goroutines keeps of the calls made so far.
use nekiro_sdk_go.Prelude.{
  ℕ, ◌+◌, Bool, true, false, if◌then◌else◌, none, some, List, [], ◌∷◌, ◌++◌, ◌≡◌, refl, arith,
}
use nekiro_sdk_go.Host.Lifecycle.{
  Setup, Call, register, listen, observe_lease, shutdown, deregister, Routine, idle, spawned, Pc,
  creating, registering, starting, checking, deciding, cancelling, shutting, stopping_server,
  stopping_lease, deregistering, returned, State, Choice, proceed, returns, server_begins,
  lease_begins, server_returns, lease_returns, interrupt, timeout, init, main_step, step, run,
  run-keeps,
}

-- The calls of the main routine, in their order, without those of the goroutines.
unfoldable pub main_calls : List Call → List Call
main_calls [] = []
main_calls (listen ∷ rest) = main_calls rest
main_calls (observe_lease ∷ rest) = main_calls rest
main_calls (call ∷ rest) = call ∷ main_calls rest

abbrev is_listen : Call → Bool
is_listen listen = true
is_listen call = false

abbrev is_observe : Call → Bool
is_observe observe_lease = true
is_observe call = false

-- How often the server was asked to listen, and the lease observed.
unfoldable pub listens : List Call → ℕ
listens [] = 0
listens (call ∷ rest) = (if is_listen call then 1 else 0) + listens rest

unfoldable pub observes : List Call → ℕ
observes [] = 0
observes (call ∷ rest) = (if is_observe call then 1 else 0) + observes rest

-- The registration was asked to register before any other call.
unfoldable pub registers_first : List Call → Bool
registers_first (register ∷ rest) = true
registers_first calls = false

-- What one more call changes.
record Appended (calls : List Call) (call : Call) : Type 0 where
  mains : main_calls (calls ++ call ∷ []) ≡ main_calls calls ++ main_calls (call ∷ [])
  listening : listens (calls ++ call ∷ []) ≡ listens calls + listens (call ∷ [])
  observing : observes (calls ++ call ∷ []) ≡ observes calls + observes (call ∷ [])
  first : registers_first calls ≡ true → registers_first (calls ++ call ∷ []) ≡ true

appended : (calls : List Call) (call : Call) → Appended calls call
unfolding main_calls listens observes registers_first
appended [] call = ground arith
appended (register ∷ rest) call = let later = appended rest call in ground arith
appended (made ∷ rest) call = let later = appended rest call in ground arith

-- The calls of a main routine that runs to its end, and those that one makes before its goroutines
-- start.
abbrev pub whole : Setup → List Call
whole setup = if setup.managed then register ∷ shutdown ∷ deregister ∷ [] else shutdown ∷ []

abbrev pub opening : Setup → List Call
opening setup = if setup.managed then register ∷ [] else []

abbrev pub closing : Setup → List Call
closing setup = if setup.managed then register ∷ shutdown ∷ [] else shutdown ∷ []

-- The calls of a run that returns before it starts its goroutines.
abbrev pub aborted : Setup → List Call
aborted setup = if setup.server_nil then [] else opening setup

-- What the main routine has called where it stands.
abbrev pub calls_at : Setup → Bool → Pc → List Call
calls_at setup cancelled creating = []
calls_at setup cancelled shutting = closing setup
calls_at setup cancelled stopping_server = closing setup
calls_at setup cancelled stopping_lease = closing setup
calls_at setup cancelled deregistering = whole setup
calls_at setup cancelled (returned e) = if cancelled then whole setup else aborted setup
calls_at setup cancelled pc = opening setup

-- `cancel()` has run exactly from the shutdown on.
abbrev pub CancelledAt : Bool → Pc → Type 0
CancelledAt cancelled shutting = cancelled ≡ true
CancelledAt cancelled stopping_server = cancelled ≡ true
CancelledAt cancelled stopping_lease = cancelled ≡ true
CancelledAt cancelled deregistering = cancelled ≡ true
CancelledAt cancelled (returned e) = Unit
CancelledAt cancelled pc = cancelled ≡ false

-- Past the factory's test the server is not nil, and the registration is used if there is one.
abbrev pub PastTest : Setup → Bool → Pc → Type 0
PastTest setup cancelled creating = Unit
PastTest setup cancelled registering = (setup.server_nil ≡ false) × (setup.managed ≡ true)
PastTest setup cancelled deregistering = (setup.server_nil ≡ false) × (setup.managed ≡ true)
PastTest setup cancelled (returned e) = cancelled ≡ true → setup.server_nil ≡ false
PastTest setup cancelled _ = setup.server_nil ≡ false

-- A goroutine has made its call.
abbrev pub begun : Routine → ℕ
begun idle = 0
begun spawned = 0
begun _ = 1

-- Nothing but the main routine has made a call.
pub record IsQuiet (s : State) (calls : List Call) : Type 0 where
  pub exact : s.calls ≡ calls
  pub no_server : s.server_routine ≡ idle
  pub no_lease : s.lease_routine ≡ idle

-- So it is before the `go` statements, and where they are never reached.
abbrev pub QuietAt : Setup → Pc → State → Type 0
QuietAt setup creating s = IsQuiet s []
QuietAt setup registering s = IsQuiet s (opening setup)
QuietAt setup starting s = IsQuiet s (opening setup)
QuietAt setup (returned e) s = s.cancelled ≡ false → IsQuiet s (aborted setup)
QuietAt setup pc s = Unit

abbrev pub FirstAt : Setup → Pc → List Call → Type 0
FirstAt setup creating calls = Unit
FirstAt setup (returned e) calls =
    setup.managed ≡ true → setup.server_nil ≡ false → registers_first calls ≡ true
FirstAt setup pc calls = setup.managed ≡ true → registers_first calls ≡ true

pub record IsOrderly (setup : Setup) (pc : Pc) (s : State) : Type 0 where
  pub calls_made : main_calls s.calls ≡ calls_at setup s.cancelled pc
  pub listening : listens s.calls ≡ begun s.server_routine
  pub observing : observes s.calls ≡ begun s.lease_routine
  pub cancelled_at : CancelledAt s.cancelled pc
  pub past_test : PastTest setup s.cancelled pc
  pub quiet_at : QuietAt setup pc s
  pub first_at : FirstAt setup pc s.calls
  pub no_lease : setup.managed ≡ false → s.lease_routine ≡ idle

main_step-IsOrderly :
    (setup : Setup) (pc : Pc) (c : Choice) (s t : State)
    → main_step setup pc c s ≡ some t
    → IsOrderly setup pc s
    → IsOrderly setup t.pc t
unfolding main_step main_calls listens observes registers_first
main_step-IsOrderly setup creating proceed s t h p =
    let later = appended s.calls register in ground arith
main_step-IsOrderly setup registering (returns none) s t h p = ground arith
main_step-IsOrderly setup (checking source none) c s t h p = ground arith
main_step-IsOrderly setup (deciding source none) c s t h p = ground arith
main_step-IsOrderly setup cancelling proceed s t h p =
    let later = appended s.calls shutdown in ground arith
main_step-IsOrderly setup stopping_lease c s t h p =
    let later = appended s.calls deregister in ground arith
main_step-IsOrderly setup pc c s t h p = ground arith

pub step-IsOrderly :
    (setup : Setup) (c : Choice) (s t : State)
    → step setup c s ≡ some t
    → IsOrderly setup s.pc s
    → IsOrderly setup t.pc t
unfolding step main_calls listens observes
step-IsOrderly setup server_begins s t h p = let later = appended s.calls listen in ground arith
step-IsOrderly setup lease_begins s t h p =
    let later = appended s.calls observe_lease in ground arith
step-IsOrderly setup (server_returns e) s t h p = ground arith
step-IsOrderly setup (lease_returns e) s t h p = ground arith
step-IsOrderly setup interrupt s t h p = ground arith
step-IsOrderly setup timeout s t h p = ground arith
step-IsOrderly setup c s t h p = main_step-IsOrderly setup s.pc c s t h p

pub run-IsOrderly :
    (setup : Setup) (schedule : List Choice) (t : State)
    → run setup schedule (init setup) ≡ some t
    → IsOrderly setup t.pc t
unfolding main_calls listens observes
run-IsOrderly setup schedule t h =
    run-keeps setup (λ s. IsOrderly setup s.pc s) (step-IsOrderly setup) schedule (init setup) t h
      (record {
        calls_made = refl;
        listening = refl;
        observing = refl;
        cancelled_at = refl;
        past_test = tt;
        quiet_at = record { exact = refl; no_server = refl; no_lease = refl };
        first_at = tt;
        no_lease = λ _. refl;
      })
