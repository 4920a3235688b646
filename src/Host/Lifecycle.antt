-- ===== src/Host/Lifecycle.antt =====
-- `Host.Run` of agent/host/host.go: the main routine, the goroutines of the server and of the
-- registration lease, and their environment, one step at a time and in any order. A goroutine may make
-- its call at any time after its `go` statement, even once `Run` has returned.
pub mod Orderly
pub mod Early
pub mod Calls
pub mod Stages
pub mod Outcome
pub mod Rank
pub mod Progress
use nekiro_sdk_go.Prelude.{
  Bytes, Bool, true, false, ◌&&◌, ◌||◌, not, ◌≡◌, if◌then◌else◌, Option, none, some, List, [], ◌∷◌,
  ◌++◌, codes, subst, refl,
}
use nekiro_sdk_go.Errors.{
  GoError, sentinel, plain, server_closed, canceled, deadline_exceeded, is_error, errors_join,
}
pub use nekiro_sdk_go.Host.State.{
  Setup, Call, register, listen, observe_lease, shutdown, deregister, Routine, idle, spawned,
  running, sent, received, Source, server, lease, Pc, creating, registering, starting, selecting,
  checking, deciding, cancelling, shutting, stopping_server, stopping_lease, deregistering,
  returned, State, Choice, proceed, returns, take_done, take_server, take_lease, server_begins,
  lease_begins, server_returns, lease_returns, interrupt, timeout, init,
}
use nekiro_sdk_go.Host.Staged.{
  wrap_stage, stage_config, stage_registration, stage_serve, stage_shutdown,
}

-- `runErr = errors.Join(runErr, Wrap(stage, message, err))`
abbrev pub with_error : Bytes → Bytes → Option GoError → State → State
with_error stage message e s = record s {
  run_error = errors_join s.run_error (wrap_stage stage message e);
}

abbrev pub enabled : Bool → State → Option State
enabled test s = if test then some s else none

-- The value that waits in a goroutine's channel.
abbrev pub receive : Routine → (Option GoError → State) → Option State
receive (sent e) next = some (next e)
receive _ next = none

create : Setup → Choice → State → Option State
create setup proceed s = some (
    if setup.server_nil
    then record s {
      pc = returned (
          wrap_stage stage_config (codes "create server")
            (some (plain "server factory returned nil")));
    }
    else if setup.managed
    then record s { pc = registering; calls = s.calls ++ register ∷ [] }
    else record s { pc = starting })
create setup _ s = none

finish_register : Choice → State → Option State
finish_register (returns none) s = some (record s { pc = starting })
finish_register (returns (some e)) s =
    some (record s {
      pc = returned (wrap_stage stage_registration (codes "register runtime") (some e));
    })
finish_register _ s = none

-- The two `go` statements; the goroutines make their calls later, when they are scheduled.
start : Setup → Choice → State → Option State
start setup proceed s = some (record s {
  pc = selecting;
  server_routine = spawned;
  lease_routine = (if setup.managed then spawned else idle);
})
start setup _ s = none

-- The first `select`.
first_select : Choice → State → Option State
first_select take_done s = enabled (s.interrupted || s.cancelled) (record s { pc = cancelling })
first_select take_server s =
    receive s.server_routine
      λ e. record s { pc = checking server e; server_routine = received; server_stopped = true }
first_select take_lease s =
    receive s.lease_routine
      λ e. record s { pc = checking lease e; lease_routine = received; lease_stopped = true }
first_select _ s = none

abbrev pub stopped_early : Source → GoError
stopped_early server = plain "server stopped before host cancellation"
stopped_early lease = plain "registration lease stopped before host cancellation"

abbrev pub lifecycle_error : Source → GoError → Option GoError
lifecycle_error server e = wrap_stage stage_serve (codes "serve runtime") (some e)
lifecycle_error lease e = wrap_stage stage_registration (codes "registration lease") (some e)

-- `if err == nil && runContext.Err() == nil`
check_stop : Source → Option GoError → Choice → State → Option State
check_stop source none proceed s = some (record s {
  pc = deciding source (if s.interrupted || s.cancelled then none else some (stopped_early source));
})
check_stop source (some e) proceed s = some (record s { pc = deciding source (some e) })
check_stop source e _ s = none

-- `if err != nil && runContext.Err() == nil`, where the context is read again.
decide_stop : Source → Option GoError → Choice → State → Option State
decide_stop source none proceed s = some (record s { pc = cancelling })
decide_stop source (some e) proceed s = some (
    if s.interrupted || s.cancelled
    then record s { pc = cancelling }
    else record s { pc = cancelling; run_error = lifecycle_error source e })
decide_stop source e _ s = none

-- `cancel()`, the shutdown context, and the call of `Shutdown`.
cancel : Choice → State → Option State
cancel proceed s =
    some (record s { pc = shutting; cancelled = true; calls = s.calls ++ shutdown ∷ [] })
cancel _ s = none

finish_shutdown : Choice → State → Option State
finish_shutdown (returns e) s =
    some (with_error stage_shutdown (codes "shutdown server") e (record s { pc = stopping_server }))
finish_shutdown _ s = none

abbrev pub overdue : Option GoError
overdue = some (sentinel deadline_exceeded)

-- `if !serverStopped`, with its `select`.
stop_server : Choice → State → Option State
stop_server proceed s = enabled s.server_stopped (record s { pc = stopping_lease })
stop_server take_server s =
    if s.server_stopped
    then none
    else receive s.server_routine λ e.
      with_error stage_shutdown (codes "stop server") e
        (record s { pc = stopping_lease; server_routine = received })
stop_server take_done s =
    enabled (not s.server_stopped && s.timed_out)
      (with_error stage_shutdown (codes "stop server") overdue (record s { pc = stopping_lease }))
stop_server _ s = none

-- `err != nil && !errors.Is(err, context.Canceled)`
abbrev pub unless_canceled : Option GoError → Option GoError
unless_canceled e = if is_error e canceled then none else e

-- After the lease: the call of `Deregister`, or the end.
abbrev pub leave : Setup → State → State
leave setup s =
    if setup.managed
    then record s { pc = deregistering; calls = s.calls ++ deregister ∷ [] }
    else record s { pc = returned s.run_error }

stop_lease : Setup → Choice → State → Option State
stop_lease setup proceed s = enabled (s.lease_stopped || not setup.managed) (leave setup s)
stop_lease setup take_lease s =
    if s.lease_stopped || not setup.managed
    then none
    else receive s.lease_routine λ e. leave setup (
        with_error stage_registration (codes "stop registration lease") (unless_canceled e)
          (record s { lease_routine = received }))
stop_lease setup take_done s =
    enabled (not (s.lease_stopped || not setup.managed) && s.timed_out)
      (leave setup (with_error stage_shutdown (codes "stop registration lease") overdue s))
stop_lease setup _ s = none

finish_deregister : Choice → State → Option State
finish_deregister (returns e) s =
    let t = with_error stage_shutdown (codes "deregister runtime") e s in
    some (record t { pc = returned t.run_error })
finish_deregister _ s = none

-- A step of the main routine.
unfoldable pub main_step : Setup → Pc → Choice → State → Option State
unfolding create finish_register start first_select check_stop decide_stop cancel finish_shutdown
    stop_server stop_lease finish_deregister
main_step setup creating c s = create setup c s
main_step setup registering c s = finish_register c s
main_step setup starting c s = start setup c s
main_step setup selecting c s = first_select c s
main_step setup (checking source e) c s = check_stop source e c s
main_step setup (deciding source e) c s = decide_stop source e c s
main_step setup cancelling c s = cancel c s
main_step setup shutting c s = finish_shutdown c s
main_step setup stopping_server c s = stop_server c s
main_step setup stopping_lease c s = stop_lease setup c s
main_step setup deregistering c s = finish_deregister c s
main_step setup (returned e) c s = none

-- The server's goroutine hides `http.ErrServerClosed`.
abbrev pub unless_closed : Option GoError → Option GoError
unless_closed e = if is_error e server_closed then none else e

abbrev pub when_running : Routine → State → Option State
when_running running s = some s
when_running _ s = none

abbrev pub when_spawned : Routine → State → Option State
when_spawned spawned s = some s
when_spawned _ s = none

unfoldable pub step : Setup → Choice → State → Option State
unfolding main_step
step setup server_begins s =
    when_spawned s.server_routine
      (record s { server_routine = running; calls = s.calls ++ listen ∷ [] })
step setup lease_begins s =
    when_spawned s.lease_routine
      (record s { lease_routine = running; calls = s.calls ++ observe_lease ∷ [] })
step setup (server_returns e) s =
    when_running s.server_routine (record s { server_routine = sent (unless_closed e) })
step setup (lease_returns e) s = when_running s.lease_routine (record s { lease_routine = sent e })
step setup interrupt s = some (record s { interrupted = true })
step setup timeout s = enabled s.cancelled (record s { timed_out = true })
step setup c s = main_step setup s.pc c s

abbrev pub after : Option State → (State → Option State) → Option State
after none next = none
after (some s) next = next s

-- A schedule, played from a state: `none` when a choice is not open where it is made.
unfoldable pub run : Setup → List Choice → State → Option State
run setup [] s = some s
run setup (c ∷ rest) s = after (step setup c s) (λ t. run setup rest t)

after-some :
    (m : Option State) (next : State → Option State) (t : State)
    → after m next ≡ some t
    → (u : State) × (m ≡ some u) × (next u ≡ some t)
after-some none next t h = cc
after-some (some u) next t h = (u, refl, h)

-- What every step keeps, every schedule keeps.
pub run-keeps {ℓ} :
    (setup : Setup) (P : State → Type ℓ)
    → ((c : Choice) (s t : State) → step setup c s ≡ some t → P s → P t)
    → (schedule : List Choice) (s t : State) → run setup schedule s ≡ some t
    → P s
    → P t
unfolding run
run-keeps setup P keep [] s t h p = let e : s ≡ t = cc in subst P e p
run-keeps setup P keep (c ∷ rest) s t h p =
    let (u, e, r) = after-some (step setup c s) _ t h in
    run-keeps setup P keep rest u t r (keep c s u e p)
