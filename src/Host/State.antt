-- ===== src/Host/State.antt =====
-- The state of a run of the host, agent/host/host.go: where the main routine of `Host.Run` stands,
-- its variables, the channels of its two goroutines, and who may move next.
use nekiro_sdk_go.Prelude.{Bool, false, not, Option, none, List, []}
use nekiro_sdk_go.Errors.{GoError}

-- What the configured host was given: whether it has a registration, and whether the server factory
-- yields nil.
pub record Setup : Type 0 where
  pub managed : Bool
  pub server_nil : Bool

-- The calls that the host makes of its server and of its registration.
pub data Call : Type 0 where
  register listen observe_lease shutdown deregister : Call

-- A goroutine that makes one call and sends its error to a channel of one place: `spawned` from its `go`
-- statement on, `running` from the moment at which it makes the call.
pub data Routine : Type 0 where
  idle spawned running : Routine
  sent : Option GoError → Routine
  received : Routine

pub data Source : Type 0 where
  server lease : Source

-- Where the main routine stands.
pub data Pc : Type 0 where
  creating registering starting selecting : Pc
  checking : Source → Option GoError → Pc
  deciding : Source → Option GoError → Pc
  cancelling shutting stopping_server stopping_lease deregistering : Pc
  returned : Option GoError → Pc

-- `interrupted` holds once the context of the caller, or a signal, has ended the run context;
-- `cancelled` once `cancel` has; `timed_out` once the shutdown context is over.
pub record State : Type 0 where
  pub pc : Pc
  pub interrupted : Bool
  pub cancelled : Bool
  pub timed_out : Bool
  pub server_routine : Routine
  pub lease_routine : Routine
  pub server_stopped : Bool
  pub lease_stopped : Bool
  pub run_error : Option GoError
  pub calls : List Call

-- Who moves next: the main routine by itself, by the return of the call that it waits for, or by a
-- branch of a `select`; or a goroutine that makes its call, or whose call returns; or the environment.
pub data Choice : Type 0 where
  proceed : Choice
  returns : Option GoError → Choice
  take_done take_server take_lease : Choice
  server_begins lease_begins : Choice
  server_returns lease_returns : Option GoError → Choice
  interrupt timeout : Choice

abbrev pub init : Setup → State
init setup = record {
  pc = creating;
  interrupted = false;
  cancelled = false;
  timed_out = false;
  server_routine = idle;
  lease_routine = idle;
  server_stopped = false;
  lease_stopped = not setup.managed;
  run_error = none;
  calls = [];
}
