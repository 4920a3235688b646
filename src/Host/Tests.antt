-- ===== src/Host/Tests.antt =====
-- Runs of the host, and the theorems at them.
use nekiro_sdk_go.Prelude.{
  Bytes, true, false, none, some, List, [], ◌∷◌, ◌++◌, ◌≡◌, refl, codes, bytes_eq,
}
use nekiro_sdk_go.Prelude.Spaces.{trim_space}
use nekiro_sdk_go.Prelude.Int.{pos}
use nekiro_sdk_go.Errors.{
  GoError, sentinel, plain, staged, join, server_closed, canceled, deadline_exceeded, errors_is,
}
use nekiro_sdk_go.Host.Staged.{
  wrap_stage, valid_stage, valid_message, is_printable, stage_of, IsStaged, stage_serve,
  stage_config, stage_shutdown, invalid_host_error, wrap_stage-IsStaged,
}
use nekiro_sdk_go.Host.Policy.{
  Config, Interface, host, invalid, new, default_server, policy_missing, is_nil, is_absent,
  any_absent,
}
use nekiro_sdk_go.Host.State.{
  Setup, register, listen, observe_lease, shutdown, deregister, received, running, returned, State,
  Choice, proceed, returns, take_done, take_server, take_lease, server_begins, lease_begins,
  server_returns, lease_returns, interrupt, timeout, init,
}
use nekiro_sdk_go.Host.Lifecycle.{run, step}
use nekiro_sdk_go.Host.Lifecycle.Calls.{InOrder, run-calls_ordered}
use nekiro_sdk_go.Host.Lifecycle.Outcome.{run-clean_exit}
use nekiro_sdk_go.Host.Lifecycle.Stages.{run-stage_of}
use nekiro_sdk_go.Host.Lifecycle.Progress.{Ends, run-Ends}

abbrev managed : Setup
managed = record { managed = true; server_nil = false }

-- Up to the first `select`.
abbrev up : List Choice
up = proceed ∷ returns none ∷ proceed ∷ []

-- The caller cancels, and all goes down in order.
abbrev clean : List Choice
clean =
    up
    ++ (interrupt
        ∷ take_done
        ∷ lease_begins
        ∷ proceed
        ∷ server_begins
        ∷ lease_returns (some (sentinel canceled))
        ∷ server_returns (some (sentinel server_closed))
        ∷ returns none
        ∷ take_server
        ∷ take_lease
        ∷ returns none
        ∷ [])

abbrev clean_end : State
clean_end = record {
  pc = returned none;
  interrupted = true;
  cancelled = true;
  timed_out = false;
  server_routine = received;
  lease_routine = received;
  server_stopped = false;
  lease_stopped = false;
  run_error = none;
  calls = register ∷ observe_lease ∷ shutdown ∷ listen ∷ deregister ∷ [];
}

clean-run : run managed clean (init managed) ≡ some clean_end
unfolding run step wrap_stage errors_is
clean-run = refl

-- The server fails at once, and the lease never ends.
abbrev failing : List Choice
failing =
    up
    ++ (server_begins
        ∷ lease_begins
        ∷ server_returns (some (plain "address in use"))
        ∷ take_server
        ∷ proceed
        ∷ proceed
        ∷ proceed
        ∷ returns none
        ∷ proceed
        ∷ timeout
        ∷ take_done
        ∷ returns none
        ∷ [])

abbrev failure : GoError
failure =
    join (staged stage_serve (codes "serve runtime") (plain "address in use"))
      (staged stage_shutdown (codes "stop registration lease") (sentinel deadline_exceeded))

abbrev failing_end : State
failing_end = record {
  pc = returned (some failure);
  interrupted = false;
  cancelled = true;
  timed_out = true;
  server_routine = received;
  lease_routine = running;
  server_stopped = true;
  lease_stopped = false;
  run_error = some failure;
  calls = register ∷ listen ∷ observe_lease ∷ shutdown ∷ deregister ∷ [];
}

failing-run : run managed failing (init managed) ≡ some failing_end
unfolding run step wrap_stage valid_stage valid_message is_printable errors_is trim_space
failing-run = refl

-- The lease's goroutine is scheduled only when `Run` has returned.
abbrev late : List Choice
late =
    up
    ++ (interrupt
        ∷ take_done
        ∷ proceed
        ∷ server_begins
        ∷ returns none
        ∷ timeout
        ∷ take_done
        ∷ take_done
        ∷ returns none
        ∷ lease_begins
        ∷ [])

abbrev late_error : GoError
late_error =
    join (staged stage_shutdown (codes "stop server") (sentinel deadline_exceeded))
      (staged stage_shutdown (codes "stop registration lease") (sentinel deadline_exceeded))

abbrev late_end : State
late_end = record {
  pc = returned (some late_error);
  interrupted = true;
  cancelled = true;
  timed_out = true;
  server_routine = running;
  lease_routine = running;
  server_stopped = false;
  lease_stopped = false;
  run_error = some late_error;
  calls = register ∷ shutdown ∷ listen ∷ deregister ∷ observe_lease ∷ [];
}

late-run : run managed late (init managed) ≡ some late_end
unfolding run step wrap_stage valid_stage valid_message is_printable errors_is trim_space
late-run = refl

run-calls_ordered_example : InOrder managed late_end
run-calls_ordered_example = run-calls_ordered managed late late_end late-run

run-clean_exit_example :
    (clean_end.interrupted ≡ true)
    × (clean_end.server_routine ≡ received)
    × (managed.managed ≡ true → clean_end.lease_routine ≡ received)
run-clean_exit_example = run-clean_exit managed clean clean_end clean-run refl

run-stage_of_example :
    (stage : Bytes) × (stage_of failure ≡ some stage) × (valid_stage stage ≡ true)
run-stage_of_example = run-stage_of managed failing failing_end failure failing-run refl

run-Ends_example : Ends managed failing_end 24
run-Ends_example = run-Ends managed failing failing_end failing-run

wrap_stage-IsStaged_example :
    (made : GoError) × (wrap_stage
        (codes "provider-secret")
        (codes "invalid stage")
        (some (plain "secret"))
      ≡ some made)
    × IsStaged (plain "secret") made
wrap_stage-IsStaged_example =
    wrap_stage-IsStaged (codes "provider-secret") (codes "invalid stage") (plain "secret")

-- A stage or a message that is not allowed is replaced.
unknown_stage :
    wrap_stage (codes "provider-secret") (codes "invalid stage") (some (plain "secret"))
    ≡ some (staged stage_config invalid_host_error (plain "secret"))
unfolding wrap_stage valid_stage valid_message
unknown_stage = refl

unsafe_message :
    wrap_stage stage_serve (codes "serve runtime\ntoken=secret") (some (plain "cause"))
    ≡ some (staged stage_config invalid_host_error (plain "cause"))
unfolding wrap_stage valid_stage valid_message is_printable trim_space
unsafe_message = refl

abbrev policy : Config
policy = record {
  address = codes "127.0.0.1:8080";
  handler = Interface.nilable false;
  registration = Interface.absent;
  shutdown_timeout = pos 5;
  signals = some [];
  new_server = none;
}

policy_accepted : new policy ≡ host (record policy { new_server = some default_server })
unfolding new policy_missing is_nil is_absent any_absent bytes_eq
policy_accepted = refl

-- A typed nil registration is refused.
nil_registration :
    new (record policy { registration = Interface.nilable true })
    ≡ invalid (
        some (
          staged stage_config
            (codes "validate host policy")
            (plain "address, handler, shutdown timeout, and signals are required")))
unfolding new policy_missing is_nil is_absent any_absent bytes_eq wrap_stage valid_stage
    valid_message is_printable trim_space
nil_registration = refl
