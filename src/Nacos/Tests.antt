-- ===== src/Nacos/Tests.antt =====
-- Runs of a registration and of its host, and the theorems at them.
use nekiro_sdk_go.Prelude.{true, false, none, some, List, [], ◌∷◌, ◌≡◌, refl}
use nekiro_sdk_go.Errors.{sentinel, plain, server_closed, ok, err}
use nekiro_sdk_go.Host.State.{
  Setup, Call, received, returned, proceed, returns, take_done, take_server, take_lease,
  server_begins, lease_begins, server_returns, interrupt,
}
use nekiro_sdk_go.Nacos.Registration.{
  published, lease_closed, registrar_closed, fresh, context_done, Op, registers, deregisters, play,
  register, deregister, after_op,
}
use nekiro_sdk_go.Nacos.Registration.Leases.{IsHeld, play-IsHeld}
use nekiro_sdk_go.Nacos.Hosted.{Joint, JointChoice, hosts, answers, wakes, closes}

-- A second start is refused, and a second stop repeats the calls.
abbrev calls : List Op
calls =
    registers true (err (plain "down"))
    ∷ registers true (ok (some 7))
    ∷ registers true (ok (some 8))
    ∷ deregisters true none none
    ∷ deregisters true none none
    ∷ []

calls-play :
    (play calls fresh).calls
    ≡ published (err (plain "down"))
      ∷ published (ok (some 7))
      ∷ lease_closed 7
      ∷ registrar_closed
      ∷ lease_closed 7
      ∷ registrar_closed
      ∷ []
unfolding play after_op
calls-play = refl

play-IsHeld_example : IsHeld (play calls fresh)
play-IsHeld_example = play-IsHeld calls

abbrev managed : Setup
managed = record { managed = true; server_nil = false }

abbrev schedule : List JointChoice
schedule =
    hosts proceed
    ∷ answers (ok (some 7))
    ∷ hosts proceed
    ∷ hosts server_begins
    ∷ hosts lease_begins
    ∷ hosts interrupt
    ∷ hosts take_done
    ∷ hosts proceed
    ∷ wakes context_done
    ∷ hosts (server_returns (some (sentinel server_closed)))
    ∷ hosts (returns none)
    ∷ hosts take_server
    ∷ hosts take_lease
    ∷ closes none none
    ∷ []

abbrev ended : Joint
ended = record {
  host = record {
    pc = returned none;
    interrupted = true;
    cancelled = true;
    timed_out = false;
    server_routine = received;
    lease_routine = received;
    server_stopped = false;
    lease_stopped = false;
    run_error = none;
    calls = Call.register ∷ Call.listen ∷ Call.observe_lease ∷ Call.shutdown ∷ Call.deregister ∷ [];
  };
  registration = record {
    lease = some 7;
    calls = published (ok (some 7)) ∷ lease_closed 7 ∷ registrar_closed ∷ [];
  };
}
