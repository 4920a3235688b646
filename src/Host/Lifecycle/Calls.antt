-- ===== src/Host/Lifecycle/Calls.antt =====
-- The calls that `Host.Run` and its goroutines make of the server and the registration, and what
-- holds of their order in every schedule.
use nekiro_sdk_go.Prelude.{
  ◌≤◌, Bool, true, false, if◌then◌else◌, Option, none, some, List, [], ◌∷◌, ◌++◌, ◌≡◌, refl, sym,
  ap, ◌∙◌, ◌⊎◌, inl, inr, ◌≢◌, subst, arith, Bool-cases,
}
use nekiro_sdk_go.Errors.{GoError}
use nekiro_sdk_go.Host.Lifecycle.{
  Setup, Call, register, shutdown, deregister, Routine, idle, Pc, creating, shutting,
  stopping_server, stopping_lease, deregistering, returned, State, Choice, received, init, run,
}
use nekiro_sdk_go.Host.Lifecycle.Early.{FailedAt, run-FailedAt}
use nekiro_sdk_go.Host.Lifecycle.Orderly.{
  main_calls, listens, observes, registers_first, whole, aborted, calls_at, begun, IsOrderly,
  run-IsOrderly,
}

-- The calls of the main routine that are still to come.
to_come : Setup → Bool → Pc → List Call
to_come setup cancelled creating = whole setup
to_come setup cancelled shutting = if setup.managed then deregister ∷ [] else []
to_come setup cancelled stopping_server = if setup.managed then deregister ∷ [] else []
to_come setup cancelled stopping_lease = if setup.managed then deregister ∷ [] else []
to_come setup cancelled deregistering = []
to_come setup cancelled (returned e) =
    if cancelled
    then []
    else if setup.server_nil
    then whole setup
    else (if setup.managed then shutdown ∷ deregister ∷ [] else shutdown ∷ [])
to_come setup cancelled pc = if setup.managed then shutdown ∷ deregister ∷ [] else shutdown ∷ []

calls_at-to_come :
    (setup : Setup) (cancelled : Bool) (pc : Pc)
    → calls_at setup cancelled pc ++ to_come setup cancelled pc ≡ whole setup
unfolding to_come
calls_at-to_come setup cancelled creating = refl
calls_at-to_come setup cancelled pc = ground arith

-- Registering comes first, if anything is called.
abbrev IsOpened : List Call → Type 0
IsOpened calls = (calls ≡ []) ⊎ ((rest : List Call) × (calls ≡ register ∷ rest))

registers_first-IsOpened : (calls : List Call) → registers_first calls ≡ true → IsOpened calls
unfolding registers_first
registers_first-IsOpened [] h = inl refl
registers_first-IsOpened (register ∷ rest) h = inr (rest, refl)
registers_first-IsOpened (call ∷ rest) h = absurd (ground arith)

opened :
    (setup : Setup) (pc : Pc) (s : State)
    → setup.managed ≡ true
    → IsOrderly setup pc s
    → IsOpened s.calls
opened setup creating s m p = inl p.quiet_at.exact
opened setup (returned e) s m p = elim (Bool-cases setup.server_nil) [
  | inr given ↦ registers_first-IsOpened s.calls (p.first_at m given)
  | inl absent ↦
      let early : s.cancelled ≡ false = ground arith in
      let exact = (p.quiet_at early).exact in inl (ground arith)
]
opened setup pc s m p = registers_first-IsOpened s.calls (p.first_at m)

-- The calls at some moment of a run of a host.
pub record InOrder (setup : Setup) (s : State) : Type 0 where
  pub main_order : (rest : List Call) × (main_calls s.calls ++ rest ≡ whole setup)
  pub registered_first : setup.managed ≡ true → IsOpened s.calls
  pub listens_once : listens s.calls ≤ 1
  pub observes_once : observes s.calls ≤ (if setup.managed then 1 else 0)
  pub listened : s.server_routine ≡ received → listens s.calls ≡ 1
  pub observed : s.lease_routine ≡ received → observes s.calls ≡ 1
  pub at_return :
      (e : Option GoError)
      → s.pc ≡ returned e
      → (main_calls s.calls ≡ whole setup) ⊎ ((e ≢ none) × (s.calls ≡ aborted setup))

begun-le : (r : Routine) → begun r ≤ 1
begun-le received = omega arith
begun-le r = ground arith

at_end :
    (setup : Setup) (e : Option GoError) (s : State)
    → IsOrderly setup (returned e) s
    → FailedAt (returned e) s.cancelled
    → (main_calls s.calls ≡ whole setup) ⊎ ((e ≢ none) × (s.calls ≡ aborted setup))
at_end setup e s p f = elim (Bool-cases s.cancelled) [
  | inl cancelled ↦ inl (ground (arith, p.calls_made))
  | inr early ↦ inr (f early, (p.quiet_at early).exact)
]

observes-le :
    (managed : Bool) (r : Routine)
    → (managed ≡ false → r ≡ idle)
    → begun r ≤ (if managed then 1 else 0)
observes-le true r h = begun-le r
observes-le false r h = rw (h refl) (omega arith)

-- In every schedule, in which each goroutine makes its call at any time after its `go` statement, and
-- even after `Run` has returned: the main routine's calls so far are the start of register, shut down,
-- deregister, without the registration's for a host that has none; such a host never observes a lease,
-- and where there is a registration nothing is called before it registers; the server is asked to listen
-- at most once, and the lease is observed at most once, and each exactly once if its error has been
-- read. When `Run` has returned, the main routine has made all its calls, unless it returns an error and
-- ended before it started the goroutines: then nothing was called if the factory gave no server, and else
-- the registration, if there is one, is the only call.
pub run-calls_ordered :
    (setup : Setup) (schedule : List Choice) (t : State)
    → run setup schedule (init setup) ≡ some t
    → InOrder setup t
run-calls_ordered setup schedule t h =
    let p = run-IsOrderly setup schedule t h in
    record {
      main_order = (
        to_come setup t.cancelled t.pc,
        ap (λ calls. calls ++ to_come setup t.cancelled t.pc) p.calls_made
            ∙ calls_at-to_come setup t.cancelled t.pc,
      );
      registered_first = λ m. opened setup t.pc t m p;
      listens_once = omega (arith, p.listening, begun-le t.server_routine);
      observes_once =
          subst (λ n. n ≤ (if setup.managed then 1 else 0)) (sym p.observing)
            (observes-le setup.managed t.lease_routine p.no_lease);
      listened = λ r. p.listening ∙ ap begun r;
      observed = λ r. p.observing ∙ ap begun r;
      at_return = λ e last.
          at_end setup e t (subst (λ pc. IsOrderly setup pc t) last p)
            (subst (λ pc. FailedAt pc t.cancelled) last (run-FailedAt setup schedule t h));
    }
