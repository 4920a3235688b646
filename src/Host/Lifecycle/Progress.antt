-- ===== src/Host/Lifecycle/Progress.antt =====
-- `Host.Run` comes to an end with no help of its goroutines.
use nekiro_sdk_go.Prelude.{
  ℕ, suc, ◌+◌, ◌-◌, ◌*◌, zero, length-append, ◌≤◌, Bool, true, false, not, ◌||◌, if◌then◌else◌,
  Option, none, some, List, [], ◌∷◌, ◌++◌, ◌≡◌, refl, subst, arith, length, all,
}
use nekiro_sdk_go.Errors.{GoError}
use nekiro_sdk_go.Host.Lifecycle.Orderly.{CancelledAt, IsOrderly, run-IsOrderly, step-IsOrderly}
use nekiro_sdk_go.Host.Lifecycle.{
  Setup, Pc, creating, registering, starting, selecting, checking, deciding, cancelling, shutting,
  stopping_server, stopping_lease, deregistering, returned, State, Choice, proceed, returns,
  take_done, server_begins, lease_begins, server_returns, lease_returns, interrupt, timeout, init,
  step, run, after, after-some, run-keeps,
}
use nekiro_sdk_go.Host.Lifecycle.Rank.{rank, rank-le, rank-returned}

-- A choice of the main routine, of a call that it waits for, of the caller or of the clock.
abbrev pub needs_no_goroutine : Choice → Bool
needs_no_goroutine server_begins = false
needs_no_goroutine lease_begins = false
needs_no_goroutine (server_returns e) = false
needs_no_goroutine (lease_returns e) = false
needs_no_goroutine c = true

-- The main routine's way out once the run context has ended.
way_out : Setup → Pc → State → List Choice
way_out setup creating s = proceed ∷ []
way_out setup registering s = returns none ∷ []
way_out setup starting s = proceed ∷ []
way_out setup selecting s = take_done ∷ []
way_out setup (checking source e) s = proceed ∷ []
way_out setup (deciding source e) s = proceed ∷ []
way_out setup cancelling s = proceed ∷ timeout ∷ []
way_out setup shutting s = returns none ∷ []
way_out setup stopping_server s = if s.server_stopped then proceed ∷ [] else take_done ∷ []
way_out setup stopping_lease s =
    if s.lease_stopped || not setup.managed then proceed ∷ [] else take_done ∷ []
way_out setup deregistering s = returns none ∷ []
way_out setup (returned e) s = []

-- The run context has ended, and the shutdown context too where there is one.
record IsOver (s : State) : Type 0 where
  interrupted : s.interrupted ≡ true
  timed_out : s.cancelled ≡ true → s.timed_out ≡ true

abbrev reached : Option State → State → State
reached none s = s
reached (some t) s = t

record Leads (setup : Setup) (pc : Pc) (s t : State) : Type 0 where
  runs : run setup (way_out setup pc s) s ≡ some t
  over : IsOver t
  nearer : rank t.pc ≤ rank pc - 1
  alone : all needs_no_goroutine (way_out setup pc s) ≡ true
  short : length (way_out setup pc s) ≤ 2

way_out-Leads :
    (setup : Setup) (pc : Pc) (s : State)
    → s.pc ≡ pc
    → CancelledAt s.cancelled pc
    → IsOver s
    → Leads setup pc s (reached (run setup (way_out setup pc s) s) s)
unfolding way_out run step rank
way_out-Leads setup creating s e c o = ground arith
way_out-Leads setup (checking source none) s e c o = ground arith
way_out-Leads setup (deciding source none) s e c o = ground arith
way_out-Leads setup pc s e c o = ground arith

-- A schedule of at most `n` choices by which `Run` returns from `s`, with no help of its goroutines.
pub record Ends (setup : Setup) (s : State) (n : ℕ) : Type 0 where
  pub schedule : List Choice
  pub last : State
  pub result : Option GoError
  pub runs : run setup schedule s ≡ some last
  pub ended : last.pc ≡ returned result
  pub alone : all needs_no_goroutine schedule ≡ true
  pub short : length schedule ≤ n

run-append :
    (setup : Setup) (l m : List Choice) (s u t : State)
    → run setup l s ≡ some u
    → run setup m u ≡ some t
    → run setup (l ++ m) s ≡ some t
unfolding run
run-append setup [] m s u t h k = let e : s ≡ u = cc in rw e k
run-append setup (c ∷ rest) m s u t h k =
    let (v, e, r) = after-some (step setup c s) _ u h in
    rw (e, after) (run-append setup rest m v u t r k)

all-append :
    (l m : List Choice)
    → all needs_no_goroutine l ≡ true
    → all needs_no_goroutine m ≡ true
    → all needs_no_goroutine (l ++ m) ≡ true
all-append [] m h k = k
all-append (c ∷ rest) m h k = ground (arith, all-append rest m)

Ends-first :
    (setup : Setup) (l : List Choice) (s u : State) (n : ℕ)
    → run setup l s ≡ some u
    → all needs_no_goroutine l ≡ true
    → length l ≤ 2
    → Ends setup u n
    → Ends setup s (n + 2)
Ends-first setup l s u n h a k e = record {
  schedule = l ++ e.schedule;
  last = e.last;
  result = e.result;
  runs = run-append setup l e.schedule s u e.last h e.runs;
  ended = e.ended;
  alone = all-append l e.schedule a e.alone;
  short = omega (arith, length-append l e.schedule, k, e.short);
}

-- What a run from a sound state keeps.
run-keeps_IsOrderly :
    (setup : Setup) (l : List Choice) (s t : State)
    → run setup l s ≡ some t
    → IsOrderly setup s.pc s
    → IsOrderly setup t.pc t
run-keeps_IsOrderly setup = run-keeps setup (λ s. IsOrderly setup s.pc s) (step-IsOrderly setup)

over-Ends :
    (setup : Setup) (n : ℕ) (s : State)
    → rank s.pc ≤ n
    → IsOrderly setup s.pc s
    → IsOver s
    → Ends setup s (2 * n)
over-Ends setup zero s h p o =
    let (e, r) = rank-returned s.pc (omega arith) in
    record {
      schedule = [];
      last = s;
      result = e;
      runs = unfold run in refl;
      ended = r;
      alone = refl;
      short = omega arith;
    }
over-Ends setup (suc n) s h p o =
    let l = way_out-Leads setup s.pc s refl p.cancelled_at o in
    let u = reached (run setup (way_out setup s.pc s) s) s in
    let rest =
      over-Ends setup n u (omega (arith, l.nearer, h))
        (run-keeps_IsOrderly setup (way_out setup s.pc s) s u l.runs p) l.over in
    subst (Ends setup s) (omega arith)
      (Ends-first setup (way_out setup s.pc s) s u (2 * n) l.runs l.alone l.short rest)

-- Ending the run context, and the shutdown context where there is one.
giving_up : State → List Choice
giving_up s = if s.cancelled then interrupt ∷ timeout ∷ [] else interrupt ∷ []

given_up : State → State
given_up s =
    if s.cancelled
    then record s { interrupted = true; timed_out = true }
    else record s { interrupted = true }

giving_up-runs :
    (setup : Setup) (s : State)
    → (run setup (giving_up s) s ≡ some (given_up s))
      × (all needs_no_goroutine (giving_up s) ≡ true)
      × (length (giving_up s) ≤ 2)
      × IsOver (given_up s)
unfolding giving_up given_up run step
giving_up-runs setup s = ground arith

-- From every state that some schedule reaches, at most 24 further choices let `Run` return: the run
-- context ends, the calls that the main routine waits for return, and the shutdown context runs
-- out. It needs neither the server's goroutine nor the lease's to move.
pub run-Ends :
    (setup : Setup) (schedule : List Choice) (s : State)
    → run setup schedule (init setup) ≡ some s
    → Ends setup s 24
run-Ends setup schedule s h =
    let p = run-IsOrderly setup schedule s h in
    let (runs, alone, short, over) = giving_up-runs setup s in
    Ends-first setup (giving_up s) s (given_up s) 22 runs alone short (
      over-Ends setup 11 (given_up s) (rank-le (given_up s).pc)
        (run-keeps_IsOrderly setup (giving_up s) s (given_up s) runs p) over)
