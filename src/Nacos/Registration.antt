-- ===== src/Nacos/Registration.antt =====
-- The lifecycle of agent/registration/nacos/registration.go: `Register`, `Run`, `Deregister`,
-- `Ready`. The registrar and its leases are NeKiro's registry module: what they answer is an
-- argument, and the calls that reach them are recorded. One call under the mutex is one step.
pub mod Leases
use nekiro_sdk_go.Prelude.{
  ℕ, Bool, true, false, not, Option, none, some, List, [], ◌∷◌, ◌++◌, ◌≡◌, refl, sym, arith,
  if◌then◌else◌, All,
}
use nekiro_sdk_go.Errors.{GoError, plain, wrap, errors_join, Result, ok, err}

-- A call that reaches the registrar or a lease; a lease is named by a number. The registrar may
-- answer with a nil lease.
pub data RegistrarCall : Type 0 where
  published : Result (Option ℕ) → RegistrarCall
  lease_closed : ℕ → RegistrarCall
  registrar_closed : RegistrarCall

pub record Registration : Type 0 where
  pub lease : Option ℕ
  pub calls : List RegistrarCall

-- As `newWithExecutor` returns it.
abbrev pub fresh : Registration
fresh = record { lease = none; calls = [] }

abbrev pub publish : Result (Option ℕ) → Registration → Registration × Option GoError
publish (ok lease) r =
    (record r { lease = lease; calls = r.calls ++ published (ok lease) ∷ [] }, none)
publish (err e) r = (
  record r { calls = r.calls ++ published (err e) ∷ [] },
  some (wrap "register runtime with Nacos" e),
)

abbrev pub register_free :
    Option ℕ → Result (Option ℕ) → Registration → Registration × Option GoError
register_free none answer r = publish answer r
register_free (some lease) answer r = (r, some (plain "Nacos registration has already started"))

-- `Register`: the context may be nil.
unfoldable pub register : Bool → Result (Option ℕ) → Registration → Registration × Option GoError
register context answer r =
    if context
    then register_free r.lease answer r
    else (r, some (plain "Nacos registration context is required"))

-- What ends the wait of `Run`: the context, or the lease with its terminal error.
pub data Wake : Type 0 where
  context_done : Wake
  lease_done : Option GoError → Wake

abbrev pub terminated : Option GoError → GoError
terminated none =
    wrap "Nacos registration lease terminated" (plain "lease stopped without a terminal error")
terminated (some e) = wrap "Nacos registration lease terminated" e

abbrev pub woken : Option ℕ → Wake → Option GoError
woken none wake = some (plain "Nacos registration has not started")
woken (some lease) context_done = none
woken (some lease) (lease_done e) = some (terminated e)

-- `Run`
unfoldable pub observe : Bool → Wake → Registration → Option GoError
observe context wake r =
    if context then woken r.lease wake else some (plain "Nacos registration context is required")

-- The calls of a `Deregister`, and the error of the lease's `Close`.
abbrev pub closing_calls : Option ℕ → List RegistrarCall
closing_calls none = registrar_closed ∷ []
closing_calls (some lease) = lease_closed lease ∷ registrar_closed ∷ []

abbrev pub lease_error : Option ℕ → Option GoError → Option GoError
lease_error none e = none
lease_error (some lease) e = e

-- `Deregister`: the lease is kept.
unfoldable pub deregister :
    Bool → Option GoError → Option GoError → Registration → Registration × Option GoError
deregister context lease_close registrar_close r =
    if context
    then (
      record r { calls = r.calls ++ closing_calls r.lease },
      errors_join (lease_error r.lease lease_close) registrar_close,
    )
    else (r, some (plain "Nacos deregistration context is required"))

abbrev pub active : Option ℕ → Bool → Bool
active none done = false
active (some lease) done = not done

-- `Ready`, given whether the lease is done.
unfoldable pub ready : Bool → Registration → Bool
ready done r = active r.lease done

-- A call of one of the four, with what its surroundings answer.
pub data Op : Type 0 where
  registers : Bool → Result (Option ℕ) → Op
  observes : Bool → Wake → Op
  deregisters : Bool → Option GoError → Option GoError → Op
  asks : Bool → Op

unfoldable pub after_op : Op → Registration → Registration
unfolding register deregister
after_op (registers context answer) r = (register context answer r).0
after_op (observes context wake) r = r
after_op (deregisters context e d) r = (deregister context e d r).0
after_op (asks done) r = r

unfoldable pub play : List Op → Registration → Registration
play [] r = r
play (op ∷ rest) r = play rest (after_op op r)
