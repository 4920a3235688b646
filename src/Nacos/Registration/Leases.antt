-- ===== src/Nacos/Registration/Leases.antt =====
-- The leases that a registration of agent/registration/nacos/registration.go is given and closes.
use nekiro_sdk_go.Prelude.{ℕ, true, false, Option, none, some, List, [], ◌∷◌, ◌++◌, ◌≡◌, refl, All}
use nekiro_sdk_go.Errors.{Result, ok, err}
use nekiro_sdk_go.Nacos.Registration.{
  RegistrarCall, published, lease_closed, registrar_closed, Registration, fresh, register_free,
  closing_calls, Op, registers, observes, deregisters, asks, after_op, play,
}

-- The leases that the registrar has given, in the order of the calls.
abbrev pub given : List RegistrarCall → List ℕ
given [] = []
given (published (ok (some lease)) ∷ rest) = lease ∷ given rest
given (call ∷ rest) = given rest

abbrev pub held : Option ℕ → List ℕ
held none = []
held (some lease) = lease ∷ []

-- A lease that is closed is the one that is held.
abbrev ClosesOwn : Option ℕ → RegistrarCall → Type 0
ClosesOwn lease (lease_closed l) = lease ≡ some l
ClosesOwn lease call = Unit

pub record IsHeld (r : Registration) : Type 0 where
  pub one_lease : given r.calls ≡ held r.lease
  pub own_closed : All (ClosesOwn r.lease) r.calls

given-append : (xs ys : List RegistrarCall) → given (xs ++ ys) ≡ given xs ++ given ys
given-append [] ys = refl
given-append (published (ok (some lease)) ∷ rest) ys = rw (given-append rest ys)
given-append (published (ok none) ∷ rest) ys = given-append rest ys
given-append (call ∷ rest) ys = given-append rest ys

All-append :
    (lease : Option ℕ) (xs ys : List RegistrarCall)
    → All (ClosesOwn lease) xs
    → All (ClosesOwn lease) ys
    → All (ClosesOwn lease) (xs ++ ys)
All-append lease [] ys p q = q
All-append lease (x ∷ xs) ys p q = (p.0, All-append lease xs ys p.1 q)

-- Before there is a lease, none has been closed.
none_closed :
    (lease : Option ℕ) (xs : List RegistrarCall)
    → All (ClosesOwn none) xs
    → All (ClosesOwn lease) xs
none_closed lease [] p = tt
none_closed lease (lease_closed l ∷ rest) p = absurd (none-ne-some p.0)
  where
    none-ne-some : {l : ℕ} → none ≡ some l → ⊥
    none-ne-some e = cc
none_closed lease (published answer ∷ rest) p = (tt, none_closed lease rest p.1)
none_closed lease (registrar_closed ∷ rest) p = (tt, none_closed lease rest p.1)

registered-IsHeld :
    (lease : Option ℕ) (calls : List RegistrarCall) (answer : Result (Option ℕ))
    → given calls ≡ held lease
    → All (ClosesOwn lease) calls
    → IsHeld (register_free lease answer (record { lease = lease; calls = calls })).0
registered-IsHeld (some lease) calls answer p q = record { one_lease = p; own_closed = q }
registered-IsHeld none calls (err e) p q = record {
  one_lease = rw (given-append calls (published (err e) ∷ [])) (rw p);
  own_closed = All-append none calls _ q (tt, tt);
}
registered-IsHeld none calls (ok none) p q = record {
  one_lease = rw (given-append calls (published (ok none) ∷ [])) (rw p);
  own_closed = All-append none calls _ q (tt, tt);
}
registered-IsHeld none calls (ok (some lease)) p q = record {
  one_lease = rw (given-append calls (published (ok (some lease)) ∷ [])) (rw p);
  own_closed = All-append (some lease) calls _ (none_closed (some lease) calls q) (tt, tt);
}

deregistered-IsHeld :
    (lease : Option ℕ) (calls : List RegistrarCall)
    → given calls ≡ held lease
    → All (ClosesOwn lease) calls
    → IsHeld (record { lease = lease; calls = calls ++ closing_calls lease })
deregistered-IsHeld none calls p q = record {
  one_lease = rw (given-append calls (closing_calls none)) (rw p);
  own_closed = All-append none calls _ q (tt, tt);
}
deregistered-IsHeld (some lease) calls p q = record {
  one_lease = rw (given-append calls (closing_calls (some lease))) (rw p);
  own_closed = All-append (some lease) calls _ q (refl, (tt, tt));
}

after_op-IsHeld : (op : Op) (r : Registration) → IsHeld r → IsHeld (after_op op r)
unfolding after_op
after_op-IsHeld (observes context wake) r h = h
after_op-IsHeld (asks done) r h = h
after_op-IsHeld (deregisters false e d) r h = h
after_op-IsHeld (deregisters true e d) r h =
    deregistered-IsHeld r.lease r.calls h.one_lease h.own_closed
after_op-IsHeld (registers false answer) r h = h
after_op-IsHeld (registers true answer) r h =
    registered-IsHeld r.lease r.calls answer h.one_lease h.own_closed

play-keeps : (ops : List Op) (r : Registration) → IsHeld r → IsHeld (play ops r)
unfolding play
play-keeps [] r h = h
play-keeps (op ∷ rest) r h = play-keeps rest (after_op op r) (after_op-IsHeld op r h)

-- Whatever calls a program makes of a fresh registration, in whatever order and however its
-- surroundings answer: the registrar gives it at most one lease, which is the one that it holds, and
-- the only lease that it ever closes is that one.
pub play-IsHeld : (ops : List Op) → IsHeld (play ops fresh)
play-IsHeld ops = play-keeps ops fresh (record { one_lease = refl; own_closed = tt })
