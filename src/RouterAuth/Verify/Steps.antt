-- ===== src/RouterAuth/Verify/Steps.antt =====
-- What a `Verified` chain of agent/routerauth/verifier.go says of its steps.
use nekiro_sdk_go.Prelude.{Bool, true, false, ◌≡◌, ◌≢◌, ◌⊎◌, refl}
use nekiro_sdk_go.Errors.{GoError, Result, ok, err}
use nekiro_sdk_go.RouterAuth.Headers.{Verified, verified, refused, panicked, ◌>>=◌}
use nekiro_sdk_go.RouterAuth.Verify.{require, or_unauthenticated, or_unauthenticated_as}

module _ {ℓ κ} {A : Type ℓ} {B : Type κ} where
  -- A chain that yields a value has passed its first step.
  pub >>=-verified :
      (m : Verified A) (f : A → Verified B) (b : B)
      → (m >>= f) ≡ verified b
      → (a : A) × (m ≡ verified a) × (f a ≡ verified b)
  >>=-verified (verified a) f b h = (a, refl, h)
  >>=-verified (refused status e) f b h = cc
  >>=-verified panicked f b h = cc

pub require-verified :
    (b : Bool) (m : Verified (Unit {0})) (u : Unit {0})
    → m ≢ verified tt
    → require b m ≡ verified u
    → b ≡ true
require-verified true m u n h = refl
require-verified false m u n h = absurd (n h)

module _ {ℓ} {A : Type ℓ} where
  pub or_unauthenticated-ok : (r : Result A) (a : A) → or_unauthenticated r ≡ verified a → r ≡ ok a
  or_unauthenticated-ok (ok x) a h = cc
  or_unauthenticated-ok (err e) a h = cc

  pub or_unauthenticated_as-ok :
      (r : Result A) (e : GoError) (a : A) → or_unauthenticated_as r e ≡ verified a → r ≡ ok a
  or_unauthenticated_as-ok (ok x) e a h = cc
  or_unauthenticated_as-ok (err d) e a h = cc

  -- A value, or a refusal by a 401 or a 403; no run-time panic.
  abbrev pub IsAnswered : Verified A → Type 0
  IsAnswered (verified a) = Unit
  IsAnswered (refused status e) = (status ≡ 401) ⊎ (status ≡ 403)
  IsAnswered panicked = ⊥

module _ {ℓ κ} {A : Type ℓ} {B : Type κ} where
  pub >>=-IsAnswered :
      (m : Verified A) (f : A → Verified B)
      → IsAnswered m
      → ((a : A) → m ≡ verified a → IsAnswered (f a))
      → IsAnswered (m >>= f)
  >>=-IsAnswered (verified a) f h k = k a refl
  >>=-IsAnswered (refused status e) f h k = h
  >>=-IsAnswered panicked f h k = elim h [ ]
