-- ===== src/Host/Lifecycle/Rank.antt =====
-- How far the main routine of `Host.Run` is from its end.
use nekiro_sdk_go.Prelude.{ℕ, ◌≤◌, Option, ◌≡◌, refl, arith}
use nekiro_sdk_go.Errors.{GoError}
use nekiro_sdk_go.Host.Lifecycle.{
  Pc, creating, registering, starting, selecting, checking, deciding, cancelling, shutting,
  stopping_server, stopping_lease, deregistering, returned,
}

-- How many steps the main routine has left at most.
unfoldable pub rank : Pc → ℕ
rank creating = 11
rank registering = 10
rank starting = 9
rank selecting = 8
rank (checking source e) = 7
rank (deciding source e) = 6
rank cancelling = 5
rank shutting = 4
rank stopping_server = 3
rank stopping_lease = 2
rank deregistering = 1
rank (returned e) = 0

pub rank-le : (pc : Pc) → rank pc ≤ 11
unfolding rank
rank-le creating = omega arith
rank-le pc = omega arith

pub rank-returned : (pc : Pc) → rank pc ≡ 0 → (e : Option GoError) × (pc ≡ returned e)
unfolding rank
rank-returned (returned e) h = (e, refl)
rank-returned creating h = absurd (omega arith)
rank-returned pc h = absurd (omega arith)
