-- ===== src/RouterAuth/Replay.antt =====
-- `ReplayGuard` of agent/routerauth/replay.go. The mutex makes each `Accept` one step; the clock's
-- reading, in Unix seconds, is an argument.
pub mod Laws
use nekiro_sdk_go.Prelude.{
  Bytes, Bool, true, false, Option, none, some, bytes_eq, if◌then◌else◌, ◌&&◌,
}
use nekiro_sdk_go.Prelude.Int.{ℤ, leb_ℤ, ltb_ℤ}
use nekiro_sdk_go.Errors.{plain, Result, ok, err}

-- The map `expires`, by its lookups.
pub record ReplayGuard : Type 0 where
  pub expires : Bytes → Option ℤ

-- `NewReplayGuard`: the clock is there or nil.
unfoldable pub new_replay_guard : Bool → Result ReplayGuard
new_replay_guard true = ok (record { expires = λ _. none })
new_replay_guard false = err (plain "router credential replay clock is required")

-- The loop that deletes the entries of `now >= existingExpiry`.
abbrev pub keep : ℤ → Option ℤ → Option ℤ
keep now none = none
keep now (some expiry) = if leb_ℤ expiry now then none else some expiry

unfoldable pub purge : ℤ → ReplayGuard → ReplayGuard
purge now g = record { expires = λ id. keep now (g.expires id) }

abbrev pub store : Bytes → ℤ → ReplayGuard → ReplayGuard
store jwt_id expires_at g = record {
  expires = λ id. if bytes_eq jwt_id id then some expires_at else g.expires id;
}

-- `exists && now < existingExpiry`
abbrev pub is_live : ℤ → Option ℤ → Bool
is_live now none = false
is_live now (some expiry) = ltb_ℤ now expiry

unfoldable pub accept : ℤ → Bytes → ℤ → ReplayGuard → ReplayGuard × Bool
unfolding purge
accept now jwt_id expires_at g =
    let p = purge now g in
    if leb_ℤ expires_at now
    then (p, false)
    else if is_live now (p.expires jwt_id)
    then (p, false)
    else (store jwt_id expires_at p, true)
