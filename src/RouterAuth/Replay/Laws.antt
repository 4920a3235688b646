-- ===== src/RouterAuth/Replay/Laws.antt =====
-- What `ReplayGuard.Accept` of agent/routerauth/replay.go guarantees.
use nekiro_sdk_go.Prelude.{
  Bytes, true, false, some, List, [], ◌∷◌, bytes_eq_iff, bytes_eq_refl, ◌≡◌, ◌≢◌, ◌↔◌, inl, inr,
  arith, All, Option-cases,
}
use nekiro_sdk_go.Prelude.Int.{ℤ, ◌≤ℤ◌, ◌<ℤ◌}
use nekiro_sdk_go.RouterAuth.Replay.{ReplayGuard, keep, accept}

-- An identifier is accepted exactly when the credential has not expired and no entry for the
-- identifier is live.
pub accept-true_iff :
    (now : ℤ) (id : Bytes) (exp : ℤ) (g : ReplayGuard)
    → ((accept now id exp g).1 ≡ true)
      ↔ ((now <ℤ exp) × ((e : ℤ) → g.expires id ≡ some e → e ≤ℤ now))
unfolding accept
accept-true_iff now id exp g = elim (Option-cases (g.expires id)) [
  | inl n ↦ (λ h. (ground arith, λ e f. ground arith), λ h. ground arith)
  | inr (x, n) ↦ (λ h. (ground arith, λ e f. ground arith), λ h. ground (arith, h.1 x))
]

-- Behind a call no stored entry has expired.
pub accept-unexpired :
    (now : ℤ) (id : Bytes) (exp : ℤ) (g : ReplayGuard) (other : Bytes) (e : ℤ)
    → (accept now id exp g).0.expires other ≡ some e
    → now <ℤ e
unfolding accept
accept-unexpired now id exp g other e h = ground arith

-- A call changes another identifier's entry only by dropping it when it has expired.
pub accept-other :
    (now : ℤ) (id : Bytes) (exp : ℤ) (g : ReplayGuard) (other : Bytes)
    → id ≢ other
    → (accept now id exp g).0.expires other ≡ keep now (g.expires other)
unfolding accept
accept-other now id exp g other d = ground (arith, bytes_eq_iff id other)

-- An accepted identifier is stored with its expiry.
pub accept-stored :
    (now : ℤ) (id : Bytes) (exp : ℤ) (g : ReplayGuard)
    → (accept now id exp g).1 ≡ true
    → (accept now id exp g).0.expires id ≡ some exp
unfolding accept
accept-stored now id exp g h = ground (arith, bytes_eq_refl id)

-- A live entry stays, and refuses its identifier.
pub accept-live :
    (now : ℤ) (id : Bytes) (exp : ℤ) (g : ReplayGuard) (stored : Bytes) (e : ℤ)
    → g.expires stored ≡ some e
    → now <ℤ e
    → (accept now id exp g).0.expires stored ≡ some e
unfolding accept
accept-live now id exp g stored e h l = ground (arith, bytes_eq_iff id stored)

pub accept-refused :
    (now : ℤ) (id : Bytes) (exp : ℤ) (g : ReplayGuard) (e : ℤ)
    → g.expires id ≡ some e
    → now <ℤ e
    → (accept now id exp g).1 ≡ false
unfolding accept
accept-refused now id exp g e h l = ground arith

pub record Call : Type 0 where
  pub time : ℤ
  pub jwt_id : Bytes
  pub expires_at : ℤ

-- The guard behind some calls, in the order in which they hold the lock.
unfoldable pub accept_all : List Call → ReplayGuard → ReplayGuard
accept_all [] g = g
accept_all (c ∷ calls) g = accept_all calls (accept c.time c.jwt_id c.expires_at g).0

accept_all-live :
    (calls : List Call) (g : ReplayGuard) (stored : Bytes) (e : ℤ)
    → g.expires stored ≡ some e
    → All (λ c. c.time <ℤ e) calls
    → (accept_all calls g).expires stored ≡ some e
unfolding accept_all
accept_all-live [] g stored e h l = h
accept_all-live (c ∷ calls) g stored e h l =
    accept_all-live calls _ stored e (accept-live c.time c.jwt_id c.expires_at g stored e h l.0) l.1

-- No replay: once an identifier has been accepted, it is refused, with whatever expiry it comes
-- again and whatever calls lie between, as long as the clock stays below the first expiry.
pub accept-no_replay :
    (now : ℤ) (id : Bytes) (exp : ℤ) (g : ReplayGuard) (between : List Call) (later again : ℤ)
    → (accept now id exp g).1 ≡ true
    → All (λ c. c.time <ℤ exp) between
    → later <ℤ exp
    → (accept later id again (accept_all between (accept now id exp g).0)).1 ≡ false
accept-no_replay now id exp g between later again h l t =
    accept-refused later id again _ exp
      (accept_all-live between _ id exp (accept-stored now id exp g h) l) t
