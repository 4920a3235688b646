-- ===== src/Agent/Stream/Runs.antt =====
-- Sequences of calls of `Recv` and `Close` on a `NestedResultStream` of agent/client.go.
use nekiro_sdk_go.Prelude.{◌≤◌, List, [], ◌∷◌, ◌≡◌, arith}
use nekiro_sdk_go.Contracts.{StreamContract}
use nekiro_sdk_go.Agent.Stream.{NestedStream, close_body, close, recv}
use nekiro_sdk_go.Agent.Stream.Balance.{IsBalanced, recv-IsBalanced, close-closes}

pub data NestedCall : Type 0 where
  receives closes_stream : NestedCall

module _ (c : StreamContract) where
  open c use {Sequence}

  abbrev pub after_call : NestedCall → NestedStream Sequence → NestedStream Sequence
  after_call receives s = (recv c s).0
  after_call closes_stream s = (close c s).0

  unfoldable pub play : List NestedCall → NestedStream Sequence → NestedStream Sequence
  play [] s = s
  play (call ∷ rest) s = play rest (after_call call s)

  close-IsBalanced : (s : NestedStream Sequence) → IsBalanced s → IsBalanced (close c s).0
  unfolding close close_body
  close-IsBalanced s v = ground arith

  play-IsBalanced :
      (calls : List NestedCall) (s : NestedStream Sequence)
      → IsBalanced s
      → IsBalanced (play calls s)
  unfolding play
  play-IsBalanced [] s v = v
  play-IsBalanced (receives ∷ rest) s v = play-IsBalanced rest (recv c s).0 (recv-IsBalanced c s v)
  play-IsBalanced (closes_stream ∷ rest) s v =
      play-IsBalanced rest (close c s).0 (close-IsBalanced s v)

  counted-le : (s : NestedStream Sequence) → IsBalanced s → s.closes ≤ 1
  counted-le s v = ground arith

  -- Whatever calls of `Recv` and `Close` an Agent makes of a balanced nested stream, in whatever order:
  -- the response body is closed at most once, and a `Close` behind them leaves it closed exactly once.
  pub play-closes_once :
      (calls : List NestedCall) (s : NestedStream Sequence)
      → IsBalanced s
      → ((play calls s).closes ≤ 1) × ((close c (play calls s)).0.closes ≡ 1)
  play-closes_once calls s v =
      let w = play-IsBalanced calls s v in
      (counted-le (play calls s) w, close-closes c (play calls s) w)
