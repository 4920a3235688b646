-- ===== src/Client/Stream/Invariant.antt =====
-- What holds of a `Stream` of client/stream.go between two calls, whatever the calls were.
use nekiro_sdk_go.Prelude.{
  Bool, true, false, Option, none, some, ◌≡◌, arith, if◌then◌else◌, inl, inr, sym, ap, subst,
}
use nekiro_sdk_go.Errors.{GoError}
use nekiro_sdk_go.Contracts.{StreamContract}
use nekiro_sdk_go.Client.Stream.Cases.{is_eof, IsOpen, recv-cases}
use nekiro_sdk_go.Client.Stream.Rule.{frame_read-rule}
use nekiro_sdk_go.Client.Stream.{Stream, fail, close, recv_eof, recv_accept, recv}

abbrev pub is_some {ℓ} : {A : Type ℓ} → Option A → Bool
is_some none = false
is_some (some a) = true

pub record IsConsistent {Sequence : Type 0} (s : Stream Sequence) : Type 0 where
  pub counted : s.closes ≡ (if s.body_closed then 1 else 0)
  pub failed_closed : is_some s.failure ≡ true → s.body_closed ≡ true
  pub finished_closed : s.finished ≡ true → s.body_closed ≡ true
  pub finished_clean : s.finished ≡ true → is_some s.failure ≡ false
  pub finished_terminal : s.finished ≡ true → s.terminal ≡ true
  pub closed_closed : s.closed ≡ true → s.body_closed ≡ true
  pub failure_not_eof : is_eof s.failure ≡ false
  pub terminal_started : s.terminal ≡ true → is_some s.sequence ≡ true

module _ {Sequence : Type 0} where
  pub close-IsConsistent : (s : Stream Sequence) → IsConsistent s → IsConsistent (close s).0
  unfolding close
  close-IsConsistent s v = ground arith

  pub fail-IsConsistent :
      (A : Type 0) (s : Stream Sequence) (e : GoError)
      → is_eof (some e) ≡ false
      → IsOpen s
      → IsConsistent s
      → IsConsistent (fail {A = A} s e).0
  unfolding fail
  fail-IsConsistent A s e n o v = ground arith

module _ (c : StreamContract) where
  open c use {Event, Sequence}

  recv_eof-IsConsistent :
      (s : Stream Sequence) → IsOpen s → IsConsistent s → IsConsistent (recv_eof c s).0
  unfolding recv_eof fail
  recv_eof-IsConsistent s o v = ground arith

  recv_accept-IsConsistent :
      (s : Stream Sequence) (q : Sequence) (ev : Event)
      → IsOpen s
      → IsConsistent s
      → IsConsistent (recv_accept c s q ev).0
  unfolding recv_accept fail
  recv_accept-IsConsistent s q ev o v = ground arith

  -- Every call of `Recv` keeps the state consistent.
  pub recv-IsConsistent :
      (before after : Option GoError) (s : Stream Sequence)
      → IsConsistent s
      → IsConsistent (recv c before after s).0
  recv-IsConsistent before after s v = elim (recv-cases c before after s) [
    | inl stays ↦ subst IsConsistent (sym stays) v
    | inr (o, inl (x, e, n)) ↦
        subst IsConsistent (sym (ap (λ m. m.0) e)) (fail-IsConsistent Event s x n o v)
    | inr (o, inr e) ↦ subst IsConsistent (sym (ap (λ m. m.0) e)) (
        frame_read-rule c IsConsistent (λ m. IsConsistent m.0) (λ s r v. ground arith)
          (λ s q v. ground arith) (λ s x n o v. fail-IsConsistent Event s x n o v)
          (λ s o v. recv_eof-IsConsistent s o v) (λ s q ev o v. recv_accept-IsConsistent s q ev o v)
          before after s o v)
  ]
