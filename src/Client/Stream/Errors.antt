-- ===== src/Client/Stream/Errors.antt =====
-- What an error of `Recv` or `Close` of client/stream.go says of the stream.
use nekiro_sdk_go.Prelude.{
  true, false, Option, none, some, ◌≡◌, ◌⊎◌, ◌↔◌, inl, inr, refl, sym, ap, ◌∙◌, subst, arith,
  Bool-cases, Option-cases,
}
use nekiro_sdk_go.Errors.{
  GoError, sentinel, eof, stream_interrupted, errors_is, join_with, join_with-errors_is, Result, ok,
  err,
}
use nekiro_sdk_go.Contracts.{StreamContract}
use nekiro_sdk_go.Client.Stream.Cases.{
  IsOpen, recv-closed, recv-failed, recv-finished, recv-canceled, recv-reads, frame_read,
}
use nekiro_sdk_go.Client.Stream.Rule.{frame_read-rule}
use nekiro_sdk_go.Client.Stream.Invariant.{IsConsistent, is_some, recv-IsConsistent}
use nekiro_sdk_go.Client.Stream.{
  Stream, is_closed_error, closed_early, close_body, fail, close, recv_eof, recv_accept, recv,
}

-- After an error the stream stays open to calls, and has recorded the error or finished.
abbrev Settles : {Sequence Event : Type 0} → Stream Sequence × Result Event → Type 0
Settles (s, ok ev) = Unit
Settles (s, err e) =
    (s.closed ≡ false)
    × ((s.failure ≡ some e) ⊎ ((s.failure ≡ none) × (s.finished ≡ true) × (e ≡ sentinel eof)))

none_of : (o : Option GoError) → is_some o ≡ false → o ≡ none
none_of none h = refl
none_of (some e) h = cc

module _ (c : StreamContract) where
  open c use {Event, Sequence}

  fail-Settles : (s : Stream Sequence) (x : GoError) → IsOpen s → Settles (fail {A = Event} s x)
  unfolding fail
  fail-Settles s x o = ground arith

  recv_eof-Settles : (s : Stream Sequence) → IsOpen s → Settles (recv_eof c s)
  unfolding recv_eof fail
  recv_eof-Settles s o = ground arith

  recv_accept-Settles :
      (s : Stream Sequence) (q : Sequence) (ev : Event) → IsOpen s → Settles (recv_accept c s q ev)
  unfolding recv_accept fail
  recv_accept-Settles s q ev o = ground arith

  module _ (before after : Option GoError) where
    frame_read-Settles : (s : Stream Sequence) → IsOpen s → Settles (frame_read c before after s)
    frame_read-Settles s o =
        frame_read-rule c (λ _. Unit) (λ m. Settles m) (λ s r v. tt) (λ s q v. tt)
          (λ s x n o v. fail-Settles s x o) (λ s o v. recv_eof-Settles s o)
          (λ s q ev o v. recv_accept-Settles s q ev o) before after s o tt

    recv-Settles : (s : Stream Sequence) → s.closed ≡ false → Settles (recv c before after s)
    recv-Settles s u = elim (Option-cases s.failure) [
      | inr (x, f) ↦ rw (recv-failed c before after s x u f) (u, inl f)
      | inl f ↦ elim (Bool-cases s.finished) [
        | inl g ↦ rw (recv-finished c before after s u f g) (u, inr (f, g, refl))
        | inr g ↦
            let o : IsOpen s = record { not_closed = u; not_failed = f; not_finished = g } in
            elim (Option-cases before) [
              | inl b ↦ rw (recv-reads c before after s o b) (frame_read-Settles s o)
              | inr (x, b) ↦ rw (recv-canceled c before after s x o b) (fail-Settles s _ o)
            ]
      ]
    ]

  settled_again :
      (before after : Option GoError) (s : Stream Sequence) (e : GoError)
      → Settles {Event = Event} (s, err e)
      → recv c before after s ≡ (s, err e)
  settled_again before after s e (u, inl f) = recv-failed c before after s e u f
  settled_again before after s e (u, inr (f, g, same)) =
      recv-finished c before after s u f g ∙ ap (λ x. (s, err x)) (sym same)

  -- When `Recv` has returned an error, the next `Recv` returns the same error and leaves the stream
  -- as it is, whatever the context says by then.
  pub recv-recv_error :
      (before after before' after' : Option GoError) (s s' : Stream Sequence) (e : GoError)
      → recv c before after s ≡ (s', err e)
      → recv c before' after' s' ≡ (s', err e)
  recv-recv_error before after before' after' s s' e h = elim (Bool-cases s.closed) [
    | inl shut ↦
        let same : ◌≡◌ {A = Stream Sequence × Result Event} (s, err is_closed_error) (s', err e) =
          sym (recv-closed c before after s shut) ∙ h in
        let stays : s ≡ s' = ap (λ m. m.0) same in
        recv-closed c before' after' s' (subst (λ t. t.closed ≡ true) stays shut)
        ∙ ap (λ m. (s', m.1)) same
    | inr u ↦ settled_again before' after' s' e (subst Settles h (recv-Settles before after s u))
  ]

  is_eof-finished :
      (s' : Stream Sequence)
      → Settles {Event = Event} (s', err (sentinel eof))
      → IsConsistent s'
      → s'.finished ≡ true
  is_eof-finished s' (u, inl f) v = absurd (ground (arith, v.failure_not_eof))
  is_eof-finished s' (u, inr (f, g, _)) v = g

  -- On a consistent stream, `Recv` returns the plain `io.EOF` only from a stream that is finished:
  -- it has read a terminal event, recorded no failure, and closed the body once.
  pub recv-eof_finished :
      (before after : Option GoError) (s s' : Stream Sequence)
      → IsConsistent s
      → recv c before after s ≡ (s', err (sentinel eof))
      → (s'.finished ≡ true) × (s'.terminal ≡ true) × (s'.failure ≡ none) × (s'.closes ≡ 1)
  recv-eof_finished before after s s' v h =
      let v' : IsConsistent s' =
        subst (λ m. IsConsistent m.0) h (recv-IsConsistent c before after s v) in
      elim (Bool-cases s.closed) [
        | inl shut ↦ absurd (ground (arith, recv-closed c before after s shut))
        | inr u ↦
            let g : s'.finished ≡ true =
              is_eof-finished s' (subst Settles h (recv-Settles before after s u)) v' in
            (g, v'.finished_terminal g, none_of s'.failure (v'.finished_clean g), ground arith)
      ]

closed_early-interrupted : errors_is closed_early stream_interrupted ≡ true
unfolding errors_is
closed_early-interrupted = refl

module _ {Sequence : Type 0} where
  close-closed : (s : Stream Sequence) → s.closed ≡ true → close s ≡ (s, s.close_outcome)
  unfolding close
  close-closed s h = ground arith

  close-outcome :
      (s : Stream Sequence)
      → ((close s).0.closed ≡ true) × ((close s).0.close_outcome ≡ (close s).1)
  unfolding close
  close-outcome s = ground arith

  -- A second `Close` returns what the first returned and changes nothing.
  pub close-close : (s : Stream Sequence) → close (close s).0 ≡ close s
  close-close s =
      let (shut, kept) = close-outcome s in
      close-closed (close s).0 shut ∙ ap (λ o. ((close s).0, o)) kept

  -- `Close` on a stream not yet closed returns nil exactly when the stream has finished without a
  -- failure.
  pub close-nil_iff :
      (s : Stream Sequence)
      → s.closed ≡ false
      → ((close s).1 ≡ none) ↔ ((s.finished ≡ true) × (s.failure ≡ none))
  unfolding close
  close-nil_iff s u = ground arith

  -- A `Close` before the end of the stream, with no failure before it, reports an interrupted
  -- stream, whatever the body's own `Close` returns.
  pub close-interrupted :
      (s : Stream Sequence)
      → IsOpen s
      → (e : GoError) × ((close s).1 ≡ some e) × (errors_is e stream_interrupted ≡ true)
  unfolding close
  close-interrupted s o =
      let ce = (close_body (record s { closed = true })).1 in
      (
        join_with closed_early ce,
        ground arith,
        join_with-errors_is closed_early ce stream_interrupted closed_early-interrupted,
      )
