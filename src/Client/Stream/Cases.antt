-- ===== src/Client/Stream/Cases.antt =====
-- The ways through `Recv` of client/stream.go.
use nekiro_sdk_go.Prelude.{
  Bool, true, false, Option, none, some, ◌≡◌, ◌⊎◌, inl, inr, refl, ap, arith, Bool-cases,
  Option-cases,
}
use nekiro_sdk_go.Errors.{GoError, sentinel, eof, Result, err}
use nekiro_sdk_go.Contracts.{StreamContract}
use nekiro_sdk_go.Client.Sse.{read_sse_frame}
use nekiro_sdk_go.Client.Stream.{Stream, is_closed_error, context_ended, fail, recv_frame, recv}

-- The plain `io.EOF`, which only a finished stream reports.
abbrev pub is_eof : Option GoError → Bool
is_eof none = false
is_eof (some (sentinel eof)) = true
is_eof (some e) = false

-- A stream on which `Recv` reads.
pub record IsOpen {Sequence : Type 0} (s : Stream Sequence) : Type 0 where
  pub not_closed : s.closed ≡ false
  pub not_failed : s.failure ≡ none
  pub not_finished : s.finished ≡ false

module _ (c : StreamContract) (before after : Option GoError) where
  open c use {Event, Sequence}

  abbrev pub frame_read : Stream Sequence → Stream Sequence × Result Event
  frame_read s =
      let r = read_sse_frame s.event_limit s.reader in
      recv_frame c after (record s { reader = r.1 }) r.0

  module _ (s : Stream Sequence) where
    pub recv-closed : s.closed ≡ true → recv c before after s ≡ (s, err is_closed_error)
    unfolding recv
    recv-closed e = ground arith

    pub recv-failed :
        (x : GoError) → s.closed ≡ false → s.failure ≡ some x → recv c before after s ≡ (s, err x)
    unfolding recv
    recv-failed x e f = ground arith

    pub recv-finished :
        s.closed ≡ false
        → s.failure ≡ none
        → s.finished ≡ true
        → recv c before after s ≡ (s, err (sentinel eof))
    unfolding recv
    recv-finished e f g = ground arith

    pub recv-canceled :
        (x : GoError)
        → IsOpen s
        → before ≡ some x
        → recv c before after s ≡ fail s (context_ended x)
    unfolding recv
    recv-canceled x o b = ground arith

    pub recv-reads : IsOpen s → before ≡ none → recv c before after s ≡ frame_read s
    unfolding recv
    recv-reads o b = ground arith

    -- `Recv` changes nothing, or the stream is open and it fails or reads a frame.
    pub recv-cases :
        ((recv c before after s).0 ≡ s)
        ⊎ (IsOpen s
            × (((x : GoError) × (recv c before after s ≡ fail s x) × (is_eof (some x) ≡ false))
                ⊎ (recv c before after s ≡ frame_read s)))
    recv-cases = elim (Bool-cases s.closed) [
      | inl e ↦ inl (ap (λ m. m.0) (recv-closed e))
      | inr e ↦ elim (Option-cases s.failure) [
        | inr (x, f) ↦ inl (ap (λ m. m.0) (recv-failed x e f))
        | inl f ↦ elim (Bool-cases s.finished) [
          | inl g ↦ inl (ap (λ m. m.0) (recv-finished e f g))
          | inr g ↦
              let o : IsOpen s = record { not_closed = e; not_failed = f; not_finished = g } in
              elim (Option-cases before) [
                | inl b ↦ inr (o, inr (recv-reads o b))
                | inr (x, b) ↦ inr (o, inl (context_ended x, recv-canceled x o b, refl))
              ]
        ]
      ]
    ]
