-- ===== src/Client/Sse/Line.antt =====
-- `readSSELine` of client/stream.go against a description that knows no buffer.
use nekiro_sdk_go.Prelude.{
  ℕ, zero, suc, ◌+◌, ◌<◌, Bytes, Bool, true, false, [], ◌∷◌, ◌++◌, length, ltb, ◌==◌, if◌then◌else◌,
  ◌≡◌, refl, arith, length-append, append_assoc, Bool-cases, ◌⊎◌, inl, inr,
}
use nekiro_sdk_go.Errors.{GoError, buffer_full, errors_is, Result, ok, err}
use nekiro_sdk_go.Client.Sse.{
  Reader, SliceStatus, delimited, full, ended, read_slice, frame_too_large, line_failure,
  read_line_from, buffer_size, read_sse_line,
}

-- The input split behind its first newline.
pub record Split : Type 0 where
  pub line : Bytes
  pub rest : Bytes
  pub found : Bool

unfoldable pub split_line : Bytes → Split
split_line [] = record { line = []; rest = []; found = false }
split_line (x ∷ xs) =
    let more = split_line xs in
    if x == 10
    then record { line = x ∷ []; rest = xs; found = true }
    else record more { line = x ∷ more.line }

-- What a line read gives: the line and what follows it, or an error.
unfoldable pub line_of : ℕ → Bytes → GoError → Split → Result (Bytes × Bytes)
line_of limit before ending s =
    let line = before ++ s.line in
    if ltb limit (length line)
    then err frame_too_large
    else if s.found
    then ok (line, s.rest)
    else err (line_failure line ending)

abbrev pub outcome : Result Bytes × Reader → Result (Bytes × Bytes)
outcome (ok line, r) = ok (line, r.pending)
outcome (err e, r) = err e

read_slice-delimited :
    (n : ℕ) (xs : Bytes)
    → (read_slice n xs).status ≡ delimited
    → split_line xs
      ≡ record { line = (read_slice n xs).part; rest = (read_slice n xs).rest; found = true }
unfolding read_slice split_line
read_slice-delimited zero xs h = ground arith
read_slice-delimited (suc n) [] h = ground arith
read_slice-delimited (suc n) (x ∷ xs) h = ground (arith, read_slice-delimited n xs)

read_slice-ended :
    (n : ℕ) (xs : Bytes)
    → (read_slice n xs).status ≡ ended
    → split_line xs ≡ record { line = (read_slice n xs).part; rest = []; found = false }
unfolding read_slice split_line
read_slice-ended zero xs h = ground arith
read_slice-ended (suc n) [] h = refl
read_slice-ended (suc n) (x ∷ xs) h = ground (arith, read_slice-ended n xs)

-- A full buffer holds a prefix of the line, and the line goes on in what is left.
read_slice-full :
    (n : ℕ) (xs : Bytes)
    → (read_slice n xs).status ≡ full
    → let more = split_line (read_slice n xs).rest in
      (split_line xs ≡ record more { line = (read_slice n xs).part ++ more.line })
      × (length (read_slice n xs).rest + n ≡ length xs)
unfolding read_slice split_line
read_slice-full zero xs h = (refl, omega arith)
read_slice-full (suc n) [] h = ground arith
read_slice-full (suc n) (x ∷ xs) h = ground (arith, read_slice-full n xs)

SliceStatus-cases : (s : SliceStatus) → (s ≡ delimited) ⊎ ((s ≡ full) ⊎ (s ≡ ended))
SliceStatus-cases delimited = inl refl
SliceStatus-cases full = inr (inl refl)
SliceStatus-cases ended = inr (inr refl)

-- One case of the loop's body for each way in which `ReadSlice` returns.
module _ (fuel size limit : ℕ) (line : Bytes) (r : Reader) where
  abbrev part : Bytes
  part = (read_slice size r.pending).part

  abbrev left : Bytes
  left = (read_slice size r.pending).rest

  line-delimited :
      (read_slice size r.pending).status ≡ delimited
      → outcome (read_line_from (suc fuel) size limit line r)
        ≡ line_of limit line r.ending (split_line r.pending)
  unfolding read_line_from line_of
  line-delimited h =
      rw (read_slice-delimited size r.pending h)
        (elim (Bool-cases (ltb limit (length (line ++ part)))) [
          | inl big ↦ rw (h, big)
          | inr small ↦ rw (h, small)
        ])

  line-ended :
      errors_is r.ending buffer_full ≡ false
      → (read_slice size r.pending).status ≡ ended
      → outcome (read_line_from (suc fuel) size limit line r)
        ≡ line_of limit line r.ending (split_line r.pending)
  unfolding read_line_from line_of
  line-ended live h =
      rw (read_slice-ended size r.pending h)
        (elim (Bool-cases (ltb limit (length (line ++ part)))) [
          | inl big ↦ rw (h, big)
          | inr small ↦ rw (h, small, live)
        ])

  abbrev later : Result Bytes × Reader
  later =
      read_line_from fuel size limit (line ++ part) (record { pending = left; ending = r.ending })

  step-small :
      ltb limit (length (line ++ part)) ≡ false
      → (read_slice size r.pending).status ≡ full
      → read_line_from (suc fuel) size limit line r ≡ later
  unfolding read_line_from
  step-small small h = rw (h, small)

  step-big :
      ltb limit (length (line ++ part)) ≡ true
      → outcome (read_line_from (suc fuel) size limit line r) ≡ err frame_too_large
  unfolding read_line_from
  step-big big = rw big

  line-full :
      outcome later ≡ line_of limit (line ++ part) r.ending (split_line left)
      → (read_slice size r.pending).status ≡ full
      → outcome (read_line_from (suc fuel) size limit line r)
        ≡ line_of limit line r.ending (split_line r.pending)
  unfolding line_of
  line-full ih h =
      let more = (split_line left).line in
      rw ((read_slice-full size r.pending h).0, ← append_assoc line part more)
        (elim (Bool-cases (ltb limit (length (line ++ part)))) [
          | inl big ↦
              let over : ltb limit (length ((line ++ part) ++ more)) ≡ true =
                ground (arith, length-append (line ++ part) more) in
              rw over (step-big big)
          | inr small ↦ rw (step-small small h) ih
        ])

abbrev pub IsLive : Reader → Type 0
IsLive r = errors_is r.ending buffer_full ≡ false

read_line_from-line_of :
    (fuel size limit : ℕ) (line : Bytes) (r : Reader)
    → 0 < size
    → IsLive r
    → length r.pending < fuel
    → outcome (read_line_from fuel size limit line r)
      ≡ line_of limit line r.ending (split_line r.pending)
read_line_from-line_of zero size limit line r p live h = absurd (omega arith)
read_line_from-line_of (suc fuel) size limit line r p live h =
    elim (SliceStatus-cases (read_slice size r.pending).status) [
      | inl e ↦ line-delimited fuel size limit line r e
      | inr (inl e) ↦
          let s = read_slice size r.pending in
          line-full fuel size limit line r
            (read_line_from-line_of fuel size limit (line ++ s.part)
              (record { pending = s.rest; ending = r.ending }) p live
              (omega (arith, read_slice-full size r.pending e)))
            e
      | inr (inr e) ↦ line-ended fuel size limit line r live e
    ]

-- If the body does not itself fail with `bufio.ErrBufferFull`: a line longer than the reader's
-- buffer is read like a short one: a line read returns the bytes up to and with the next newline
-- and leaves what follows it, if the line is within the limit; else it reports the limit, and at
-- the end of the input `io.EOF` before the first byte of a line and `io.ErrUnexpectedEOF` inside
-- it, or the body's own error.
pub read_sse_line-line_of :
    (limit : ℕ) (r : Reader)
    → IsLive r
    → outcome (read_sse_line limit r) ≡ line_of limit [] r.ending (split_line r.pending)
unfolding read_sse_line
read_sse_line-line_of limit r live =
    read_line_from-line_of (suc (length r.pending)) buffer_size limit [] r (omega arith) live
      (omega arith)
