-- ===== src/Client/Sse/Lines.antt =====
-- What a successful line read of client/stream.go says of the input, and when it succeeds.
use nekiro_sdk_go.Prelude.{
  ℕ, zero, suc, ◌<◌, ◌≤◌, Bytes, true, false, [], ◌∷◌, ◌++◌, length, ◌==◌, ◌≡◌, refl, arith,
  length-append, Bool-cases, inl, inr, sym, contains_byte, ◌∙◌, ap,
}
use nekiro_sdk_go.Errors.{GoError, buffer_full, errors_is, Result, ok, err}
use nekiro_sdk_go.Client.Sse.{
  Reader, reader_at, read_slice, read_line_from, buffer_size, read_sse_line,
}
use nekiro_sdk_go.Client.Sse.Line.{
  Split, split_line, line_of, outcome, IsLive, read_sse_line-line_of,
}

-- A found line is the bytes before the first newline, and the newline.
pub split_line-found :
    (xs : Bytes)
    → (split_line xs).found ≡ true
    → (body : Bytes) × ((split_line xs).line ≡ body ++ 10 ∷ [])
      × (contains_byte 10 body ≡ false)
      × (xs ≡ body ++ 10 ∷ (split_line xs).rest)
unfolding split_line contains_byte
split_line-found [] h = ground arith
split_line-found (x ∷ xs) h = elim (Bool-cases (x == 10)) [
  | inl e ↦
      let x_eq : x ≡ 10 = ground arith in
      ([], rw (e, x_eq) (ground arith), refl, rw e (ap (λ y. y ∷ xs) x_eq))
  | inr e ↦
      let (body, p, q, t) = split_line-found xs (ground arith) in
      (x ∷ body, rw (e, p), rw (e, q), rw e (ap (◌∷◌ x) t))
]

pub split_line-append :
    (body rest : Bytes)
    → contains_byte 10 body ≡ false
    → split_line (body ++ 10 ∷ rest) ≡ record { line = body ++ 10 ∷ []; rest = rest; found = true }
unfolding split_line contains_byte
split_line-append [] rest h = refl
split_line-append (x ∷ body) rest h = ground (arith, split_line-append body rest)

read_line_from-ending :
    (fuel size limit : ℕ) (line : Bytes) (r : Reader)
    → (read_line_from fuel size limit line r).1.ending ≡ r.ending
unfolding read_line_from
read_line_from-ending zero size limit line r = refl
read_line_from-ending (suc fuel) size limit line r =
    let s = read_slice size r.pending in
    ground (
      arith,
      read_line_from-ending fuel size limit (line ++ s.part) (record r { pending = s.rest }),
    )

-- A line read leaves what the body will report at its end.
pub read_sse_line-ending : (limit : ℕ) (r : Reader) → (read_sse_line limit r).1.ending ≡ r.ending
unfolding read_sse_line
read_sse_line-ending limit r = read_line_from-ending (suc (length r.pending)) buffer_size limit [] r

line_of-ok :
    (limit : ℕ) (ending : GoError) (s : Split) (line rest : Bytes)
    → line_of limit [] ending s ≡ ok (line, rest)
    → (s.found ≡ true) × (s.line ≡ line) × (s.rest ≡ rest) × (length line ≤ limit)
unfolding line_of
line_of-ok limit ending s line rest h = ground arith

-- A line that was read is the input up to and with its first newline, and within the limit.
pub read_sse_line-ok :
    (limit : ℕ) (r r' : Reader) (line : Bytes)
    → IsLive r
    → read_sse_line limit r ≡ (ok line, r')
    → (body : Bytes) × (line ≡ body ++ 10 ∷ [])
      × (contains_byte 10 body ≡ false)
      × (r.pending ≡ body ++ 10 ∷ r'.pending)
      × (length line ≤ limit)
read_sse_line-ok limit r r' line live h =
    let (found, same_line, same_rest, fits) =
      line_of-ok limit r.ending (split_line r.pending) line r'.pending
        (sym (read_sse_line-line_of limit r live) ∙ ap outcome h) in
    let (body, p, q, t) = split_line-found r.pending found in
    (body, sym same_line ∙ p, q, t ∙ ap (λ y. body ++ 10 ∷ y) same_rest, fits)

outcome-ok :
    (m : Result Bytes × Reader) (line rest : Bytes) (e : GoError)
    → outcome m ≡ ok (line, rest)
    → m.1.ending ≡ e
    → m ≡ (ok line, record { pending = rest; ending = e })
outcome-ok (ok l, r) line rest e h k = ground arith
outcome-ok (err d, r) line rest e h k = cc

line_of-short :
    (limit : ℕ) (ending : GoError) (body rest : Bytes)
    → length body < limit
    → line_of limit [] ending (record { line = body ++ 10 ∷ []; rest = rest; found = true })
      ≡ ok (body ++ 10 ∷ [], rest)
unfolding line_of
line_of-short limit ending body rest fits = ground (arith, length-append body (10 ∷ []))

-- A line within the limit is read, and the reader stands behind it.
pub read_sse_line-append :
    (limit : ℕ) (body rest : Bytes) (ending : GoError)
    → errors_is ending buffer_full ≡ false
    → contains_byte 10 body ≡ false
    → length body < limit
    → read_sse_line limit (reader_at (body ++ 10 ∷ rest) ending)
      ≡ (ok (body ++ 10 ∷ []), reader_at rest ending)
read_sse_line-append limit body rest ending live h fits =
    outcome-ok _ _ _ _
      (read_sse_line-line_of limit (reader_at (body ++ 10 ∷ rest) ending) live
        ∙ (rw (split_line-append body rest h) (line_of-short limit ending body rest fits)))
      (read_sse_line-ending limit _)
