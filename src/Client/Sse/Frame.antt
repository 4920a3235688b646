-- ===== src/Client/Sse/Frame.antt =====
-- `readSSEFrame` of client/stream.go against the framing that it accepts.
use nekiro_sdk_go.Prelude.{
  ℕ, ◌+◌, ◌<◌, ◌≤◌, Bytes, Bool, true, false, [], ◌∷◌, ◌++◌, length, ltb, leb, if◌then◌else◌, ◌≡◌,
  refl, arith, length-append, Bool-cases, inl, inr, sym, contains_byte, bytes_eq, bytes_eq_iff, ◌∙◌,
  ap, ap₂, subst,
}
use nekiro_sdk_go.Errors.{GoError, buffer_full, errors_is, Result, ok, err}
use nekiro_sdk_go.Client.Sse.{
  Reader, reader_at, data_prefix, is_data_line, payload_of, is_compact, frame_payload, after_blank,
  after_line, frame_too_large, empty_payload, not_compact, read_sse_line, read_sse_frame,
}
use nekiro_sdk_go.Client.Sse.DataLine.{payload_of-line, is_data_line-payload, is_data_line-of}
use nekiro_sdk_go.Client.Sse.Line.{IsLive}
use nekiro_sdk_go.Client.Sse.Lines.{read_sse_line-ok, read_sse_line-append, read_sse_line-ending}

-- A payload that one frame within the limit can carry.
pub record IsPayload (limit : ℕ) (payload : Bytes) : Type 0 where
  pub not_empty : 0 < length payload
  pub no_newline : contains_byte 10 payload ≡ false
  pub no_return : contains_byte 13 payload ≡ false
  pub compact_json : is_compact payload ≡ true
  pub within : length payload + 8 ≤ limit

-- The bytes of the frame before `rest`.
abbrev pub frame_of : Bytes → Bytes → Bytes
frame_of payload rest = data_prefix ++ (payload ++ 10 ∷ 10 ∷ rest)

frame_payload-ok :
    (limit : ℕ) (line blank payload : Bytes)
    → frame_payload limit line blank ≡ ok payload
    → (payload_of line ≡ payload)
      × (0 < length payload)
      × (is_compact payload ≡ true)
      × (length line + length blank ≤ limit)
unfolding frame_payload
frame_payload-ok limit line blank payload h =
    let (fits, full, c, e) =
      parts (ltb limit (length line + length blank)) (is_compact (payload_of line))
        (payload_of line) h in
    (e, subst (λ p. 0 < length p) e full, subst (λ p. is_compact p ≡ true) e c, ground arith)
  where
    parts :
        (over c : Bool) (p : Bytes)
        → (if over
            then err frame_too_large
            else if leb (length p) 0
            then err empty_payload
            else if c
            then ok p
            else err not_compact)
          ≡ ok payload
        → (over ≡ false) × (0 < length p) × (c ≡ true) × (p ≡ payload)
    parts over c p h = ground arith

after_blank-ok :
    (limit : ℕ) (line blank payload : Bytes) (r r' : Reader)
    → after_blank limit line (ok blank, r) ≡ (ok payload, r')
    → (blank ≡ 10 ∷ []) × (frame_payload limit line blank ≡ ok payload) × (r ≡ r')
after_blank-ok limit line blank payload r r' h = elim (Bool-cases (bytes_eq blank (10 ∷ []))) [
  | inl e ↦
      let h' : ◌≡◌ {A = Result Bytes × Reader} (frame_payload limit line blank, r)
          (ok payload, r') =
        rw e at h in
      ((bytes_eq_iff blank _).0 e, ap (λ m. m.0) h', ap (λ m. m.1) h')
  | inr e ↦ absurd (ground arith)
]

after_line-ok :
    (limit : ℕ) (line payload : Bytes) (r r' : Reader)
    → after_line limit (ok line, r) ≡ (ok payload, r')
    → (is_data_line line ≡ true)
      × (after_blank limit line (read_sse_line limit r) ≡ (ok payload, r'))
after_line-ok limit line payload r r' h = elim (Bool-cases (is_data_line line)) [
  | inl e ↦ (e, rw e at h)
  | inr e ↦ absurd (ground arith)
]

single_newline : (body : Bytes) → body ++ 10 ∷ [] ≡ 10 ∷ [] → body ≡ []
single_newline [] h = refl
single_newline (x ∷ []) h = cc
single_newline (x ∷ y ∷ body) h = cc

within_limit :
    {limit : ℕ} (body payload blank : Bytes)
    → body ≡ data_prefix ++ payload
    → blank ≡ 10 ∷ []
    → length (body ++ 10 ∷ []) + length blank ≤ limit
    → length payload + 8 ≤ limit
within_limit body payload blank e b h =
    omega (arith, length-append body (10 ∷ []), ap length e, ap length b)

module _ (limit : ℕ) (r r' : Reader) (payload : Bytes) (live : IsLive r) where
  second_line :
      (body : Bytes) (r1 : Reader)
      → r.pending ≡ body ++ 10 ∷ r1.pending
      → IsLive r1
      → is_data_line (body ++ 10 ∷ []) ≡ true
      → contains_byte 10 body ≡ false
      → (m : Result Bytes × Reader) → read_sse_line limit r1 ≡ m
      → after_blank limit (body ++ 10 ∷ []) m ≡ (ok payload, r')
      → IsPayload limit payload × (r.pending ≡ frame_of payload r'.pending)
  second_line body r1 p live1 d n (err e, r2) q h = absurd (ground arith)
  second_line body r1 p live1 d n (ok blank, r2) q h =
      let (is_blank, f, same) = after_blank-ok limit _ blank payload r2 r' h in
      let (body2, b, _, p2, _) = read_sse_line-ok limit r1 r2 blank live1 q in
      let (inner, split, no_lf, no_cr) = is_data_line-payload body d n in
      let (got, full, c, fits) = frame_payload-ok limit _ blank payload f in
      let e : inner ≡ payload =
        sym (payload_of-line inner) ∙ subst (λ x. payload_of (x ++ 10 ∷ []) ≡ payload) split got in
      let rest : r1.pending ≡ 10 ∷ r'.pending =
        p2
        ∙ ap₂ (λ x y. x ++ 10 ∷ y) (single_newline body2 (sym b ∙ is_blank))
            (ap (λ x. x.pending) same) in
      let whole : body ≡ data_prefix ++ payload = split ∙ ap (λ x. data_prefix ++ x) e in
      (
        record {
          not_empty = full;
          no_newline = subst (λ x. contains_byte 10 x ≡ false) e no_lf;
          no_return = subst (λ x. contains_byte 13 x ≡ false) e no_cr;
          compact_json = c;
          within = within_limit body payload blank whole is_blank fits;
        },
        p ∙ ap₂ (λ x y. x ++ 10 ∷ y) whole rest,
      )

  first_line :
      (m : Result Bytes × Reader)
      → read_sse_line limit r ≡ m
      → after_line limit m ≡ (ok payload, r')
      → IsPayload limit payload × (r.pending ≡ frame_of payload r'.pending)
  first_line (err e, r1) q h = absurd (ground arith)
  first_line (ok line, r1) q h =
      let (d, h') = after_line-ok limit line payload r1 r' h in
      let (body, l, n, p, _) = read_sse_line-ok limit r r1 line live q in
      let same : r1.ending ≡ r.ending =
        ap (λ m. m.1.ending) (sym q) ∙ read_sse_line-ending limit r in
      second_line body r1 p (rw same live) (rw l at d) n _ refl (rw l at h')

-- If the body does not itself fail with `bufio.ErrBufferFull`: a frame read that succeeds found, at
-- the head of the input, `data: `, the payload and a blank line, within the limit, and left what
-- follows; the payload is compact JSON and holds no line end.
pub read_sse_frame-ok :
    (limit : ℕ) (r r' : Reader) (payload : Bytes)
    → IsLive r
    → read_sse_frame limit r ≡ (ok payload, r')
    → IsPayload limit payload × (r.pending ≡ frame_of payload r'.pending)
unfolding read_sse_frame
read_sse_frame-ok limit r r' payload live h = first_line limit r r' payload live _ refl h

frame_payload-of :
    (limit : ℕ) (line blank payload : Bytes)
    → payload_of line ≡ payload
    → length line + length blank ≤ limit
    → 0 < length payload
    → is_compact payload ≡ true
    → frame_payload limit line blank ≡ ok payload
unfolding frame_payload
frame_payload-of limit line blank payload e fits full c = rw e (ground arith)

empty-no_newline : contains_byte 10 [] ≡ false
unfolding contains_byte
empty-no_newline = refl

prefix-no_newline :
    (payload : Bytes)
    → contains_byte 10 payload ≡ false
    → contains_byte 10 (data_prefix ++ payload) ≡ false
unfolding contains_byte
prefix-no_newline payload h = h

after_line-of :
    (limit : ℕ) (line payload : Bytes) (r r' : Reader)
    → is_data_line line ≡ true
    → read_sse_line limit r ≡ (ok (10 ∷ []), r')
    → frame_payload limit line (10 ∷ []) ≡ ok payload
    → after_line limit (ok line, r) ≡ (ok payload, r')
unfolding bytes_eq
after_line-of limit line payload r r' d q f = rw (d, q, f)

-- If the body does not itself fail with `bufio.ErrBufferFull`: every payload that a frame within
-- the limit can carry is read back from its frame, and the reader stands behind the frame.
pub read_sse_frame-frame_of :
    (limit : ℕ) (payload rest : Bytes) (ending : GoError)
    → errors_is ending buffer_full ≡ false
    → IsPayload limit payload
    → read_sse_frame limit (reader_at (frame_of payload rest) ending)
      ≡ (ok payload, reader_at rest ending)
unfolding read_sse_frame
read_sse_frame-frame_of limit payload rest ending live v =
    let body : Bytes = data_prefix ++ payload in
    let line : Bytes = data_prefix ++ (payload ++ 10 ∷ []) in
    let fits : length payload + 8 ≤ limit = v.within in
    let first =
      read_sse_line-append limit body (10 ∷ rest) ending live
        (prefix-no_newline payload v.no_newline) (omega arith) in
    rw first (
      after_line-of limit line payload (reader_at (10 ∷ rest) ending) (reader_at rest ending)
        (is_data_line-of payload v.no_return)
        (read_sse_line-append limit [] rest ending live (empty-no_newline) (omega arith))
        (frame_payload-of limit line (10 ∷ []) payload (payload_of-line payload)
          (omega (arith, length-append payload (10 ∷ []))) v.not_empty v.compact_json))
