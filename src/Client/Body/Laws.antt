-- ===== src/Client/Body/Laws.antt =====
-- What the reading of a response body guarantees.
use nekiro_sdk_go.Prelude.{
  ℕ, suc, ◌+◌, ◌≤◌, Bytes, true, length, length-take, ◌≡◌, ◌↔◌, refl, arith, none,
}
use nekiro_sdk_go.Errors.{eof, errors_is, ok}
use nekiro_sdk_go.Client.Sse.{Reader}
use nekiro_sdk_go.Client.Body.{Body, read_all_limited, read_bounded, read_and_close_bounded}

-- The whole content, and it fits the limit.
abbrev pub IsWhole : ℕ → Reader → Bytes → Type 0
IsWhole limit r content =
    (content ≡ r.pending) × (length r.pending ≤ limit) × (errors_is r.ending eof ≡ true)

pub read_bounded-IsWhole :
    (limit : ℕ) (r : Reader) (content : Bytes)
    → ((read_bounded limit r).0 ≡ ok content) ↔ IsWhole limit r content
unfolding read_bounded read_all_limited
read_bounded-IsWhole limit r content =
    (λ h. ground (arith, length-take (limit + 1) r.pending), λ h. ground arith)

-- A response is read exactly when the body is whole, ends cleanly, fits the limit and closes without
-- an error; then all of it is read. Whatever comes of it, the body has been closed once more.
pub read_and_close_bounded_iff :
    (limit : ℕ) (b : Body) (content : Bytes)
    → (((read_and_close_bounded limit b).0 ≡ ok content)
        ↔ (IsWhole limit b.reader content × (b.close_error ≡ none)))
      × ((read_and_close_bounded limit b).1.closes ≡ suc b.closes)
unfolding read_and_close_bounded
read_and_close_bounded_iff limit b content =
    let (to, from) = read_bounded-IsWhole limit b.reader content in
    ((λ h. ground (arith, to), λ h. ground (arith, from)), refl)
