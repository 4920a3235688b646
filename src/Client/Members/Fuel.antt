-- ===== src/Client/Members/Fuel.antt =====
-- The walk of client/json.go consumes an item of its input in every call, so it ends within the
-- fuel that it is given.
use Prim.Native.Nat.{pred}
use nekiro_sdk_go.Prelude.{
  ℕ, zero, suc, ◌+◌, ◌*◌, ◌≤◌, ◌<◌, Bytes, List, [], ◌∷◌, length, none, some, true, ◌≡◌, arith,
  Bool-cases, inl, inr,
}
use nekiro_sdk_go.Errors.{ok, err, Result-cases}
use nekiro_sdk_go.Json.Scanner.{Item, punct, close_object, close_array, colon, comma}
use nekiro_sdk_go.Json.Decoder.{
  Decoder, Token, TokenState, array_comma, object_comma, object_colon, token_from, token, more,
  more_items, string,
}
use nekiro_sdk_go.Client.Members.{
  ◌>>=◌, Run, fuel_for, end_token, is_seen, fresh_key, walk, walk_members, walk_elements,
}

token_from-items :
    (items : List Item) (st : TokenState) (stack : List TokenState) (r : Token × Decoder)
    → token_from items st stack ≡ ok r
    → length r.1.items < length items
unfolding token_from
token_from-items [] st stack r h = ground arith
token_from-items (punct close_array ∷ items) st [] r h = ground arith
token_from-items (punct close_object ∷ items) st [] r h = ground arith
token_from-items (punct close_array ∷ items) st (s ∷ stack) r h = ground arith
token_from-items (punct close_object ∷ items) st (s ∷ stack) r h = ground arith
token_from-items (punct colon ∷ items) object_colon stack r h =
    omega (arith, token_from-items items _ stack r h)
token_from-items (punct comma ∷ items) array_comma stack r h =
    omega (arith, token_from-items items _ stack r h)
token_from-items (punct comma ∷ items) object_comma stack r h =
    omega (arith, token_from-items items _ stack r h)
token_from-items (i ∷ items) st stack r h = ground arith

more-items : (d : Decoder) → more d ≡ true → 0 < length d.items
more-items d e = by_items d.items e
  where
    by_items : (items : List Item) → more_items items ≡ true → 0 < length items
    by_items [] h = cc
    by_items (i ∷ items) h = omega arith

pub token-items :
    (d : Decoder) (r : Token × Decoder) → token d ≡ ok r → length r.1.items < length d.items
unfolding token
token-items d r h = token_from-items d.items d.state d.stack r h

-- A run that ended, and left no more than `n` items.
abbrev pub Ends : ℕ → Run Decoder → Type 0
Ends n none = ⊥
Ends n (some (err e)) = Unit
Ends n (some (ok d)) = length d.items ≤ n

Ends-weaken : (m n : ℕ) (run : Run Decoder) → Ends m run → m ≤ n → Ends n run
Ends-weaken m n none h le = h
Ends-weaken m n (some (err e)) h le = tt
Ends-weaken m n (some (ok d)) h le = omega arith

end_token-Ends : (n : ℕ) (d : Decoder) → length d.items ≤ n → Ends n (end_token d)
end_token-Ends n d h = elim (Result-cases (token d)) [
  | inl (r, e) ↦ rw e (omega (arith, token-items d r e))
  | inr (x, e) ↦ rw e tt
]

fresh_key-Ends :
    (n : ℕ) (seen : List Bytes) (t : Token) (k : Bytes → Run Decoder)
    → ((key : Bytes) → Ends n (k key))
    → Ends n (fresh_key seen t k)
fresh_key-Ends n seen (string key) k h = elim (Bool-cases (is_seen key seen)) [
  | inl e ↦ rw (e, fresh_key) tt
  | inr e ↦ rw (e, fresh_key) (h key)
]
fresh_key-Ends n seen _ k h = tt

-- The three calls end at a fuel above the number of items.
abbrev WalkEnds : ℕ → Type 0
WalkEnds fuel =
    (d : Decoder) (n : ℕ)
    → 2 * length d.items < fuel
    → length d.items ≤ suc n
    → Ends n (walk fuel d)

abbrev MembersEnd : ℕ → Type 0
MembersEnd fuel =
    (d : Decoder) (seen : List Bytes) (n : ℕ)
    → 2 * length d.items + 1 < fuel
    → length d.items ≤ n
    → Ends n (walk_members fuel d seen)

abbrev ElementsEnd : ℕ → Type 0
ElementsEnd fuel =
    (d : Decoder) (n : ℕ)
    → 2 * length d.items + 1 < fuel
    → length d.items ≤ n
    → Ends n (walk_elements fuel d)

bind-Ends :
    (m n : ℕ) (run : Run Decoder) (f : Decoder → Run Decoder)
    → Ends m run
    → ((d : Decoder) → length d.items ≤ m → Ends n (f d))
    → Ends n (run >>= f)
bind-Ends m n none f h k = absurd h
bind-Ends m n (some (err e)) f h k = tt
bind-Ends m n (some (ok d)) f h k = k d h

module _ (fuel : ℕ) (W : WalkEnds fuel) (M : MembersEnd fuel) (E : ElementsEnd fuel) where
  walk-step : WalkEnds (suc fuel)
  unfolding walk
  walk-step d n h le = elim (Result-cases (token d)) [
    | inl ((t, d'), e) ↦
        let fewer = token-items d (t, d') e in rw e (ground (arith, M d' [] n, E d' n))
    | inr (x, e) ↦ rw e tt
  ]

  walk_then-Ends :
      (d : Decoder) (n : ℕ) (f : Decoder → Run Decoder)
      → 2 * length d.items < fuel
      → length d.items ≤ n
      → ((d' : Decoder) → length d'.items ≤ pred (length d.items) → Ends n (f d'))
      → Ends n (walk fuel d >>= f)
  walk_then-Ends d n f lt le k =
      bind-Ends (pred (length d.items)) n (walk fuel d) f (W d _ lt (omega arith)) k

  by_key :
      (d d' : Decoder) (seen : List Bytes) (n : ℕ) (key : Bytes)
      → 2 * length d.items < fuel
      → length d.items ≤ n
      → length d'.items < length d.items
      → Ends n (walk fuel d' >>= λ d''. walk_members fuel d'' (key ∷ seen))
  by_key d d' seen n key h le fewer =
      walk_then-Ends d' n (λ d''. walk_members fuel d'' (key ∷ seen)) (omega arith) (omega arith)
        (λ d'' q. M d'' (key ∷ seen) n (omega arith) (omega arith))

  members-step : MembersEnd (suc fuel)
  unfolding walk_members
  members-step d seen n h le = elim (Bool-cases (more d)) [
    | inl e ↦
        rw (e, walk_members)
          (elim (Result-cases (token d)) [
            | inl ((t, d'), f) ↦
                let fewer : length d'.items < length d.items = token-items d (t, d') f in
                rw f
                  (fresh_key-Ends n seen t _ (λ key. by_key d d' seen n key (omega arith) le fewer))
            | inr (x, f) ↦ rw f tt
          ])
    | inr e ↦ rw (e, walk_members) (end_token-Ends n d le)
  ]

  elements-step : ElementsEnd (suc fuel)
  unfolding walk_elements
  elements-step d n h le = elim (Bool-cases (more d)) [
    | inl e ↦
        rw (e, walk_elements)
          (let some_left : 0 < length d.items = more-items d e in
            walk_then-Ends d n (λ d'. walk_elements fuel d') (omega arith) le
              (λ d' q. E d' n (omega arith) (omega arith)))
    | inr e ↦ rw (e, walk_elements) (end_token-Ends n d le)
  ]

walk-members-elements-End : (fuel : ℕ) → WalkEnds fuel × MembersEnd fuel × ElementsEnd fuel
walk-members-elements-End zero = (
  λ d n h le. absurd (omega arith),
  λ d seen n h le. absurd (omega arith),
  λ d n h le. absurd (omega arith),
)
walk-members-elements-End (suc fuel) =
    let (W, M, E) = walk-members-elements-End fuel in
    (walk-step fuel W M E, members-step fuel W M E, elements-step fuel W M E)

-- The walk over any input ends within the fuel that it is given, with an error or behind what it
-- has read.
pub walk-Ends : (d : Decoder) → Ends (length d.items) (walk (fuel_for d) d)
walk-Ends d = (walk-members-elements-End (fuel_for d)).0 d _ (omega arith) (omega arith)
