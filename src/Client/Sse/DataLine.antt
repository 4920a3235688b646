-- ===== src/Client/Sse/DataLine.antt =====
-- The first line of a frame in client/stream.go, and its payload.
use nekiro_sdk_go.Prelude.{
  ℕ, ◌-◌, ◌<◌, Bytes, Bool, true, false, [], ◌∷◌, ◌++◌, length, take, ltb, ◌||◌, ◌&&◌, not, ◌≡◌,
  refl, arith, length-append, contains_byte, has_prefix, ap,
}
use nekiro_sdk_go.Client.Sse.{data_prefix, last_byte, is_data_line, payload_of}

pub contains_byte-append :
    (b : ℕ) (xs ys : Bytes)
    → contains_byte b (xs ++ ys) ≡ (contains_byte b xs || contains_byte b ys)
unfolding contains_byte
contains_byte-append b [] ys = refl
contains_byte-append b (x ∷ xs) ys = ground (arith, contains_byte-append b xs ys)

last_byte-append : (xs : Bytes) (x : ℕ) → last_byte (xs ++ x ∷ []) ≡ x
last_byte-append [] x = refl
last_byte-append (y ∷ []) x = refl
last_byte-append (y ∷ z ∷ xs) x = last_byte-append (z ∷ xs) x

take-append : (xs ys : Bytes) → take (length xs) (xs ++ ys) ≡ xs
take-append [] ys = refl
take-append (x ∷ xs) ys = ap (◌∷◌ x) (take-append xs ys)

-- The line of a frame gives its payload back.
pub payload_of-line : (payload : Bytes) → payload_of (data_prefix ++ (payload ++ 10 ∷ [])) ≡ payload
payload_of-line payload =
    let line : Bytes = data_prefix ++ (payload ++ 10 ∷ []) in
    let e : length line - 7 ≡ length payload = omega (arith, length-append payload (10 ∷ [])) in
    rw e (take-append payload (10 ∷ []))

data_line-parts :
    (line : Bytes)
    → is_data_line line ≡ true
    → (has_prefix data_prefix line ≡ true) × (contains_byte 13 line ≡ false) × (6 < length line)
unfolding is_data_line
data_line-parts line h = and_parts (has_prefix data_prefix line) (contains_byte 13 line) _ _ h
  where
    and_parts :
        (p c : Bool) (n : ℕ) (q : Bool)
        → (p && not c && not (ltb n 7) && q) ≡ true
        → (p ≡ true) × (c ≡ false) × (6 < n)
    and_parts p c n q h = ground arith

-- A data line is the prefix, a payload without a line end, and the newline.
pub is_data_line-payload :
    (body : Bytes)
    → is_data_line (body ++ 10 ∷ []) ≡ true
    → contains_byte 10 body ≡ false
    → (payload : Bytes) × (body ≡ data_prefix ++ payload)
      × (contains_byte 10 payload ≡ false)
      × (contains_byte 13 payload ≡ false)
unfolding contains_byte has_prefix
is_data_line-payload (a ∷ b ∷ c ∷ d ∷ e ∷ f ∷ payload) h n =
    let (p, r, _) = data_line-parts _ h in
    let clean : contains_byte 13 (payload ++ 10 ∷ []) ≡ false = ground arith in
    (payload, ground arith, ground arith, ground (arith, contains_byte-append 13 payload (10 ∷ [])))
is_data_line-payload body h n = absurd (let (p, r, l) = data_line-parts _ h in omega arith)

pub is_data_line-of :
    (payload : Bytes)
    → contains_byte 13 payload ≡ false
    → is_data_line (data_prefix ++ (payload ++ 10 ∷ [])) ≡ true
unfolding is_data_line contains_byte
is_data_line-of payload h = ground (
  arith,
  last_byte-append (data_prefix ++ payload) 10,
  contains_byte-append 13 payload (10 ∷ []),
  length-append payload (10 ∷ []),
)
