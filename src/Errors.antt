-- ===== src/Errors.antt =====
-- Go's `error` values as far as the program builds and inspects them: sentinels, `errors.New`,
-- `fmt.Errorf` with `%w`, `errors.Join`, `errors.Is`, and the error structs of the packages
-- (client/errors.go, agent/client.go, agent/host/error.go). `nil` is `none`.
use nekiro_sdk_go.Prelude.{
  ℕ, String, Bytes, Bool, true, false, if◌then◌else◌, ◌||◌, Option, none, some, ◌≡◌, refl, ◌↔◌, ◌⊎◌,
  inl, inr,
}

pub data Sentinel : Type 0 where
  eof unexpected_eof buffer_full canceled deadline_exceeded : Sentinel
  stream_closed stream_interrupted server_closed : Sentinel

-- The fields that `PlatformError` of client/errors.go and `RouterError` of agent/client.go share.
pub record PlatformError : Type 0 where
  pub status_code : ℕ
  pub code : Bytes
  pub trace_id : Bytes
  pub invocation_id : Bytes
  pub root_task_id : Bytes

pub data GoError : Type 0 where
  sentinel : Sentinel → GoError
  plain : String → GoError
  quoted : String → Bytes → GoError
  wrap : String → GoError → GoError
  join : GoError → GoError → GoError
  platform : PlatformError → GoError
  staged : Bytes → Bytes → GoError → GoError

abbrev pub same_sentinel : Sentinel → Sentinel → Bool
same_sentinel eof eof = true
same_sentinel unexpected_eof unexpected_eof = true
same_sentinel buffer_full buffer_full = true
same_sentinel canceled canceled = true
same_sentinel deadline_exceeded deadline_exceeded = true
same_sentinel stream_closed stream_closed = true
same_sentinel stream_interrupted stream_interrupted = true
same_sentinel server_closed server_closed = true
same_sentinel _ _ = false

-- `errors.Is(err, target)` for a sentinel target and an error that is not nil.
unfoldable pub errors_is : GoError → Sentinel → Bool
errors_is (sentinel s) t = same_sentinel s t
errors_is (plain m) t = false
errors_is (quoted m b) t = false
errors_is (wrap m e) t = errors_is e t
errors_is (join d e) t = errors_is d t || errors_is e t
errors_is (platform p) t = false
errors_is (staged stage m e) t = errors_is e t

-- `errors.Is` on an error that may be nil.
abbrev pub is_error : Option GoError → Sentinel → Bool
is_error none t = false
is_error (some e) t = errors_is e t

-- `errors.Join` of an error and one that may be nil.
abbrev pub join_with : GoError → Option GoError → GoError
join_with d none = d
join_with d (some e) = join d e

-- `errors.Join` of two errors that may be nil.
abbrev pub errors_join : Option GoError → Option GoError → Option GoError
errors_join none e = e
errors_join (some d) e = some (join_with d e)

pub data Result {ℓ} (A : Type ℓ) : Type ℓ where
  ok : A → Result A
  err : GoError → Result A

-- `if err != nil { return …, err }` before the next step.
infixl 5 ◌>>=◌ ◌>>◌
abbrev pub ◌>>=◌ {κ ℓ} : {B : Type κ} {A : Type ℓ} → Result A → (A → Result B) → Result B
err failure >>= next = err failure
ok value >>= next = next value

-- A function that returns only an `error`.
abbrev pub check : Option GoError → Result (Unit {0})
check none = ok tt
check (some e) = err e

-- A step that yields nothing.
abbrev pub ◌>>◌ {κ} : {B : Type κ} → Result (Unit {0}) → Result B → Result B
step >> next = step >>= λ _. next

-- `if !test { return …, e }`
abbrev pub guard : Bool → GoError → Result (Unit {0})
guard test failure = if test then ok tt else err failure

-- The error replaced by another: `if err != nil { return e }`.
abbrev pub or_error {ℓ} : {A : Type ℓ} → Result A → GoError → Result A
or_error (ok a) e = ok a
or_error (err d) e = err e

-- The error wrapped: `fmt.Errorf("…: %w", err)`.
abbrev pub or_wrap {ℓ} : {A : Type ℓ} → Result A → String → Result A
or_wrap (ok a) m = ok a
or_wrap (err d) m = err (wrap m d)

-- What `errors.Join` adds does not hide what its first argument is.
pub join_with-errors_is :
    (d : GoError) (e : Option GoError) (t : Sentinel)
    → errors_is d t ≡ true
    → errors_is (join_with d e) t ≡ true
unfolding errors_is
join_with-errors_is d none t h = h
join_with-errors_is d (some e) t h = lemma (errors_is d t) (errors_is e t) h
  where
    lemma : (a b : Bool) → a ≡ true → (a || b) ≡ true
    lemma true b h = refl
    lemma false true h = refl
    lemma false false h = h

pub Result-cases {ℓ} :
    {A : Type ℓ} (m : Result A) → ((a : A) × (m ≡ ok a)) ⊎ ((e : GoError) × (m ≡ err e))
Result-cases (ok a) = inl (a, refl)
Result-cases (err e) = inr (e, refl)

module _ {ℓ κ} {A : Type ℓ} {B : Type κ} where
  -- A chain that yields a value has passed its first step.
  pub >>=-ok :
      (m : Result A) (f : A → Result B) (b : B)
      → (m >>= f) ≡ ok b
      → (a : A) × (m ≡ ok a) × (f a ≡ ok b)
  >>=-ok (ok a) f b h = (a, refl, h)
  >>=-ok (err e) f b h = cc

-- Steps that yield nothing pass exactly when each of them passes.
pub >>-ok_iff : (m k : Result (Unit {0})) → ((m >> k) ≡ ok tt) ↔ ((m ≡ ok tt) × (k ≡ ok tt))
>>-ok_iff (ok u) k = (λ h. (refl, h), λ h. h.1)
>>-ok_iff (err e) k = (λ h. cc, λ h. cc)

pub guard-ok_iff : (b : Bool) (e : GoError) → (guard b e ≡ ok tt) ↔ (b ≡ true)
guard-ok_iff true e = (λ h. refl, λ h. refl)
guard-ok_iff false e = (λ h. cc, λ h. cc)

pub or_wrap-check_iff :
    (e : Option GoError) (m : String) → (or_wrap (check e) m ≡ ok tt) ↔ (e ≡ none)
or_wrap-check_iff none m = (λ h. refl, λ h. refl)
or_wrap-check_iff (some e) m = (λ h. cc, λ h. cc)
