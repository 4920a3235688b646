-- ===== src/Nacos/Ranges.antt =====
-- The numbers and durations that agent/registration/nacos/config.go reads from the environment.
use nekiro_sdk_go.Prelude.{
  ℕ, ◌*◌, ◌%◌, ◌≤◌, Bytes, true, false, [], all, bytes_eq, bytes_eq_iff, Option, none, some, ◌≡◌,
  ◌≢◌, ◌↔◌, refl, sym, ap, ◌∙◌, arith, Option-cases, Bool-cases, inl, inr, subst,
}
use nekiro_sdk_go.Prelude.Int.{ℤ, pos}
use nekiro_sdk_go.Prelude.Spaces.{trim_space}
use nekiro_sdk_go.Errors.{ok, guard, >>=-ok, guard-ok_iff}
use nekiro_sdk_go.Http.{is_digit}
use nekiro_sdk_go.Strconv.{atoi, decimal_value}
use nekiro_sdk_go.Nacos.Values.{
  Lookup, required, required_text, within, duration_of, required_unsigned, required_duration,
}

-- A variable that holds decimal digits, whose number lies within the bounds.
pub record IsNumber (lookup : Lookup) (name : Bytes) (minimum maximum n : ℕ) : Type 0 where
  pub text : Bytes
  pub held : lookup name ≡ some text
  pub given : text ≢ []
  pub trimmed : trim_space text ≡ text
  pub digits : all is_digit text ≡ true
  pub number : n ≡ decimal_value 0 text
  pub in_range : (minimum ≤ n) × (n ≤ maximum)

required-text :
    (lookup : Lookup) (name text : Bytes)
    → required lookup name ≡ ok text
    → (lookup name ≡ some text) × (text ≢ []) × (trim_space text ≡ text)
unfolding required required_text
required-text lookup name text h = elim (Option-cases (lookup name)) [
  | inl e ↦ absurd (ground arith)
  | inr (value, e) ↦
      let same : value ≡ text = ground arith in
      let given : bytes_eq value [] ≡ false = ground arith in
      let kept : bytes_eq (trim_space value) value ≡ true = ground arith in
      let trimmed : trim_space value ≡ value = (bytes_eq_iff (trim_space value) value).0 kept in
      (
        e ∙ ap some same,
        λ n. let none_given = (bytes_eq_iff value []).1 (same ∙ n) in ground arith,
        subst (λ t. trim_space t ≡ t) same trimmed,
      )
]

required-held :
    (lookup : Lookup) (name text : Bytes)
    → lookup name ≡ some text
    → text ≢ []
    → trim_space text ≡ text
    → required lookup name ≡ ok text
unfolding required required_text
required-held lookup name text held given trimmed =
    let kept = (bytes_eq_iff (trim_space text) text).1 trimmed in
    elim (Bool-cases (bytes_eq text [])) [
      | inl empty ↦ absurd (given ((bytes_eq_iff text []).0 empty))
      | inr e ↦ ground arith
    ]

within-range :
    (name : Bytes) (minimum maximum : ℕ) (m : Option ℕ) (n : ℕ)
    → within name minimum maximum m ≡ ok n
    → (m ≡ some n) × (minimum ≤ n) × (n ≤ maximum)
unfolding within
within-range name minimum maximum none n h = absurd (ground arith)
within-range name minimum maximum (some k) n h = ground arith

atoi-decimal_value : (text : Bytes) (n : ℕ) → atoi text ≡ some n → n ≡ decimal_value 0 text
unfolding atoi
atoi-decimal_value text n h = ground arith

required_unsigned-IsNumber :
    (lookup : Lookup) (name : Bytes) (minimum maximum n : ℕ)
    → required_unsigned lookup name minimum maximum ≡ ok n
    → IsNumber lookup name minimum maximum n
unfolding required_unsigned
required_unsigned-IsNumber lookup name minimum maximum n h =
    let (text, e1, h1) = >>=-ok (required lookup name) _ _ h in
    let (done, e2, h2) = >>=-ok (guard (all is_digit text) _) _ _ h1 in
    let (held, given, trimmed) = required-text lookup name text e1 in
    let (read, low, high) = within-range name minimum maximum (atoi text) n h2 in
    record {
      text = text;
      held = held;
      given = given;
      trimmed = trimmed;
      digits = (guard-ok_iff _ _).0 e2;
      number = atoi-decimal_value text n read;
      in_range = (low, high);
    }

-- The number of a text of digits, where it fits.
atoi-small :
    (text : Bytes)
    → decimal_value 0 text ≤ 9223372036854775807
    → atoi text ≡ some (decimal_value 0 text)
unfolding atoi
atoi-small text h = ground arith

IsNumber-required_unsigned :
    (lookup : Lookup) (name : Bytes) (minimum maximum n : ℕ)
    → maximum ≤ 9223372036854775807
    → IsNumber lookup name minimum maximum n
    → required_unsigned lookup name minimum maximum ≡ ok n
unfolding required_unsigned within
IsNumber-required_unsigned lookup name minimum maximum n fits p =
    let e1 = required-held lookup name p.text p.held p.given p.trimmed in
    let e2 = p.digits in
    let e3 = atoi-small p.text (omega (arith, p.number, p.in_range)) in
    let low = p.in_range.0 in
    let high = p.in_range.1 in let number = p.number in rw (e1, e2, e3, sym number) (ground arith)

duration_of-small : (n : ℕ) → n ≤ 9223372036854775807 → duration_of n ≡ pos n
unfolding duration_of
duration_of-small n h =
    let small : n % 18446744073709551616 ≡ n = omega arith in rw small (ground arith)

-- With a maximum whose product fits 64 bits, a duration is read exactly from a variable that is not
-- empty, has no space around it and holds only decimal digits, whose number is not below the minimum nor
-- above the maximum; it is that number of milliseconds in nanoseconds: the product does not overflow.
pub required_duration_iff :
    (lookup : Lookup) (name : Bytes) (minimum maximum : ℕ) (d : ℤ)
    → maximum ≤ 9223372036854
    → (required_duration lookup name minimum maximum ≡ ok d)
      ↔ ((n : ℕ) × IsNumber lookup name minimum maximum n × (d ≡ pos (n * 1000000)))
unfolding required_duration
required_duration_iff lookup name minimum maximum d fits = (
  λ h.
      let (n, read, last) = >>=-ok (required_unsigned lookup name minimum maximum) _ _ h in
      let p = required_unsigned-IsNumber lookup name minimum maximum n read in
      let whole = duration_of-small (n * 1000000) (omega (arith, p.in_range)) in (n, p, cc),
  λ (n, p, same).
      let read = IsNumber-required_unsigned lookup name minimum maximum n (omega (arith, fits)) p in
      let whole = duration_of-small (n * 1000000) (omega (arith, p.in_range)) in
      rw (read, whole, same) refl,
)
