-- ===== src/Host/Staged.antt =====
-- The staged errors of agent/host/error.go.
use nekiro_sdk_go.Prelude.{
  Bytes, Bool, true, false, not, ◌&&◌, ◌||◌, ◌≡◌, refl, ◌==◌, ltb, if◌then◌else◌, Option, none,
  some, List, [], ◌∷◌, ◌++◌, codes, length, bytes_eq, bytes_eq_iff, bytes_eq_refl, All, ℕ, ◌≤◌, ◌≢◌,
  Bool-cases, inl, inr, arith,
}
use nekiro_sdk_go.Prelude.Spaces.{trim_space}
use nekiro_sdk_go.Errors.{
  Sentinel, GoError, sentinel, plain, quoted, wrap, join, platform, staged, errors_is,
}

abbrev pub stage_config : Bytes
stage_config = codes "config"

abbrev pub stage_registration : Bytes
stage_registration = codes "registration"

abbrev pub stage_handler : Bytes
stage_handler = codes "handler"

abbrev pub stage_serve : Bytes
stage_serve = codes "serve"

abbrev pub stage_shutdown : Bytes
stage_shutdown = codes "shutdown"

abbrev stages : List Bytes
stages = stage_config ∷ stage_registration ∷ stage_handler ∷ stage_serve ∷ stage_shutdown ∷ []

is_among : Bytes → List Bytes → Bool
is_among stage [] = false
is_among stage (s ∷ rest) = bytes_eq stage s || is_among stage rest

-- `validStage`
unfoldable pub valid_stage : Bytes → Bool
unfolding is_among bytes_eq
valid_stage stage = is_among stage stages

-- The loop of `validMessage`: no byte of a longer character is below 0x80.
unfoldable pub is_printable : Bytes → Bool
is_printable [] = true
is_printable (c ∷ cs) = not (ltb c 0x20 || c == 0x7f) && is_printable cs

unfoldable pub valid_message : Bytes → Bool
valid_message message =
    if bytes_eq message []
      || ltb 128 (length message)
      || not (bytes_eq (trim_space message) message)
    then false
    else is_printable message

abbrev pub invalid_host_error : Bytes
invalid_host_error = codes "invalid host error"

-- `Wrap`
unfoldable pub wrap_stage : Bytes → Bytes → Option GoError → Option GoError
wrap_stage stage message none = none
wrap_stage stage message (some e) =
    if not (valid_stage stage) || not (valid_message message)
    then some (staged stage_config invalid_host_error e)
    else some (staged stage message e)

-- The first `*Error` of a chain, in the order of `errors.As`, and its stage: `StageOf`.
unfoldable pub stage_of : GoError → Option Bytes
stage_of (sentinel s) = none
stage_of (plain m) = none
stage_of (quoted m b) = none
stage_of (wrap m e) = stage_of e
stage_of (join d e) = elim (stage_of d) [ none ↦ stage_of e | some s ↦ some s ]
stage_of (platform p) = none
stage_of (staged stage m e) = some stage

-- `Error.Error`
abbrev pub staged_text : Bytes → Bytes → Bytes
staged_text stage message = codes "agent host " ++ (stage ++ (codes ": " ++ message))

-- The text of a staged error as a caller sees it.
abbrev pub error_text : GoError → Option Bytes
error_text (staged stage message e) = some (staged_text stage message)
error_text _ = none

abbrev pub unwrap : GoError → Option GoError
unwrap (staged stage message e) = some e
unwrap (wrap m e) = some e
unwrap _ = none

abbrev IsPrintable : ℕ → Type 0
IsPrintable c = (32 ≤ c) × (c ≢ 127)

-- What a caller may rely on of an error that `Wrap` made of `cause`.
pub record IsStaged (cause : GoError) (made : GoError) : Type 0 where
  pub stage : Bytes
  pub message : Bytes
  pub stage_known : valid_stage stage ≡ true
  pub message_bounded : (1 ≤ length message) × (length message ≤ 128)
  pub message_trimmed : trim_space message ≡ message
  pub message_printable : All IsPrintable message
  pub stage_found : stage_of made ≡ some stage
  pub text : error_text made ≡ some (staged_text stage message)
  pub cause_kept : unwrap made ≡ some cause
  pub cause_matched : (target : Sentinel) → errors_is made target ≡ errors_is cause target

is_printable-All : (m : Bytes) → is_printable m ≡ true → All IsPrintable m
unfolding is_printable
is_printable-All [] h = tt
is_printable-All (c ∷ cs) h = ground (arith, is_printable-All cs)

-- What `validMessage` accepts.
valid_message_lem :
    (m : Bytes)
    → valid_message m ≡ true
    → (1 ≤ length m) × (length m ≤ 128) × (trim_space m ≡ m) × All IsPrintable m
unfolding valid_message
valid_message_lem [] h = absurd (ground (arith, bytes_eq_refl []))
valid_message_lem (c ∷ cs) h =
    ground (arith, bytes_eq_iff (trim_space (c ∷ cs)) (c ∷ cs), is_printable-All (c ∷ cs))

staged-IsStaged :
    (stage message : Bytes) (cause : GoError)
    → valid_stage stage ≡ true
    → valid_message message ≡ true
    → IsStaged cause (staged stage message cause)
unfolding stage_of errors_is
staged-IsStaged stage message cause hs hm =
    let m = valid_message_lem message hm in
    record {
      stage = stage;
      message = message;
      stage_known = hs;
      message_bounded = (m.0, m.1);
      message_trimmed = m.2;
      message_printable = m.3;
      stage_found = refl;
      text = refl;
      cause_kept = refl;
      cause_matched = λ target. refl;
    }

config_error-IsStaged :
    (cause : GoError) → IsStaged cause (staged stage_config invalid_host_error cause)
unfolding valid_stage valid_message is_printable trim_space bytes_eq
config_error-IsStaged cause = staged-IsStaged _ _ cause refl refl

-- Whatever stage and message `Wrap` is given, of an error it makes an error whose stage is one of
-- the five, whose message is printable, trimmed and of 1 to 128 bytes, whose text is made of that
-- stage and message only, and which still unwraps to and matches what its cause matches.
pub wrap_stage-IsStaged :
    (stage message : Bytes) (cause : GoError)
    → (made : GoError) × (wrap_stage stage message (some cause) ≡ some made) × IsStaged cause made
unfolding wrap_stage
wrap_stage-IsStaged stage message cause = elim (Bool-cases (valid_stage stage)) [
  | inr e ↦ (staged stage_config invalid_host_error cause, rw e, config_error-IsStaged cause)
  | inl e ↦ elim (Bool-cases (valid_message message)) [
    | inr f ↦ (staged stage_config invalid_host_error cause, rw (e, f), config_error-IsStaged cause)
    | inl f ↦ (staged stage message cause, rw (e, f), staged-IsStaged stage message cause e f)
  ]
]
