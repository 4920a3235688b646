-- ===== src/Contracts.antt =====
-- What the program takes from github.com/NeKiro-project/NeKiro/contracts, as parameters: the code
-- of that module is not part of the repository.
use nekiro_sdk_go.Prelude.{Bytes, Bool, Option}
use nekiro_sdk_go.Errors.{GoError, Result}

-- The result stream: `InvocationResultStreamEventV2` with the fields that the SDKs read, its strict
-- JSON decoding (the event, and the input behind it), and the sequence validator.
pub record StreamContract : Type 1 where
  pub Event : Type 0
  pub Sequence : Type 0
  pub event_type : Event → Bytes
  pub event_invocation : Event → Bytes
  pub event_root_task : Event → Bytes
  pub event_trace : Event → Bytes
  pub accepted_type : Bytes
  pub decode_event : Bytes → Result (Event × Bytes)
  pub new_sequence : Bytes → Bytes → Bytes → Result Sequence
  pub accept : Sequence → Event → Sequence × Option GoError
  pub finish : Sequence → Sequence × Option GoError
  pub is_terminal : Sequence → Bool
