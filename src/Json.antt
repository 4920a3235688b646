-- ===== src/Json.antt =====
-- The part of Go's `encoding/json` that the program relies on: the scanner, the token interface
-- of `Decoder`, `Valid` and `Compact`. Code of the standard library, modelled as documented.
pub mod Scanner
pub mod Unquote
pub mod Decoder
pub mod Compact
pub mod Tree
