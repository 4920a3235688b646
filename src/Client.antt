-- ===== src/Client.antt =====
-- The application SDK, client/*.go.
pub mod Sse
pub mod Members
pub mod Stream
pub mod Identifier
pub mod Origin
pub mod Body
pub mod Codes
pub mod Failure
pub mod Request
pub mod Construct
pub mod Invoke
pub mod Samples
pub mod CallSamples
mod StreamTests
mod MemberTests
mod CallTests
mod OriginTests
