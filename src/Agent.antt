-- ===== src/Agent.antt =====
-- The SDK of nested invocations, agent/client.go.
pub mod Identifier
pub mod Context
pub mod Status
mod Tests
mod CallTests
pub mod Sse
pub mod Stream
pub mod Failure
pub mod Call
pub mod Construct
