-- ===== src/RouterAuth.antt =====
-- The verification of Router credentials, agent/routerauth/*.go.
pub mod Replay
pub mod Headers
pub mod Object
pub mod Credential
pub mod Verify
pub mod Config
pub mod Middleware
mod Samples
mod Tests
