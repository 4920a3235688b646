-- ===== src/Host.antt =====
-- The managed Agent host, agent/host.
pub mod Staged
pub mod Policy
pub mod State
pub mod Lifecycle
mod Tests
