-- ===== src/Nacos.antt =====
-- The registration of an Agent's instance, agent/registration/nacos.
pub mod Registration
pub mod Values
pub mod Ranges
pub mod Config
pub mod Hosted
mod ConfigTests
mod Tests
