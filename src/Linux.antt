-- ===== src/Linux.antt =====
-- crates/ghost-linux: the policy's memory of past recommendations and temperatures.
pub mod Temperature
pub mod Cooldown
pub mod Stability
