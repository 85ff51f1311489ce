-- ===== src/Policy.antt =====
-- crates/ghost-policy: the placement policies.
pub mod Choice
pub mod Weights
pub mod Lru
pub mod PressureAware
