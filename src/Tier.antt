-- ===== src/Tier.antt =====
-- crates/ghost-tier: the storage tiers.
pub mod Backend
pub mod Ram
pub mod ChunkFile
pub mod Disk
pub mod Sim
pub mod Tracker
