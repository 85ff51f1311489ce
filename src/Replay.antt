-- ===== src/Replay.antt =====
-- The crate ghost-replay: recorded traces, what is written of them and what is made of them.
pub mod Bytes
pub mod Format
pub mod Writer
pub mod Reader
pub mod Reconstructor
pub mod Invariants
pub mod Recorded
