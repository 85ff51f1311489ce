-- ===== src/Ipc.antt =====
-- crates/ghost-ipc: the wire format.
pub mod Frame
