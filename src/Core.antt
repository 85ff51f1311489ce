-- ===== src/Core.antt =====
-- crates/ghost-core: the types, the chunk state machine, transfer jobs and the event-free parts
-- of the DMA pipeline and of the I/O scheduler.
pub mod Types
pub mod State
pub mod Pressure
pub mod Meta
pub mod Transfer
pub mod Trace
pub mod Dma
pub mod IoScheduler
