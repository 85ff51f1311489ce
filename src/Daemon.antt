-- ===== src/Daemon.antt =====
-- crates/ghost-daemon: the trace log, the transfer queue, the scheduler, back-pressure, migration
-- cooldowns and the retry loop.
pub mod TraceLog
pub mod Queue
pub mod Backpressure
pub mod Migration
pub mod Scheduler
pub mod Worker
