-- ===== src/Tests.antt =====
-- Concrete inputs on which the theorems are applied.
mod Base
mod State
mod TraceLog
mod Queue
mod Backpressure
mod Migration
mod Dma
mod IoScheduler
mod Ram
mod Frame
mod Scheduler
mod Linux
mod Worker
mod Tracker
mod Replay
mod Disk
mod Sim
mod Policy
