-- ===== src/Lib.antt =====
-- A model of GhostPages, a library and daemon that moves chunks of memory between tiers (RAM, GPU
-- memory, disk), and the theorems about it.
--
-- The parts and how they interact. Every chunk has a state, which the state machine tracks
-- (crates/ghost-core/src/state.rs). The migration engine (crates/ghost-daemon/src/migration.rs)
-- looks at the stored chunks once per cycle, asks a placement policy
-- (crates/ghost-policy/src/lru.rs, pressure.rs) where each should be, and turns its answers into
-- transfer jobs (crates/ghost-core/src/transfer.rs), unless back-pressure
-- (crates/ghost-daemon/src/backpressure.rs), the I/O cost or its capacity forbid it. Jobs wait in a
-- bounded queue (crates/ghost-daemon/src/queue.rs), from which the scheduler
-- (crates/ghost-daemon/src/scheduler.rs) takes them and hands them to workers
-- (crates/ghost-daemon/src/worker.rs), which read the source tier and write the target one. The
-- queue and the scheduler write to a bounded log of trace events
-- (crates/ghost-daemon/src/trace_log.rs, crates/ghost-core/src/trace.rs). Below, a tier stores the
-- bytes (crates/ghost-tier/src/ram.rs, with tracker.rs to count them; disk.rs and
-- disk_persistence.rs, where a chunk is a file; sim_backend.rs, which simulates one), the I/O
-- scheduler separates the issue of a request from its completion
-- (crates/ghost-core/src/io_abstraction.rs), and the DMA pipeline stages transfers to a device
-- (crates/ghost-core/src/dma_pipeline.rs). Clients speak to the daemon in length-prefixed frames
-- (crates/ghost-ipc/src/frame.rs). The Linux policy remembers what it recommended and which
-- temperatures it saw (crates/ghost-linux/src/cooldown.rs, stability.rs). The trace events of a run
-- are written to a file and read back (crates/ghost-replay/src/format.rs, writer.rs, reader.rs),
-- the states of the chunks are reconstructed from them (state_reconstructor.rs), and validators
-- look for what no run should do (invariants.rs).
--
-- The files. Common holds what all share: Boolean tests, lists over native numbers, the last
-- elements of a list (Suffix), the interface Ord of keys, and BTreeMap, an association list in key
-- order (BTreeMap/Sorted on increasing keys, BTreeMap/Counting on the keys as a collection), and
-- numbers as bytes (Bytes).
--   Core/Types, Core/Meta, Core/Transfer, Core/Trace: the data of ghost-core, constructors and
--     fields under the source's names where they are free; `remove` of the state machine is
--     `forget`.
--   Core/State: the state machine, its calls and histories; State/Lifecycle and State/Tracking.
--   Core/Pressure: the predicates over pressure and the cost score.
--   Core/Dma: DmaPipeline; Dma/Stages (one call), Dma/Polling, Dma/Histories (all calls).
--   Core/IoScheduler: IoScheduler; IoScheduler/Accounts (one call), IoScheduler/Histories.
--   Daemon/TraceLog: TraceLog::record is `record_event`; TraceLog/Window.
--   Daemon/Queue: TransferQueue; Queue/Lanes is what it promises, two first-in first-out lanes;
--     Queue/Refinement and its children show that each method keeps the promise, Queue/Histories
--     that every history of calls does.
--   Daemon/Backpressure: BackpressureController::evaluate cut into the steps of its body;
--     Backpressure/Severity and Backpressure/Statistics.
--   Daemon/Migration: EvictionCooldown and MigrationEngine; Migration/Cooldown, Migration/Marks,
--     Migration/Decision; Migration/Cycle is `evaluate`, with Cycle/Sorting and Cycle/Selection.
--   Daemon/Scheduler: the loop of TransferScheduler, one round at a time; Scheduler/Throttling and
--     Scheduler/Rounds, the latter a client of the queue's promise.
--   Daemon/Worker: `execute_transfer`, one attempt as a chain of the results of the backend, and
--     the loop on the number of attempts that are left, which are `max_retries + 1` at the start;
--     Worker/Retries.
--   Tier/Backend, Tier/Ram: the interface StorageBackend, which the worker takes, and RamBackend;
--     Ram/Access (reads and writes), Ram/Regions (allocation).
--   Tier/Tracker: AllocationTracker; Tracker/Usage.
--   Tier/ChunkFile, Tier/Disk: DiskPersistence and DiskBackend, whose state is in Disk/State;
--     ChunkFile/RoundTrip, Disk/Access (reads and writes), Disk/Accounts (used space),
--     Disk/Requests and Disk/Exhaustion (the I/O scheduler).
--   Tier/Sim, Sim/Metrics: SimBackend and SimMetrics; Sim/Steps (one call), Sim/Histories (all
--     calls).
--   Replay/Bytes, Replay/Format, Replay/Writer, Replay/Reader: the trace files, byte for byte;
--     Format/RoundTrip, Reader/RoundTrip, Reader/Seeking, Reader/Errors.
--   Replay/Reconstructor, Replay/Invariants: StateReconstructor and the validators;
--     Reconstructor/Histories, Invariants/Reports, Invariants/Timestamps.
--   Replay/Recorded: the trace that a run of the state machine leaves, put to both of them.
--   Ipc/Frame: read_frame and write_frame; Frame/RoundTrip.
--   Linux/Temperature, Linux/Cooldown, Linux/Stability: CooldownTracker and StabilityChecker;
--     Cooldown/Pruning and Stability/Window.
--   Policy/Choice, Policy/Weights: `max_by` and `min_by`, and the scores of tiers; Policy/Lru and
--     Policy/PressureAware: the two placement policies, with Victims, Targets and Migrations.
--   Tests: concrete inputs on which the theorems are applied.
--
-- How the code is modelled. A method that changes its object takes the state and returns the next
-- one; a method holds its locks from start to end, so it is one step. The model is that of a
-- release build: counters wrap at their width (`% 2 ^ 64`), and an invalid transition is an error
-- and no panic. A panic is the outcome `none`. Errors are values of GhostError or BackendError
-- without their texts. The clocks, the texts that are formatted, the draws of simulated failures,
-- the hashes, compression and encodings of libraries, and the worker channel are arguments.
-- Floating-point numbers are a parameter (Float in Core/Pressure): no theorem assumes a law of them
-- but those of the policies that compare scores, which exclude not-a-numbers (IsOrdered in
-- Policy/Weights). A chunk id is the number that its 32 bytes spell. Loops over lists are
-- structural recursion, so no fuel is needed; the waiting loops are one round at a time. Where a
-- counter of ids must not wrap, the bound (fewer than 2^64 calls) is a hypothesis.
--
-- Not modelled: the health checks and the pressure reports of the tiers, the pool of worker tasks,
-- the orchestrator and the IPC server (tasks and channels of the async runtime), the collectors of
-- Linux statistics (text parsers), the verifier, the divergence reports and the proofs of the
-- replay engine, the evaluator, metrics, benchmarks and the command line. Serialisation, display
-- and the wake-up of waiting tasks are left out throughout.
pub mod Common
pub mod Core
pub mod Daemon
pub mod Replay
pub mod Tier
pub mod Ipc
pub mod Linux
pub mod Policy
pub mod Tests
