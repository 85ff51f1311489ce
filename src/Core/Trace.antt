-- ===== src/Core/Trace.antt =====
-- crates/ghost-core/src/trace.rs: the trace events and their accessors, and `set_timestamp` of
-- crates/ghost-daemon/src/trace_log.rs. Floating-point fields are of a parameter type.
pub mod Stamps
use Prim.Native.String.{String}
use ghost_pages.Common.{ℕ, Bool, Option, none, some}
use ghost_pages.Core.Types.{ChunkId, TierId}
use ghost_pages.Core.State.{ChunkState}
use ghost_pages.Core.Transfer.{TransferPriority, TransferJob}
use ghost_pages.Core.Pressure.{PressureState}

pub data EvictionReason : Type 0 where
  capacity pressure policy manual : EvictionReason

pub data TraceEvent (F : Type 0) : Type 0 where
  chunk_created : (chunk_id : ChunkId) (size : ℕ) (tier : TierId) (timestamp : ℕ) → TraceEvent F
  chunk_deleted : (chunk_id : ChunkId) (tier : TierId) (timestamp : ℕ) → TraceEvent F
  chunk_state_changed :
      (chunk_id : ChunkId) (from : ChunkState) (to : ChunkState) (timestamp : ℕ) → TraceEvent F
  transfer_queued :
      (chunk_id : ChunkId) (from : TierId) (to : TierId) (priority : TransferPriority)
      (timestamp : ℕ)
      → TraceEvent F
  transfer_started : (job : TransferJob) (timestamp : ℕ) → TraceEvent F
  transfer_completed :
      (chunk_id : ChunkId) (from : TierId) (to : TierId) (size : ℕ) (duration_ms : ℕ)
      (timestamp : ℕ)
      → TraceEvent F
  transfer_failed :
      (chunk_id : ChunkId) (from : TierId) (to : TierId) (error : String) (attempt : ℕ)
      (timestamp : ℕ)
      → TraceEvent F
  transfer_retry :
      (chunk_id : ChunkId) (from : TierId) (to : TierId) (attempt : ℕ) (timestamp : ℕ)
      → TraceEvent F
  transfer_cancelled :
      (chunk_id : ChunkId) (from : TierId) (to : TierId) (timestamp : ℕ) → TraceEvent F
  pressure_sample : (state : PressureState F) (timestamp : ℕ) → TraceEvent F
  pressure_alert :
      (memory_pressure : F) (vram_pressure : F) (io_pressure : F) (timestamp : ℕ) → TraceEvent F
  eviction :
      (chunk_id : ChunkId) (tier : TierId) (reason : EvictionReason) (timestamp : ℕ) → TraceEvent F
  policy_decision :
      (chunk_id : ChunkId) (from : TierId) (to : TierId) (reason : String) (timestamp : ℕ)
      → TraceEvent F
  daemon_started : (timestamp : ℕ) → TraceEvent F
  daemon_stopping : (timestamp : ℕ) → TraceEvent F
  backend_registered : (tier : TierId) (timestamp : ℕ) → TraceEvent F
  worker_spawned : (worker_id : ℕ) (timestamp : ℕ) → TraceEvent F
  worker_stopped : (worker_id : ℕ) (timestamp : ℕ) → TraceEvent F
  ipc_request_received : (request_type : String) (timestamp : ℕ) → TraceEvent F
  ipc_response_sent : (request_type : String) (success : Bool) (timestamp : ℕ) → TraceEvent F
  ipc_connection_accepted : (timestamp : ℕ) → TraceEvent F
  ipc_connection_closed : (timestamp : ℕ) → TraceEvent F
  compression_started : (chunk_id : ChunkId) (original_size : ℕ) (timestamp : ℕ) → TraceEvent F
  compression_completed :
      (chunk_id : ChunkId) (original_size : ℕ) (compressed_size : ℕ) (timestamp : ℕ) → TraceEvent F
  decompression_started : (chunk_id : ChunkId) (compressed_size : ℕ) (timestamp : ℕ) → TraceEvent F
  decompression_completed :
      (chunk_id : ChunkId) (compressed_size : ℕ) (decompressed_size : ℕ) (timestamp : ℕ)
      → TraceEvent F
  backend_degraded : (tier : TierId) (reason : String) (timestamp : ℕ) → TraceEvent F
  backend_recovered : (tier : TierId) (timestamp : ℕ) → TraceEvent F
  migration_rolled_back :
      (chunk_id : ChunkId) (from : TierId) (to : TierId) (reason : String) (timestamp : ℕ)
      → TraceEvent F
  retry_exhausted :
      (chunk_id : ChunkId) (from : TierId) (to : TierId) (attempts : ℕ) (timestamp : ℕ)
      → TraceEvent F
  pressure_escalated :
      (memory_pressure : F) (vram_pressure : F) (io_pressure : F) (timestamp : ℕ) → TraceEvent F
  allocation_failed : (tier : TierId) (size : ℕ) (reason : String) (timestamp : ℕ) → TraceEvent F
  queue_throttled : (queue_depth : ℕ) (capacity : ℕ) (timestamp : ℕ) → TraceEvent F
  promotion_queued :
      (chunk_id : ChunkId) (from : TierId) (to : TierId) (timestamp : ℕ) → TraceEvent F
  eviction_queued :
      (chunk_id : ChunkId) (tier : TierId) (reason : EvictionReason) (timestamp : ℕ) → TraceEvent F
  backpressure_activated :
      (memory_pressure : F) (vram_pressure : F) (io_pressure : F) (timestamp : ℕ) → TraceEvent F
  backpressure_released :
      (memory_pressure : F) (vram_pressure : F) (io_pressure : F) (timestamp : ℕ) → TraceEvent F
  metrics_exported : (metrics_count : ℕ) (timestamp : ℕ) → TraceEvent F

module _ {F : Type 0} where
  unfoldable pub timestamp : TraceEvent F → ℕ
  timestamp (chunk_created _ _ _ t) = t
  timestamp (chunk_deleted _ _ t) = t
  timestamp (chunk_state_changed _ _ _ t) = t
  timestamp (transfer_queued _ _ _ _ t) = t
  timestamp (transfer_started _ t) = t
  timestamp (transfer_completed _ _ _ _ _ t) = t
  timestamp (transfer_failed _ _ _ _ _ t) = t
  timestamp (transfer_retry _ _ _ _ t) = t
  timestamp (transfer_cancelled _ _ _ t) = t
  timestamp (pressure_sample _ t) = t
  timestamp (pressure_alert _ _ _ t) = t
  timestamp (eviction _ _ _ t) = t
  timestamp (policy_decision _ _ _ _ t) = t
  timestamp (daemon_started t) = t
  timestamp (daemon_stopping t) = t
  timestamp (backend_registered _ t) = t
  timestamp (worker_spawned _ t) = t
  timestamp (worker_stopped _ t) = t
  timestamp (ipc_request_received _ t) = t
  timestamp (ipc_response_sent _ _ t) = t
  timestamp (ipc_connection_accepted t) = t
  timestamp (ipc_connection_closed t) = t
  timestamp (compression_started _ _ t) = t
  timestamp (compression_completed _ _ _ t) = t
  timestamp (decompression_started _ _ t) = t
  timestamp (decompression_completed _ _ _ t) = t
  timestamp (backend_degraded _ _ t) = t
  timestamp (backend_recovered _ t) = t
  timestamp (migration_rolled_back _ _ _ _ t) = t
  timestamp (retry_exhausted _ _ _ _ t) = t
  timestamp (pressure_escalated _ _ _ t) = t
  timestamp (allocation_failed _ _ _ t) = t
  timestamp (queue_throttled _ _ t) = t
  timestamp (promotion_queued _ _ _ t) = t
  timestamp (eviction_queued _ _ _ t) = t
  timestamp (backpressure_activated _ _ _ t) = t
  timestamp (backpressure_released _ _ _ t) = t
  timestamp (metrics_exported _ t) = t

  unfoldable pub chunk_id : TraceEvent F → Option ChunkId
  chunk_id (chunk_created id _ _ _) = some id
  chunk_id (chunk_deleted id _ _) = some id
  chunk_id (chunk_state_changed id _ _ _) = some id
  chunk_id (transfer_queued id _ _ _ _) = some id
  chunk_id (transfer_started job _) = some job.chunk_id
  chunk_id (transfer_completed id _ _ _ _ _) = some id
  chunk_id (transfer_failed id _ _ _ _ _) = some id
  chunk_id (transfer_retry id _ _ _ _) = some id
  chunk_id (transfer_cancelled id _ _ _) = some id
  chunk_id (pressure_sample _ _) = none
  chunk_id (pressure_alert _ _ _ _) = none
  chunk_id (eviction id _ _ _) = some id
  chunk_id (policy_decision id _ _ _ _) = some id
  chunk_id (daemon_started _) = none
  chunk_id (daemon_stopping _) = none
  chunk_id (backend_registered _ _) = none
  chunk_id (worker_spawned _ _) = none
  chunk_id (worker_stopped _ _) = none
  chunk_id (ipc_request_received _ _) = none
  chunk_id (ipc_response_sent _ _ _) = none
  chunk_id (ipc_connection_accepted _) = none
  chunk_id (ipc_connection_closed _) = none
  chunk_id (compression_started id _ _) = some id
  chunk_id (compression_completed id _ _ _) = some id
  chunk_id (decompression_started id _ _) = some id
  chunk_id (decompression_completed id _ _ _) = some id
  chunk_id (backend_degraded _ _ _) = none
  chunk_id (backend_recovered _ _) = none
  chunk_id (migration_rolled_back id _ _ _ _) = some id
  chunk_id (retry_exhausted id _ _ _ _) = some id
  chunk_id (pressure_escalated _ _ _ _) = none
  chunk_id (allocation_failed _ _ _ _) = none
  chunk_id (queue_throttled _ _ _) = none
  chunk_id (promotion_queued id _ _ _) = some id
  chunk_id (eviction_queued id _ _ _) = some id
  chunk_id (backpressure_activated _ _ _ _) = none
  chunk_id (backpressure_released _ _ _ _) = none
  chunk_id (metrics_exported _ _) = none

  unfoldable pub event_type : TraceEvent F → String
  event_type (chunk_created _ _ _ _) = "chunk_created"
  event_type (chunk_deleted _ _ _) = "chunk_deleted"
  event_type (chunk_state_changed _ _ _ _) = "chunk_state_changed"
  event_type (transfer_queued _ _ _ _ _) = "transfer_queued"
  event_type (transfer_started _ _) = "transfer_started"
  event_type (transfer_completed _ _ _ _ _ _) = "transfer_completed"
  event_type (transfer_failed _ _ _ _ _ _) = "transfer_failed"
  event_type (transfer_retry _ _ _ _ _) = "transfer_retry"
  event_type (transfer_cancelled _ _ _ _) = "transfer_cancelled"
  event_type (pressure_sample _ _) = "pressure_sample"
  event_type (pressure_alert _ _ _ _) = "pressure_alert"
  event_type (eviction _ _ _ _) = "eviction"
  event_type (policy_decision _ _ _ _ _) = "policy_decision"
  event_type (daemon_started _) = "daemon_started"
  event_type (daemon_stopping _) = "daemon_stopping"
  event_type (backend_registered _ _) = "backend_registered"
  event_type (worker_spawned _ _) = "worker_spawned"
  event_type (worker_stopped _ _) = "worker_stopped"
  event_type (ipc_request_received _ _) = "ipc_request_received"
  event_type (ipc_response_sent _ _ _) = "ipc_response_sent"
  event_type (ipc_connection_accepted _) = "ipc_connection_accepted"
  event_type (ipc_connection_closed _) = "ipc_connection_closed"
  event_type (compression_started _ _ _) = "compression_started"
  event_type (compression_completed _ _ _ _) = "compression_completed"
  event_type (decompression_started _ _ _) = "decompression_started"
  event_type (decompression_completed _ _ _ _) = "decompression_completed"
  event_type (backend_degraded _ _ _) = "backend_degraded"
  event_type (backend_recovered _ _) = "backend_recovered"
  event_type (migration_rolled_back _ _ _ _ _) = "migration_rolled_back"
  event_type (retry_exhausted _ _ _ _ _) = "retry_exhausted"
  event_type (pressure_escalated _ _ _ _) = "pressure_escalated"
  event_type (allocation_failed _ _ _ _) = "allocation_failed"
  event_type (queue_throttled _ _ _) = "queue_throttled"
  event_type (promotion_queued _ _ _ _) = "promotion_queued"
  event_type (eviction_queued _ _ _ _) = "eviction_queued"
  event_type (backpressure_activated _ _ _ _) = "backpressure_activated"
  event_type (backpressure_released _ _ _ _) = "backpressure_released"
  event_type (metrics_exported _ _) = "metrics_exported"

  unfoldable pub set_timestamp : TraceEvent F → ℕ → TraceEvent F
  set_timestamp (chunk_created a b c _) ts = chunk_created a b c ts
  set_timestamp (chunk_deleted a b _) ts = chunk_deleted a b ts
  set_timestamp (chunk_state_changed a b c _) ts = chunk_state_changed a b c ts
  set_timestamp (transfer_queued a b c d _) ts = transfer_queued a b c d ts
  set_timestamp (transfer_started a _) ts = transfer_started a ts
  set_timestamp (transfer_completed a b c d e _) ts = transfer_completed a b c d e ts
  set_timestamp (transfer_failed a b c d e _) ts = transfer_failed a b c d e ts
  set_timestamp (transfer_retry a b c d _) ts = transfer_retry a b c d ts
  set_timestamp (transfer_cancelled a b c _) ts = transfer_cancelled a b c ts
  set_timestamp (pressure_sample a _) ts = pressure_sample a ts
  set_timestamp (pressure_alert a b c _) ts = pressure_alert a b c ts
  set_timestamp (eviction a b c _) ts = eviction a b c ts
  set_timestamp (policy_decision a b c d _) ts = policy_decision a b c d ts
  set_timestamp (daemon_started _) ts = daemon_started ts
  set_timestamp (daemon_stopping _) ts = daemon_stopping ts
  set_timestamp (backend_registered a _) ts = backend_registered a ts
  set_timestamp (worker_spawned a _) ts = worker_spawned a ts
  set_timestamp (worker_stopped a _) ts = worker_stopped a ts
  set_timestamp (ipc_request_received a _) ts = ipc_request_received a ts
  set_timestamp (ipc_response_sent a b _) ts = ipc_response_sent a b ts
  set_timestamp (ipc_connection_accepted _) ts = ipc_connection_accepted ts
  set_timestamp (ipc_connection_closed _) ts = ipc_connection_closed ts
  set_timestamp (compression_started a b _) ts = compression_started a b ts
  set_timestamp (compression_completed a b c _) ts = compression_completed a b c ts
  set_timestamp (decompression_started a b _) ts = decompression_started a b ts
  set_timestamp (decompression_completed a b c _) ts = decompression_completed a b c ts
  set_timestamp (backend_degraded a b _) ts = backend_degraded a b ts
  set_timestamp (backend_recovered a _) ts = backend_recovered a ts
  set_timestamp (migration_rolled_back a b c d _) ts = migration_rolled_back a b c d ts
  set_timestamp (retry_exhausted a b c d _) ts = retry_exhausted a b c d ts
  set_timestamp (pressure_escalated a b c _) ts = pressure_escalated a b c ts
  set_timestamp (allocation_failed a b c _) ts = allocation_failed a b c ts
  set_timestamp (queue_throttled a b _) ts = queue_throttled a b ts
  set_timestamp (promotion_queued a b c _) ts = promotion_queued a b c ts
  set_timestamp (eviction_queued a b c _) ts = eviction_queued a b c ts
  set_timestamp (backpressure_activated a b c _) ts = backpressure_activated a b c ts
  set_timestamp (backpressure_released a b c _) ts = backpressure_released a b c ts
  set_timestamp (metrics_exported a _) ts = metrics_exported a ts
