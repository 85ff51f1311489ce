-- ===== src/Core/Trace/Stamps.antt =====
-- Re-stamping an event.
use ghost_pages.Common.{ℕ, ◌≡◌, refl}
use ghost_pages.Core.Trace.{TraceEvent, timestamp, chunk_id, event_type, set_timestamp}

module _ {F : Type 0} where
  -- Stamping an event gives it that time, and changes neither its kind nor its chunk.
  pub set_timestamp_lem :
      (e : TraceEvent F) (ts : ℕ)
      → (timestamp (set_timestamp e ts) ≡ ts)
        × (chunk_id (set_timestamp e ts) ≡ chunk_id e)
        × (event_type (set_timestamp e ts) ≡ event_type e)
  unfolding timestamp set_timestamp chunk_id event_type
  set_timestamp_lem (TraceEvent.chunk_created _ _ _ _) ts = (refl, refl, refl)
  set_timestamp_lem (TraceEvent.chunk_deleted _ _ _) ts = (refl, refl, refl)
  set_timestamp_lem (TraceEvent.chunk_state_changed _ _ _ _) ts = (refl, refl, refl)
  set_timestamp_lem (TraceEvent.transfer_queued _ _ _ _ _) ts = (refl, refl, refl)
  set_timestamp_lem (TraceEvent.transfer_started _ _) ts = (refl, refl, refl)
  set_timestamp_lem (TraceEvent.transfer_completed _ _ _ _ _ _) ts = (refl, refl, refl)
  set_timestamp_lem (TraceEvent.transfer_failed _ _ _ _ _ _) ts = (refl, refl, refl)
  set_timestamp_lem (TraceEvent.transfer_retry _ _ _ _ _) ts = (refl, refl, refl)
  set_timestamp_lem (TraceEvent.transfer_cancelled _ _ _ _) ts = (refl, refl, refl)
  set_timestamp_lem (TraceEvent.pressure_sample _ _) ts = (refl, refl, refl)
  set_timestamp_lem (TraceEvent.pressure_alert _ _ _ _) ts = (refl, refl, refl)
  set_timestamp_lem (TraceEvent.eviction _ _ _ _) ts = (refl, refl, refl)
  set_timestamp_lem (TraceEvent.policy_decision _ _ _ _ _) ts = (refl, refl, refl)
  set_timestamp_lem (TraceEvent.daemon_started _) ts = (refl, refl, refl)
  set_timestamp_lem (TraceEvent.daemon_stopping _) ts = (refl, refl, refl)
  set_timestamp_lem (TraceEvent.backend_registered _ _) ts = (refl, refl, refl)
  set_timestamp_lem (TraceEvent.worker_spawned _ _) ts = (refl, refl, refl)
  set_timestamp_lem (TraceEvent.worker_stopped _ _) ts = (refl, refl, refl)
  set_timestamp_lem (TraceEvent.ipc_request_received _ _) ts = (refl, refl, refl)
  set_timestamp_lem (TraceEvent.ipc_response_sent _ _ _) ts = (refl, refl, refl)
  set_timestamp_lem (TraceEvent.ipc_connection_accepted _) ts = (refl, refl, refl)
  set_timestamp_lem (TraceEvent.ipc_connection_closed _) ts = (refl, refl, refl)
  set_timestamp_lem (TraceEvent.compression_started _ _ _) ts = (refl, refl, refl)
  set_timestamp_lem (TraceEvent.compression_completed _ _ _ _) ts = (refl, refl, refl)
  set_timestamp_lem (TraceEvent.decompression_started _ _ _) ts = (refl, refl, refl)
  set_timestamp_lem (TraceEvent.decompression_completed _ _ _ _) ts = (refl, refl, refl)
  set_timestamp_lem (TraceEvent.backend_degraded _ _ _) ts = (refl, refl, refl)
  set_timestamp_lem (TraceEvent.backend_recovered _ _) ts = (refl, refl, refl)
  set_timestamp_lem (TraceEvent.migration_rolled_back _ _ _ _ _) ts = (refl, refl, refl)
  set_timestamp_lem (TraceEvent.retry_exhausted _ _ _ _ _) ts = (refl, refl, refl)
  set_timestamp_lem (TraceEvent.pressure_escalated _ _ _ _) ts = (refl, refl, refl)
  set_timestamp_lem (TraceEvent.allocation_failed _ _ _ _) ts = (refl, refl, refl)
  set_timestamp_lem (TraceEvent.queue_throttled _ _ _) ts = (refl, refl, refl)
  set_timestamp_lem (TraceEvent.promotion_queued _ _ _ _) ts = (refl, refl, refl)
  set_timestamp_lem (TraceEvent.eviction_queued _ _ _ _) ts = (refl, refl, refl)
  set_timestamp_lem (TraceEvent.backpressure_activated _ _ _ _) ts = (refl, refl, refl)
  set_timestamp_lem (TraceEvent.backpressure_released _ _ _ _) ts = (refl, refl, refl)
  set_timestamp_lem (TraceEvent.metrics_exported _ _) ts = (refl, refl, refl)
