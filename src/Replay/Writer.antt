-- ===== src/Replay/Writer.antt =====
-- crates/ghost-replay/src/writer.rs: writing a trace file. The encodings of events and of the
-- metadata (bincode and serde_json) and the checksum (crc32fast) are parameters. The file is the
-- bytes written so far; the writer stands at its end until `close`.
use Prim.Native.String.{String}
use ghost_pages.Common.{
  ℕ, ◌+◌, ◌%◌, ◌^◌, ◌<◌, ◌≡◌, Option, none, some, List, [], ◌∷◌, ◌++◌, length, drop, arith,
}
use ghost_pages.Core.Types.{TierId, GhostResult, ok, err, replay_error}
use ghost_pages.Core.Trace.{
  TraceEvent, timestamp, chunk_created, chunk_deleted, chunk_state_changed, transfer_queued,
  transfer_started, transfer_completed, transfer_failed, transfer_retry, transfer_cancelled,
  pressure_sample, pressure_alert, eviction, policy_decision, daemon_started, daemon_stopping,
  backend_registered, worker_spawned, worker_stopped, ipc_request_received, ipc_response_sent,
  ipc_connection_accepted, ipc_connection_closed, compression_started, compression_completed,
  decompression_started, decompression_completed, backend_degraded, backend_recovered,
  migration_rolled_back, retry_exhausted, pressure_escalated, allocation_failed, queue_throttled,
  promotion_queued, eviction_queued, backpressure_activated, backpressure_released,
  metrics_exported,
}
use ghost_pages.Common.Bytes.{Bytes, to_le_bytes}
use ghost_pages.Replay.Format.{
  Domain, TraceFileHeader, with_domains, write_header, TraceRecord, write_record,
}

pub record TraceMetadata : Type 0 where
  pub total_events : ℕ
  pub total_chunks : ℕ
  pub tier_ids : List TierId
  pub time_range : ℕ × ℕ
  pub policy_name : String
  pub config_summary : String

-- The libraries that encode events and metadata, and the checksum.
pub record Codec (F : Type 0) : Type 0 where
  pub serialize : TraceEvent F → Option Bytes
  pub deserialize : Bytes → Option (TraceEvent F)
  pub crc32 : Bytes → ℕ
  pub to_json : TraceMetadata → Option Bytes

-- What is documented of them: an encoding is decoded to what was encoded, and a checksum has 32
-- bits.
pub record IsFaithful {F : Type 0} (c : Codec F) : Type 0 where
  pub decodes : (e : TraceEvent F) (b : Bytes) → c.serialize e ≡ some b → c.deserialize b ≡ some e
  pub crc32_word : (b : Bytes) → c.crc32 b < 2 ^ 32

pub record TraceWriter : Type 0 where
  pub file : Bytes
  pub header : TraceFileHeader
  pub record_count : ℕ
  pub current_time_secs : ℕ

-- `TraceWriter::create_with_domains`.
unfoldable pub create : (flags : ℕ) → List Domain → TraceWriter
create flags domains =
    let header = with_domains flags 0 0 0 domains in
    record { file = write_header header; header = header; record_count = 0; current_time_secs = 0 }

-- The rest of the loop, which an error leaves.
abbrev pub and_then :
    TraceWriter × GhostResult (Unit {0})
    → (TraceWriter → TraceWriter × GhostResult (Unit {0}))
    → TraceWriter × GhostResult (Unit {0})
and_then (w, ok _) f = f w
and_then (w, err e) f = (w, err e)

-- Writing at the start of a file replaces what stands there.
unfoldable pub overwrite : Bytes → Bytes → Bytes
overwrite bytes file = bytes ++ drop (length bytes) file

unfoldable pub with_metadata : TraceWriter → Option Bytes → Bytes × GhostResult (Unit {0})
with_metadata w none = (w.file, err replay_error)
with_metadata w (some json) = (
  overwrite
      (write_header (
        with_domains w.header.flags w.record_count w.current_time_secs (length w.file)
          w.header.domains))
      (w.file ++ (to_le_bytes 8 (length json % 2 ^ 64) ++ json)),
  ok tt,
)

module _ {F : Type 0} where
  unfoldable pub event_type_index : TraceEvent F → ℕ
  event_type_index (chunk_created _ _ _ _) = 0
  event_type_index (chunk_deleted _ _ _) = 1
  event_type_index (chunk_state_changed _ _ _ _) = 2
  event_type_index (transfer_queued _ _ _ _ _) = 3
  event_type_index (transfer_started _ _) = 4
  event_type_index (transfer_completed _ _ _ _ _ _) = 5
  event_type_index (transfer_failed _ _ _ _ _ _) = 6
  event_type_index (transfer_retry _ _ _ _ _) = 7
  event_type_index (transfer_cancelled _ _ _ _) = 8
  event_type_index (pressure_sample _ _) = 9
  event_type_index (pressure_alert _ _ _ _) = 10
  event_type_index (eviction _ _ _ _) = 11
  event_type_index (policy_decision _ _ _ _ _) = 12
  event_type_index (daemon_started _) = 13
  event_type_index (daemon_stopping _) = 14
  event_type_index (backend_registered _ _) = 15
  event_type_index (worker_spawned _ _) = 16
  event_type_index (worker_stopped _ _) = 17
  event_type_index (ipc_request_received _ _) = 18
  event_type_index (ipc_response_sent _ _ _) = 19
  event_type_index (ipc_connection_accepted _) = 20
  event_type_index (ipc_connection_closed _) = 21
  event_type_index (compression_started _ _ _) = 22
  event_type_index (compression_completed _ _ _ _) = 23
  event_type_index (decompression_started _ _ _) = 24
  event_type_index (decompression_completed _ _ _ _) = 25
  event_type_index (backend_degraded _ _ _) = 26
  event_type_index (backend_recovered _ _) = 27
  event_type_index (migration_rolled_back _ _ _ _ _) = 28
  event_type_index (retry_exhausted _ _ _ _ _) = 29
  event_type_index (pressure_escalated _ _ _ _) = 30
  event_type_index (allocation_failed _ _ _ _) = 31
  event_type_index (queue_throttled _ _ _) = 32
  event_type_index (promotion_queued _ _ _ _) = 33
  event_type_index (eviction_queued _ _ _ _) = 34
  event_type_index (backpressure_activated _ _ _ _) = 35
  event_type_index (backpressure_released _ _ _ _) = 36
  event_type_index (metrics_exported _ _) = 37

  pub event_type_index-lt : (e : TraceEvent F) → event_type_index e < 2 ^ 16
  unfolding event_type_index
  event_type_index-lt (chunk_created _ _ _ _) = omega arith
  event_type_index-lt _ = omega arith

  module _ (c : Codec F) where
    unfoldable pub record_of : TraceEvent F → Bytes → TraceRecord
    record_of e payload = record {
      timestamp = timestamp e;
      event_type = event_type_index e;
      payload_len = length payload % 2 ^ 32;
      payload = payload;
      crc32 = c.crc32 payload;
    }

    unfoldable pub append_record :
        TraceWriter → TraceEvent F → Option Bytes → TraceWriter × GhostResult (Unit {0})
    append_record w e none = (w, err replay_error)
    append_record w e (some payload) = (
      record w {
        file = w.file ++ write_record (record_of e payload);
        record_count = (w.record_count + 1) % 2 ^ 64;
      },
      ok tt,
    )

    unfoldable pub write_event : TraceWriter → TraceEvent F → TraceWriter × GhostResult (Unit {0})
    unfolding append_record
    write_event w e = append_record w e (c.serialize e)

    unfoldable pub write_events :
        TraceWriter → List (TraceEvent F) → TraceWriter × GhostResult (Unit {0})
    write_events w [] = (w, ok tt)
    write_events w (e ∷ es) = and_then (write_event w e) (λ w'. write_events w' es)

    -- The closed file, and the result.
    unfoldable pub close : TraceWriter → TraceMetadata → Bytes × GhostResult (Unit {0})
    unfolding with_metadata
    close w metadata = with_metadata w (c.to_json metadata)
