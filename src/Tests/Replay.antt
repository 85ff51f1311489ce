-- ===== src/Tests/Replay.antt =====
-- Traces, in an encoding of two bytes: that of a daemon that starts, stops and starts again, of
-- a few chunks and of two transfers.
use ghost_pages.Common.{
  ℕ, ◌%◌, ◌^◌, ◌≡◌, refl, Option, none, some, List, [], ◌∷◌, ◌++◌, length, ◌==◌, if◌then◌else◌,
  arith,
}
use ghost_pages.Core.Types.{err, replay_error, ram, disk}
use ghost_pages.Core.State.{stored, cached, evicted, migrating, Call, registers, transitions}
use ghost_pages.Core.Transfer.{high}
use ghost_pages.Core.Trace.{
  TraceEvent, timestamp, daemon_started, daemon_stopping, transfer_started, transfer_failed,
}
use ghost_pages.Tests.Base.{job}
use ghost_pages.Common.Bytes.{Bytes}
use ghost_pages.Replay.Format.{with_domains, has_checksum, TraceRecord, write_record}
use ghost_pages.Replay.Writer.{Codec, TraceMetadata}
use ghost_pages.Replay.Reader.{TraceReader, moved, read_next}
use ghost_pages.Replay.Reader.Errors.{read_next-tampered}

abbrev serialize : TraceEvent ℕ → Option Bytes
serialize (daemon_started t) = some (0 ∷ t ∷ [])
serialize (daemon_stopping t) = some (1 ∷ t ∷ [])
serialize _ = none

abbrev deserialize : Bytes → Option (TraceEvent ℕ)
deserialize (tag ∷ t ∷ []) = if tag == 0 then some (daemon_started t) else some (daemon_stopping t)
deserialize _ = none

abbrev codec : Codec ℕ
codec = record {
  serialize = serialize;
  deserialize = deserialize;
  crc32 = λ b. length b % 2 ^ 32;
  to_json = λ m. some (m.total_events % 256 ∷ []);
}

abbrev events : List (TraceEvent ℕ)
events = daemon_started 10 ∷ daemon_stopping 20 ∷ daemon_started 30 ∷ []

abbrev metadata : TraceMetadata
metadata = record {
  total_events = 3;
  total_chunks = 0;
  tier_ids = ram ∷ [];
  time_range = (10, 30);
  policy_name = "lru";
  config_summary = "";
}

-- A record whose payload has a byte more than when its checksum was taken.
abbrev tampered : TraceRecord
tampered = record {
  timestamp = 20;
  event_type = 14;
  payload_len = 3;
  payload = 1 ∷ 20 ∷ 0 ∷ [];
  crc32 = 2;
}

abbrev before : TraceReader
before = record {
  file = write_record tampered ++ [];
  position = 0;
  header = with_domains 2 1 0 40 [];
  current_index = 0;
  header_bytes = 40;
}

read_next-tampered_example : read_next codec before ≡ (moved before [], err replay_error)
unfolding with_domains has_checksum
read_next-tampered_example =
    read_next-tampered codec before tampered []
      (record {
        timestamp = omega arith;
        event_type = omega arith;
        payload = omega arith;
        payload_len = refl;
        crc32 = omega arith;
      })
      (omega arith) refl refl (λ h. cc h)

-- A chunk that is registered, stored, moved and evicted, beside one that stays.
abbrev calls : List Call
calls =
    registers 7
    ∷ transitions 7 stored
    ∷ registers 8
    ∷ transitions 7 cached
    ∷ transitions 7 evicted
    ∷ transitions 7 migrating
    ∷ transitions 7 evicted
    ∷ []

-- A transfer that fails, and a second one of the same chunk that is never heard of again.
abbrev transfers : List (TraceEvent ℕ)
transfers =
    transfer_started (job 1 high) 10
    ∷ transfer_failed 1 ram disk "timeout" 1 20
    ∷ transfer_started (job 1 high) 30
    ∷ []
