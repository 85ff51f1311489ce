-- ===== src/Core/Transfer.antt =====
-- crates/ghost-core/src/transfer.rs: transfer jobs, their priorities and their states. The wall
-- clock is an argument where a job reads it.
use ghost_pages.Common.{ℕ, ◌+◌, ◌-◌, ◌%◌, ◌^◌, Bool, true, false, ltb}
use ghost_pages.Core.Types.{ChunkId, TierId}

pub data TransferPriority : Type 0 where
  low normal high critical : TransferPriority

unfoldable pub value : TransferPriority → ℕ
value low = 0
value normal = 1
value high = 2
value critical = 3

unfoldable pub is_higher_than : TransferPriority → TransferPriority → Bool
unfolding value
is_higher_than p other = ltb (value other) (value p)

abbrev pub priority_eqb : TransferPriority → TransferPriority → Bool
priority_eqb low low = true
priority_eqb normal normal = true
priority_eqb high high = true
priority_eqb critical critical = true
priority_eqb _ _ = false

pub data TransferState : Type 0 where
  queued compressing transferring writing verifying complete failed cancelled : TransferState

unfoldable pub is_terminal : TransferState → Bool
is_terminal complete = true
is_terminal failed = true
is_terminal cancelled = true
is_terminal _ = false

unfoldable pub is_active : TransferState → Bool
is_active compressing = true
is_active transferring = true
is_active writing = true
is_active verifying = true
is_active _ = false

pub record TransferJob : Type 0 where
  pub chunk_id : ChunkId
  pub from_tier : TierId
  pub to_tier : TierId
  pub size : ℕ
  pub priority : TransferPriority
  pub state : TransferState
  pub created_at : ℕ
  pub created_at_secs : ℕ
  pub attempts : ℕ

-- `now` is the monotonic clock and `now_secs` the wall clock.
unfoldable pub new_job :
    (now now_secs : ℕ) → ChunkId → TierId → TierId → ℕ → TransferPriority → TransferJob
new_job now now_secs id from to size priority = record {
  chunk_id = id;
  from_tier = from;
  to_tier = to;
  size = size;
  priority = priority;
  state = queued;
  created_at = now;
  created_at_secs = now_secs;
  attempts = 0;
}

unfoldable pub record_attempt : TransferJob → TransferJob
record_attempt j = record j { attempts = (j.attempts + 1) % 2 ^ 32 }

unfoldable pub transition_state : TransferJob → TransferState → TransferJob
transition_state j next = record j { state = next }

unfoldable pub is_timed_out : (now : ℕ) → TransferJob → ℕ → Bool
is_timed_out now j timeout = ltb timeout (now - j.created_at)

unfoldable pub is_urgent_priority : TransferPriority → Bool
is_urgent_priority high = true
is_urgent_priority critical = true
is_urgent_priority _ = false

unfoldable pub is_urgent : TransferJob → Bool
unfolding is_urgent_priority
is_urgent j = is_urgent_priority j.priority
