-- ===== src/Replay/Invariants.antt =====
-- crates/ghost-replay/src/invariants.rs: the validators of a trace. The messages of the violations are
-- left out. A validator goes through the events with their indices and keeps what it has seen.
pub mod Reports
pub mod Timestamps
use Prim.Native.String.{String}
use ghost_pages.Common.{
  ℕ, suc, ◌≡◌, Bool, true, false, not, ◌&&◌, Option, none, some, List, [], ◌∷◌, ◌++◌, map, filter,
  ltb, if◌then◌else◌, ◌==◌, nat_ord,
}
use ghost_pages.Common.BTreeMap.{BTreeMap, get, insert, remove, contains_key}
use ghost_pages.Core.Types.{ChunkId}
use ghost_pages.Core.State.{ChunkState, allocated, state_eqb, is_valid_transition}
use ghost_pages.Core.Transfer.{TransferJob}
use ghost_pages.Core.Trace.{
  TraceEvent, timestamp, chunk_id, chunk_created, chunk_deleted, chunk_state_changed,
  transfer_started, transfer_completed, transfer_failed, transfer_cancelled,
}

pub data ViolationSeverity : Type 0 where
  info warning error critical : ViolationSeverity

pub record InvariantViolation : Type 0 where
  pub invariant : String
  pub severity : ViolationSeverity
  pub event_index : Option ℕ
  pub chunk_id : Option ChunkId

abbrev pub Tracked : Type 0 → Type 0
Tracked V = BTreeMap ChunkId V

-- The flag of a chunk, if it has one that is set.
abbrev pub or_unset : Option Bool → Bool
or_unset none = false
or_unset (some b) = b

unfoldable pub flag : ChunkId → Tracked Bool → Bool
flag id m = or_unset (get id m)

-- `entry(id).or_insert(false)`.
unfoldable pub or_false : ChunkId → Tracked Bool → Tracked Bool
or_false id m = if contains_key id m then m else insert id false m

unfoldable pub orphan : ChunkId × ℕ → InvariantViolation
orphan (id, i) = record {
  invariant = "NoOrphanedTransfers";
  severity = error;
  event_index = some i;
  chunk_id = some id;
}

unfoldable pub dangling : ChunkId × Bool → InvariantViolation
dangling (id, _) = record {
  invariant = "NoDanglingAllocations";
  severity = warning;
  event_index = none;
  chunk_id = some id;
}

unfoldable pub missing : ChunkId × ℕ → InvariantViolation
missing (id, i) = record {
  invariant = "NoMissingCompletions";
  severity = error;
  event_index = some i;
  chunk_id = some id;
}

unfoldable pub mismatch : ℕ → ChunkId → ChunkState → Option ChunkState → List InvariantViolation
mismatch i id from none = []
mismatch i id from (some expected) =
    if state_eqb expected from
    then []
    else record {
      invariant = "NoIllegalTransitions";
      severity = error;
      event_index = some i;
      chunk_id = some id;
    }
      ∷ []

unfoldable pub illegal : ℕ → ChunkId → ChunkState → ChunkState → List InvariantViolation
illegal i id from to =
    if is_valid_transition from to
    then []
    else record {
      invariant = "NoIllegalTransitions";
      severity = error;
      event_index = some i;
      chunk_id = some id;
    }
      ∷ []

unfoldable pub inconsistent : ℕ → ChunkId → ViolationSeverity → Bool → List InvariantViolation
inconsistent i id severity bad =
    if bad
    then record {
      invariant = "StateMachineConsistency";
      severity = severity;
      event_index = some i;
      chunk_id = some id;
    }
      ∷ []
    else []

-- Whether a chunk that is tracked is in another state than the event says.
unfoldable pub in_other_state : ChunkState → Option ChunkState → Bool
in_other_state from none = false
in_other_state from (some current) = not (state_eqb current from)

module _ {F : Type 0} where
  -- NoOrphanedTransfers: the last start of each chunk, and whether the chunk was ever done.
  unfoldable pub started :
      ℕ → List (TraceEvent F) → Tracked ℕ × Tracked Bool → Tracked ℕ × Tracked Bool
  started i [] s = s
  started i (transfer_started job _ ∷ es) (m, done) =
      started (suc i) es (insert job.chunk_id i m, or_false job.chunk_id done)
  started i (transfer_completed id _ _ _ _ _ ∷ es) (m, done) =
      started (suc i) es (m, insert id true done)
  started i (transfer_failed id _ _ _ _ _ ∷ es) (m, done) =
      started (suc i) es (m, insert id true done)
  started i (_ ∷ es) s = started (suc i) es s

  unfoldable pub no_orphaned_transfers : List (TraceEvent F) → List InvariantViolation
  unfolding started orphan flag
  no_orphaned_transfers es =
      let (m, done) = started 0 es ([], []) in map orphan (filter (λ e. not (flag e.0 done)) m)

  -- NoIllegalTransitions: the last state of each chunk.
  unfoldable pub illegal_from :
      ℕ → List (TraceEvent F) → Tracked ChunkState → List InvariantViolation
  illegal_from i [] last = []
  illegal_from i (chunk_state_changed id from to _ ∷ es) last =
      mismatch i id from (get id last)
      ++ (illegal i id from to ++ illegal_from (suc i) es (insert id to last))
  illegal_from i (_ ∷ es) last = illegal_from (suc i) es last

  unfoldable pub no_illegal_transitions : List (TraceEvent F) → List InvariantViolation
  unfolding illegal_from mismatch illegal
  no_illegal_transitions es = illegal_from 0 es []

  -- NoDanglingAllocations: the chunks that were created, and those that were deleted.
  unfoldable pub seen :
      List (TraceEvent F) → Tracked Bool × Tracked Bool → Tracked Bool × Tracked Bool
  seen [] s = s
  seen (chunk_created id _ _ _ ∷ es) (created, deleted) = seen es (insert id true created, deleted)
  seen (chunk_deleted id _ _ ∷ es) (created, deleted) = seen es (created, insert id true deleted)
  seen (_ ∷ es) s = seen es s

  unfoldable pub no_dangling_allocations : List (TraceEvent F) → List InvariantViolation
  unfolding seen dangling flag
  no_dangling_allocations es =
      let (created, deleted) = seen es ([], []) in
      map dangling (filter (λ e. not (flag e.0 created)) deleted)

  unfoldable pub regression : ℕ → TraceEvent F → Option ℕ → List InvariantViolation
  regression i e none = []
  regression i e (some last) =
      if ltb (timestamp e) last
      then record {
        invariant = "NoTimestampRegression";
        severity = error;
        event_index = some i;
        chunk_id = chunk_id e;
      }
        ∷ []
      else []

  -- NoTimestampRegression: the time of the event before.
  unfoldable pub regressions_from : ℕ → List (TraceEvent F) → Option ℕ → List InvariantViolation
  regressions_from i [] last = []
  regressions_from i (e ∷ es) last =
      regression i e last ++ regressions_from (suc i) es (some (timestamp e))

  unfoldable pub no_timestamp_regression : List (TraceEvent F) → List InvariantViolation
  unfolding regressions_from regression
  no_timestamp_regression es = regressions_from 0 es none

  -- NoMissingCompletions: the transfers that have started and not ended.
  unfoldable pub pending : ℕ → List (TraceEvent F) → Tracked ℕ → Tracked ℕ
  pending i [] m = m
  pending i (transfer_started job _ ∷ es) m = pending (suc i) es (insert job.chunk_id i m)
  pending i (transfer_completed id _ _ _ _ _ ∷ es) m = pending (suc i) es (remove id m)
  pending i (transfer_failed id _ _ _ _ _ ∷ es) m = pending (suc i) es (remove id m)
  pending i (transfer_cancelled id _ _ _ ∷ es) m = pending (suc i) es (remove id m)
  pending i (_ ∷ es) m = pending (suc i) es m

  unfoldable pub no_missing_completions : List (TraceEvent F) → List InvariantViolation
  unfolding pending missing
  no_missing_completions es = map missing (pending 0 es [])

  -- StateMachineConsistency: the states of the chunks.
  unfoldable pub inconsistencies :
      ℕ → List (TraceEvent F) → Tracked ChunkState → List InvariantViolation
  inconsistencies i [] m = []
  inconsistencies i (chunk_created id _ _ _ ∷ es) m =
      inconsistent i id error (contains_key id m)
      ++ inconsistencies (suc i) es (insert id allocated m)
  inconsistencies i (chunk_deleted id _ _ ∷ es) m =
      inconsistent i id warning (not (contains_key id m))
      ++ inconsistencies (suc i) es (remove id m)
  inconsistencies i (chunk_state_changed id from to _ ∷ es) m =
      inconsistent i id error (in_other_state from (get id m))
      ++ inconsistencies (suc i) es (insert id to m)
  inconsistencies i (_ ∷ es) m = inconsistencies (suc i) es m

  unfoldable pub state_machine_consistency : List (TraceEvent F) → List InvariantViolation
  unfolding inconsistencies inconsistent in_other_state
  state_machine_consistency es = inconsistencies 0 es []

-- `InvariantValidator`: its invariants, those of `with_defaults`, and what they find together.
abbrev pub InvariantValidator : Type 0 → Type 0
InvariantValidator F = List (List (TraceEvent F) → List InvariantViolation)

module _ {F : Type 0} where
  unfoldable pub with_defaults : InvariantValidator F
  with_defaults =
      no_orphaned_transfers ∷ no_illegal_transitions ∷ no_dangling_allocations
      ∷ no_timestamp_regression ∷ no_missing_completions ∷ state_machine_consistency ∷ []

  unfoldable pub validate : InvariantValidator F → List (TraceEvent F) → List InvariantViolation
  validate [] es = []
  validate (v ∷ vs) es = v es ++ validate vs es
