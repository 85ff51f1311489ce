-- ===== src/Daemon/Queue.antt =====
-- crates/ghost-daemon/src/queue.rs: the bounded transfer queue with priority insertion. Each
-- method holds the lock from start to end, so it is one step on the state. A panic (of the trace
-- log) is `none`; the counter wraps at 64 bits. The wake-up of waiting tasks is left out.
pub mod Lanes
pub mod Refinement
pub mod Histories
use ghost_pages.Common.{
  ℕ, zero, suc, ◌+◌, ◌-◌, ◌%◌, ◌^◌, ◌≡◌, Bool, true, false, not, List, [], ◌∷◌, ◌++◌, Option, none,
  some, length, take, drop, leb, ◌==◌, if◌then◌else◌,
}
use ghost_pages.Core.Types.{GhostResult, ok, err, cancelled, internal}
use ghost_pages.Core.Transfer.{TransferJob, is_higher_than, normal}
use ghost_pages.Core.Trace.{TraceEvent, transfer_queued}
use ghost_pages.Daemon.TraceLog.{TraceLog, record_event}

pub record Queue (F : Type 0) : Type 0 where
  pub jobs : List TransferJob
  pub current_depth : ℕ
  pub is_shutdown : Bool
  pub capacity : ℕ
  pub trace_log : TraceLog (TraceEvent F)

unfoldable pub jumps : TransferJob → Bool
unfolding is_higher_than
jumps j = is_higher_than j.priority normal

-- The index of the first job that the test accepts, or the length of the queue.
unfoldable pub position_or_len : (TransferJob → Bool) → List TransferJob → ℕ
position_or_len p [] = 0
position_or_len p (j ∷ js) = let later = suc (position_or_len p js) in if p j then 0 else later

-- `VecDeque::insert` at an index that is at most the length.
unfoldable pub insert_at : ℕ → TransferJob → List TransferJob → List TransferJob
insert_at n job jobs = take n jobs ++ job ∷ drop n jobs

unfoldable pub place : TransferJob → List TransferJob → List TransferJob
unfolding jumps position_or_len insert_at
place job jobs =
    if jumps job
    then insert_at (position_or_len (λ j. not (jumps j)) jobs) job jobs
    else jobs ++ job ∷ []

module _ {F : Type 0} where
  unfoldable pub new_queue : ℕ → TraceLog (TraceEvent F) → Queue F
  new_queue capacity log = record {
    jobs = [];
    current_depth = 0;
    is_shutdown = false;
    capacity = capacity;
    trace_log = log;
  }

  unfoldable pub queued_event : ℕ → TransferJob → TraceEvent F
  queued_event now job = transfer_queued job.chunk_id job.from_tier job.to_tier job.priority now

  -- `trace_log.record`, and then the result.
  unfoldable pub logged :
      ℕ → TransferJob → Queue F → GhostResult (Unit {0}) → Option (Queue F × GhostResult (Unit {0}))
  unfolding queued_event
  logged now job q r = elim (record_event q.trace_log (queued_event now job)) [
    | none ↦ none
    | some log ↦ some (record q { trace_log = log }, r)
  ]

  unfoldable pub submit_priority :
      ℕ → Queue F → TransferJob → Option (Queue F × GhostResult (Unit {0}))
  unfolding logged place
  submit_priority now q job =
      if q.is_shutdown
      then some (q, err cancelled)
      else if leb q.capacity q.current_depth
      then logged now job q (err internal)
      else logged now job
          (record q { jobs = place job q.jobs; current_depth = (q.current_depth + 1) % 2 ^ 64 })
          (ok tt)

  unfoldable pub submit : ℕ → Queue F → TransferJob → Option (Queue F × GhostResult (Unit {0}))
  unfolding submit_priority
  submit now q job = submit_priority now q job

  unfoldable pub pop_front : Queue F → List TransferJob → Queue F × Option TransferJob
  pop_front q [] = (q, none)
  pop_front q (job ∷ rest) =
      (record q { jobs = rest; current_depth = (q.current_depth + 2 ^ 64 - 1) % 2 ^ 64 }, some job)

  unfoldable pub try_dequeue : Queue F → Queue F × Option TransferJob
  unfolding pop_front
  try_dequeue q = pop_front q q.jobs

  -- One round of the loop of `dequeue_wait`: `none` waits for a notification.
  unfoldable pub wait_round : Queue F → List TransferJob → Queue F × Option (Option TransferJob)
  wait_round q [] = (q, if q.is_shutdown then some none else none)
  wait_round q (job ∷ rest) = (
    record q { jobs = rest; current_depth = (q.current_depth + 2 ^ 64 - 1) % 2 ^ 64 },
    some (some job),
  )

  unfoldable pub dequeue_wait : Queue F → Queue F × Option (Option TransferJob)
  unfolding wait_round
  dequeue_wait q = wait_round q q.jobs

  unfoldable pub depth : Queue F → ℕ
  depth q = q.current_depth

  unfoldable pub is_full : Queue F → Bool
  is_full q = leb q.capacity q.current_depth

  unfoldable pub is_empty : Queue F → Bool
  is_empty q = q.current_depth == 0

  unfoldable pub shutdown : Queue F → Queue F
  shutdown q = record q { is_shutdown = true }
