-- ===== src/Daemon/Scheduler.antt =====
-- crates/ghost-daemon/src/scheduler.rs: the transfer scheduler, one round of its loop at a time. The
-- texts of the trace events, the readings of the clock, and whether the worker channel accepts a
-- job (`try_send`) are arguments. The depth gauge and the unified events are left out.
pub mod Throttling
pub mod Rounds
use Prim.Native.String.{String}
use ghost_pages.Common.{
  ℕ, ◌%◌, ◌^◌, Bool, true, false, not, ◌&&◌, Option, none, some, ltb, if◌then◌else◌,
}
use ghost_pages.Core.Types.{disk, tier_eqb}
use ghost_pages.Core.Pressure.{Float, PressureState, is_critical, is_under_pressure}
use ghost_pages.Core.Transfer.{TransferJob, low, critical, priority_eqb, queued, transition_state}
use ghost_pages.Core.Trace.{TraceEvent, policy_decision, transfer_started}
use ghost_pages.Daemon.TraceLog.{TraceLog, record_event}
use ghost_pages.Daemon.Queue.{Queue, dequeue_wait}

pub record SchedulerConfig : Type 0 where
  pub max_concurrent_transfers : ℕ
  pub priority_ordering : Bool
  pub disk_aware_scheduling : Bool
  pub disk_queue_threshold : ℕ

-- `disk_queue` is the queue depth of the I/O metrics, when there are any.
unfoldable pub disk_congested : SchedulerConfig → Option ℕ → Bool
disk_congested cfg none = false
disk_congested cfg (some disk_queue) =
    cfg.disk_aware_scheduling && ltb cfg.disk_queue_threshold (disk_queue % 2 ^ 32)

-- What became of a job: nothing is sent, or it is sent to a worker, or the channel refused it.
pub data Fate : Type 0 where
  throttled refused : Fate
  dispatched : TransferJob → Fate

pub data Round : Type 0 where
  waits closed : Round
  handled : Fate → Round

module _ (fl : Float) where
  open fl use {F, flt, hundredths}

  unfoldable pub should_throttle : SchedulerConfig → Option ℕ → TransferJob → PressureState F → Bool
  unfolding disk_congested
  should_throttle cfg disk_queue job p =
      if is_critical fl p
      then not (priority_eqb job.priority critical)
      else if flt (hundredths 80) p.io_pressure && priority_eqb job.priority low
      then true
      else if is_under_pressure fl p && priority_eqb job.priority low && ltb 1_048_576 job.size
      then true
      else disk_congested cfg disk_queue
        && tier_eqb job.to_tier disk
        && not (priority_eqb job.priority critical)

  -- The outcome of the `try_send`, after the two events are recorded.
  unfoldable pub dispatch_job :
      (reason : String) (now now' : ℕ)
      → (TransferJob → Bool)
      → TraceLog (TraceEvent F)
      → TransferJob
      → Option (TraceLog (TraceEvent F) × Fate)
  dispatch_job reason now now' accepts log job =
      let sent = transition_state job queued in
      elim (record_event log
        (policy_decision sent.chunk_id sent.from_tier sent.to_tier reason now)) [
          | none ↦ none
          | some log' ↦ elim (record_event log' (transfer_started sent now')) [
            | none ↦ none
            | some log'' ↦ some (log'', if accepts sent then dispatched sent else refused)
          ]
        ]

  unfoldable pub throttle_job :
      (reason : String) (now : ℕ)
      → TraceLog (TraceEvent F)
      → TransferJob
      → Option (TraceLog (TraceEvent F) × Fate)
  throttle_job reason now log job =
      elim (record_event log (policy_decision job.chunk_id job.from_tier job.to_tier reason now)) [
        | none ↦ none
        | some log' ↦ some (log', throttled)
      ]

  -- The body of the loop for one job.
  unfoldable pub handle :
      SchedulerConfig
      → Option ℕ
      → PressureState F
      → (reason reason' : String) (now now' : ℕ) → (TransferJob → Bool)
      → TraceLog (TraceEvent F)
      → TransferJob
      → Option (TraceLog (TraceEvent F) × Fate)
  unfolding should_throttle dispatch_job throttle_job
  handle cfg disk_queue p reason reason' now now' accepts log job =
      if should_throttle cfg disk_queue job p
      then throttle_job reason now log job
      else dispatch_job reason' now now' accepts log job

  abbrev pub relogged : Queue F → Option (TraceLog (TraceEvent F) × Fate) → Option (Queue F × Round)
  relogged q none = none
  relogged q (some (log, fate)) = some (record q { trace_log = log }, handled fate)

  abbrev pub on_job :
      (Queue F → TransferJob → Option (TraceLog (TraceEvent F) × Fate))
      → Queue F × Option (Option TransferJob)
      → Option (Queue F × Round)
  on_job h (q, none) = some (q, waits)
  on_job h (q, some none) = some (q, closed)
  on_job h (q, some (some job)) = relogged q (h q job)

  -- One round: it waits for a job, or finds the queue shut down (and then waits for the signal to
  -- stop), or handles the next job.
  unfoldable pub round :
      SchedulerConfig
      → Option ℕ
      → PressureState F
      → (reason reason' : String) (now now' : ℕ) → (TransferJob → Bool)
      → Queue F
      → Option (Queue F × Round)
  unfolding handle
  round cfg disk_queue p reason reason' now now' accepts q =
      on_job (λ q' job. handle cfg disk_queue p reason reason' now now' accepts q'.trace_log job)
        (dequeue_wait q)
