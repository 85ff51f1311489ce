-- ===== src/Daemon/Queue/Refinement.antt =====
-- The queue implements the two lanes: what that means, call by call.
pub mod Placement
pub mod Submit
pub mod Dequeue
use ghost_pages.Common.{
  ℕ, zero, suc, ◌+◌, ◌-◌, ◌%◌, ◌^◌, ◌≤◌, ◌<◌, ◌≡◌, refl, sym, ap, subst, ◌∙◌, Bool, true, false,
  not, List, [], ◌∷◌, ◌++◌, All, Option, none, some, length, length-append, take, drop, leb,
  Bool-cases, inl, inr, if◌then◌else◌, arith,
}
use mathlib.Core.List.{append_assoc, append-nil}
use ghost_pages.Core.Types.{GhostResult, ok, err, cancelled, internal}
use ghost_pages.Core.Transfer.{TransferJob}
use ghost_pages.Core.Trace.{TraceEvent}
use ghost_pages.Daemon.TraceLog.{TraceLog, record_event}
use ghost_pages.Daemon.TraceLog.Window.{IsBounded, record_event_lem, record_event-IsBounded}
use ghost_pages.Daemon.Queue.{
  Queue, jumps, position_or_len, insert_at, place, queued_event, logged, submit_priority, submit,
  pop_front, try_dequeue, wait_round, dequeue_wait, shutdown,
}
use ghost_pages.Daemon.Queue.Lanes.{
  Lanes, lanes, append_lane, offer, poll_slow, poll_lanes, poll, close, wait_answer,
}

abbrev pub Fast : List TransferJob → Type 0
Fast = All (λ j. jumps j ≡ true)

abbrev pub Slow : List TransferJob → Type 0
Slow = All (λ j. jumps j ≡ false)

-- The jobs in queue order are the fast lane and then the slow one.
pub record Represents {F : Type 0} (q : Queue F) (l : Lanes) : Type 0 where
  pub order : q.jobs ≡ l.fast ++ l.slow
  pub fast : Fast l.fast
  pub slow : Slow l.slow
  pub counted : q.current_depth ≡ length l.fast + length l.slow
  pub fits : length l.fast + length l.slow ≤ q.capacity
  pub word : q.capacity < 2 ^ 64
  pub same_capacity : l.capacity ≡ q.capacity
  pub same_closed : l.closed ≡ q.is_shutdown
  pub log : IsBounded q.trace_log

module _ {F : Type 0} where
  -- What a call answers, and a state that it leaves behind which still represents the lanes.
  abbrev pub Answers {κ} : {R : Type κ} → Option (Queue F × R) → Lanes × R → Type κ
  Answers got want = (q : Queue F) × (got ≡ some (q, want.1)) × Represents q want.0

  -- The same for a call that cannot panic.
  abbrev pub Gives {κ} : {R : Type κ} → Queue F × R → Lanes × R → Type κ
  Gives got want = (q : Queue F) × (got ≡ (q, want.1)) × Represents q want.0
