-- ===== src/Daemon/Queue/Lanes.antt =====
-- What the queue promises: two first-in first-out lanes, the fast one served first.
use ghost_pages.Common.{
  ℕ, ◌+◌, Bool, true, false, List, [], ◌∷◌, ◌++◌, Option, none, some, length, leb, if◌then◌else◌,
}
use ghost_pages.Core.Types.{GhostResult, ok, err, cancelled, internal}
use ghost_pages.Core.Transfer.{TransferJob}
use ghost_pages.Daemon.Queue.{jumps}

pub record Lanes : Type 0 where
  pub fast : List TransferJob
  pub slow : List TransferJob
  pub closed : Bool
  pub capacity : ℕ

abbrev pub append_lane : Lanes → TransferJob → Bool → Lanes
append_lane l job b =
    if b then record l { fast = l.fast ++ job ∷ [] } else record l { slow = l.slow ++ job ∷ [] }

-- Refused when closed or full; otherwise the job goes to the end of its lane.
abbrev pub offer : Lanes → TransferJob → Lanes × GhostResult (Unit {0})
offer l job =
    if l.closed
    then (l, err cancelled)
    else if leb l.capacity (length l.fast + length l.slow)
    then (l, err internal)
    else (append_lane l job (jumps job), ok tt)

abbrev pub poll_slow : Lanes → List TransferJob → Lanes × Option TransferJob
poll_slow l [] = (l, none)
poll_slow l (job ∷ rest) = (record l { slow = rest }, some job)

abbrev pub poll_lanes : Lanes → List TransferJob → Lanes × Option TransferJob
poll_lanes l [] = poll_slow l l.slow
poll_lanes l (job ∷ rest) = (record l { fast = rest }, some job)

-- The head of the fast lane, or else of the slow one.
abbrev pub poll : Lanes → Lanes × Option TransferJob
poll l = poll_lanes l l.fast

abbrev pub close : Lanes → Lanes
close l = record l { closed = true }

abbrev pub lanes : (fast slow : List TransferJob) (closed : Bool) → ℕ → Lanes
lanes fast slow closed capacity = record {
  fast = fast;
  slow = slow;
  closed = closed;
  capacity = capacity;
}

-- What a waiting consumer is told: the job; or that there is none, once closed; or to wait.
abbrev pub wait_answer : Bool → Option TransferJob → Option (Option TransferJob)
wait_answer closed (some job) = some (some job)
wait_answer true none = some none
wait_answer false none = none
