-- ===== src/Tests/Queue.antt =====
-- The transfer queue, with one job in each lane.
use ghost_pages.Common.{ℕ, ◌≡◌, ◌≤◌, refl, [], ◌∷◌, ◌++◌, some, false, List, length, arith}
use mathlib.Core.List.{Perm}
use ghost_pages.Core.Transfer.{normal, high, low, critical}
use ghost_pages.Daemon.Queue.{Queue, jumps}
use ghost_pages.Daemon.Queue.Lanes.{Lanes, lanes}
use ghost_pages.Daemon.Queue.Refinement.{Represents}
use ghost_pages.Daemon.Queue.Histories.{
  Call, submits, dequeues, shuts_down, Reply, run, run_lanes, accepted, delivered, run-refines,
  run-conserves,
}
use ghost_pages.Tests.Base.{job, short_log}

abbrev pub queue : Queue ℕ
queue = record {
  jobs = job 1 high ∷ job 2 normal ∷ [];
  current_depth = 2;
  is_shutdown = false;
  capacity = 3;
  trace_log = short_log;
}

abbrev pub two_lanes : Lanes
two_lanes = lanes (job 1 high ∷ []) (job 2 normal ∷ []) false 3

pub queue-Represents : Represents queue two_lanes
unfolding jumps
queue-Represents = record {
  order = refl;
  fast = (refl, tt);
  slow = (refl, tt);
  counted = refl;
  fits = omega arith;
  word = omega arith;
  same_capacity = refl;
  same_closed = refl;
  log = record { positive = omega arith; bounded = omega arith };
}

abbrev history : List Call
history =
    submits 9 (job 3 low)
    ∷ submits 9 (job 4 high)
    ∷ dequeues
    ∷ submits 9 (job 5 critical)
    ∷ shuts_down
    ∷ dequeues
    ∷ []

run-refines_example :
    (q' : Queue ℕ) × (run queue history ≡ some (q', (run_lanes two_lanes history).1))
    × Represents q' (run_lanes two_lanes history).0
run-refines_example = run-refines queue two_lanes history queue-Represents

run-conserves_example :
    (q' : Queue ℕ) × (rs : List Reply) × (run queue history ≡ some (q', rs))
    × Perm (queue.jobs ++ accepted history rs) (delivered rs ++ q'.jobs)
    × (q'.current_depth ≡ length q'.jobs)
    × (q'.current_depth ≤ q'.capacity)
run-conserves_example = run-conserves queue two_lanes history queue-Represents
