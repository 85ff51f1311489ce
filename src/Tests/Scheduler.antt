-- ===== src/Tests/Scheduler.antt =====
-- The scheduler under I/O pressure and with a congested disk.
use ghost_pages.Common.{ℕ, ◌≡◌, true, false, some}
use ghost_pages.Daemon.Queue.{Queue}
use ghost_pages.Daemon.Queue.Lanes.{poll, wait_answer}
use ghost_pages.Daemon.Queue.Refinement.{Represents}
use ghost_pages.Daemon.Scheduler.{SchedulerConfig, should_throttle, round}
use ghost_pages.Daemon.Scheduler.Rounds.{fate, expected, round-Represents}
use ghost_pages.Tests.Base.{fixed, pressure_at}
use ghost_pages.Tests.Queue.{queue, two_lanes, queue-Represents}

abbrev config : SchedulerConfig
config = record {
  max_concurrent_transfers = 8;
  priority_ordering = true;
  disk_aware_scheduling = true;
  disk_queue_threshold = 64;
}

round-Represents_example :
    let answer = wait_answer false (poll two_lanes).1 in
    (q' : Queue ℕ) × (round fixed config
        (some 80)
        (pressure_at 75)
        "pressure"
        "from"
        5
        6
        (λ j. true)
        queue
      ≡ some (
        q',
        expected
            (λ j. fate (should_throttle fixed config (some 80) j (pressure_at 75)) (λ x. true) j)
            answer,
      ))
    × Represents q' (poll two_lanes).0
round-Represents_example =
    round-Represents fixed config (some 80) (pressure_at 75) "pressure" "from" 5 6 (λ j. true) queue
      two_lanes queue-Represents
