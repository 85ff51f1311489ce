-- ===== src/Tests/Tracker.antt =====
-- The allocation tracker, after an allocation, its release and another allocation.
use ghost_pages.Common.{nat_ord, ◌≡◌, refl, arith, none}
use ghost_pages.Common.BTreeMap.{get, insert}
use ghost_pages.Common.BTreeMap.Counting.{sum}
use ghost_pages.Tier.Tracker.{AllocationTracker, new, record_allocation, record_free, current_usage}
use ghost_pages.Tier.Tracker.Usage.{live_bytes, Uses, fresh, allocates, frees, Uses-current_usage}

abbrev first : AllocationTracker
first = record_allocation 5 new 1 100

abbrev second : AllocationTracker
second = record_free 6 first 1

abbrev third : AllocationTracker
third = record_allocation 7 second 2 100

in_use : Uses third
unfolding new record_allocation record_free get insert
in_use =
    allocates second 7 2 100
      (frees first 6 1 (record { size = 100; allocated_at = 5; freed_at = none })
        (allocates new 5 1 100 fresh refl (omega arith)) refl refl)
      refl (omega arith)

Uses-current_usage_example :
    (current_usage third ≡ sum live_bytes third.allocations)
    × (third.peak_usage ≡ third.total_allocated)
Uses-current_usage_example = Uses-current_usage third in_use
