-- ===== src/Tier/Tracker.antt =====
-- crates/ghost-tier/src/tracker.rs: the allocation tracker, in a release build. The calls are taken
-- one at a time, so that the loop around the peak is one comparison. The backtraces are left out.
pub mod Usage
use ghost_pages.Common.{
  ℕ, ◌+◌, ◌-◌, ◌%◌, ◌^◌, Bool, true, false, [], List, map, Option, none, some, length, filter, ltb,
  if◌then◌else◌, nat_ord,
}
use ghost_pages.Common.BTreeMap.{BTreeMap, get, insert}
use ghost_pages.Core.Types.{ChunkId}

pub record AllocationInfo : Type 0 where
  pub size : ℕ
  pub allocated_at : ℕ
  pub freed_at : Option ℕ

pub record AllocationTracker : Type 0 where
  pub allocations : BTreeMap ChunkId AllocationInfo
  pub total_allocated : ℕ
  pub total_freed : ℕ
  pub peak_usage : ℕ

unfoldable pub new : AllocationTracker
new = record { allocations = []; total_allocated = 0; total_freed = 0; peak_usage = 0 }

unfoldable pub record_allocation : (now : ℕ) → AllocationTracker → ChunkId → ℕ → AllocationTracker
record_allocation now t id size =
    let total = (t.total_allocated + size) % 2 ^ 64 in
    record {
      allocations =
          insert id (record { size = size; allocated_at = now; freed_at = none }) t.allocations;
      total_allocated = total;
      total_freed = t.total_freed;
      peak_usage = if ltb t.peak_usage total then total else t.peak_usage;
    }

unfoldable pub record_free : (now : ℕ) → AllocationTracker → ChunkId → AllocationTracker
record_free now t id = elim (get id t.allocations) [
  | none ↦ t
  | some info ↦ record t {
    allocations = insert id (record info { freed_at = some now }) t.allocations;
    total_freed = (t.total_freed + info.size) % 2 ^ 64;
  }
]

unfoldable pub current_usage : AllocationTracker → ℕ
current_usage t = t.total_allocated - t.total_freed

unfoldable pub is_live : AllocationInfo → Bool
is_live info = elim info.freed_at [ none ↦ true | some _ ↦ false ]

unfoldable pub leaked_allocations : AllocationTracker → List ChunkId
unfolding is_live
leaked_allocations t = map (λ e. e.0) (filter (λ e. is_live e.1) t.allocations)

unfoldable pub total_allocation_count : AllocationTracker → ℕ
total_allocation_count t = length t.allocations

unfoldable pub live_allocation_count : AllocationTracker → ℕ
unfolding is_live
live_allocation_count t = length (filter (λ e. is_live e.1) t.allocations)

unfoldable pub reset : AllocationTracker → AllocationTracker
reset t = record { allocations = []; total_allocated = 0; total_freed = 0; peak_usage = 0 }
