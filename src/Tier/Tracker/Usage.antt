-- ===== src/Tier/Tracker/Usage.antt =====
-- What the totals of the tracker say.
use ghost_pages.Common.{ℕ, ◌+◌, ◌^◌, ◌<◌, ◌≡◌, refl, none, some, arith, nat_ord}
use ghost_pages.Common.BTreeMap.{get}
use ghost_pages.Common.BTreeMap.Sorted.{Sorted, insert-Sorted}
use ghost_pages.Common.BTreeMap.Counting.{sum, sum-insert_new, sum-insert_old}
use ghost_pages.Tier.Tracker.{
  AllocationInfo, AllocationTracker, new, record_allocation, record_free, current_usage, reset,
}

-- The bytes of an allocation that is not freed.
abbrev pub live_bytes : AllocationInfo → ℕ
live_bytes info = elim info.freed_at [ none ↦ info.size | some _ ↦ 0 ]

-- A tracker in use: an id is allocated once, and what is freed was allocated and not freed before.
pub data Uses : AllocationTracker → Type 0 where
  fresh : Uses new
  allocates :
      (t : AllocationTracker) (now id size : ℕ)
      → Uses t
      → get id t.allocations ≡ none
      → t.total_allocated + size < 2 ^ 64
      → Uses (record_allocation now t id size)
  frees :
      (t : AllocationTracker) (now id : ℕ) (info : AllocationInfo)
      → Uses t
      → get id t.allocations ≡ some info
      → info.freed_at ≡ none
      → Uses (record_free now t id)
  resets : (t : AllocationTracker) → Uses t → Uses (reset t)

record IsTotalled (t : AllocationTracker) : Type 0 where
  sorted : Sorted t.allocations
  balance : t.total_allocated ≡ sum live_bytes t.allocations + t.total_freed
  peak : t.peak_usage ≡ t.total_allocated
  word : t.total_allocated < 2 ^ 64

live_bytes-live : (info : AllocationInfo) → info.freed_at ≡ none → live_bytes info ≡ info.size
live_bytes-live info h = rw h refl

allocates-IsTotalled :
    (t : AllocationTracker) (now id size : ℕ)
    → IsTotalled t
    → get id t.allocations ≡ none
    → t.total_allocated + size < 2 ^ 64
    → IsTotalled (record_allocation now t id size)
unfolding record_allocation
allocates-IsTotalled t now id size v e h =
    let info : AllocationInfo = record { size = size; allocated_at = now; freed_at = none } in
    record {
      sorted = insert-Sorted id info t.allocations v.sorted;
      balance = omega (arith, v.balance, sum-insert_new live_bytes id info t.allocations e);
      peak = ground (arith, v.peak);
      word = omega arith;
    }

frees-IsTotalled :
    (t : AllocationTracker) (now id : ℕ) (info : AllocationInfo)
    → IsTotalled t
    → get id t.allocations ≡ some info
    → info.freed_at ≡ none
    → IsTotalled (record_free now t id)
unfolding record_free
frees-IsTotalled t now id info v e h =
    let freed : AllocationInfo = record info { freed_at = some now } in
    let s = sum-insert_old live_bytes id freed info t.allocations v.sorted e in
    let l = live_bytes-live info h in
    rw (e, record_free)
      (record {
        sorted = insert-Sorted id freed t.allocations v.sorted;
        balance = omega (arith, v.balance, v.word, s, l);
        peak = v.peak;
        word = v.word;
      })

Uses-IsTotalled : (t : AllocationTracker) → Uses t → IsTotalled t
unfolding new reset
Uses-IsTotalled _ fresh = record { sorted = tt; balance = refl; peak = refl; word = omega arith }
Uses-IsTotalled _ (allocates t now id size u e h) =
    allocates-IsTotalled t now id size (Uses-IsTotalled t u) e h
Uses-IsTotalled _ (frees t now id info u e h) =
    frees-IsTotalled t now id info (Uses-IsTotalled t u) e h
Uses-IsTotalled _ (resets t u) = record {
  sorted = tt;
  balance = refl;
  peak = refl;
  word = omega arith;
}

-- As long as each chunk is allocated once and freed at most once, and the total fits 64 bits, the
-- current usage is the sum of the sizes of the allocations that are not freed. The reported peak is
-- the total of all bytes allocated since the last reset, however many of them were freed in
-- between.
pub Uses-current_usage :
    (t : AllocationTracker)
    → Uses t
    → (current_usage t ≡ sum live_bytes t.allocations) × (t.peak_usage ≡ t.total_allocated)
unfolding current_usage
Uses-current_usage t u = let v = Uses-IsTotalled t u in (omega (arith, v.balance), v.peak)
