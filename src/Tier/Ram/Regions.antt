-- ===== src/Tier/Ram/Regions.antt =====
-- The regions that the RAM tier hands out, over every use of it.
use ghost_pages.Common.{
  ℕ, ◌+◌, ◌%◌, ◌^◌, ◌≤◌, ◌<◌, ◌≡◌, false, List, [], ◌∷◌, ◌++◌, All, ltb, ◌==◌, ◌⊎◌,
}
use ghost_pages.Core.Types.{err}
use ghost_pages.Tier.Backend.{Allocation, BackendError}
use ghost_pages.Tier.Ram.{RamBackend, new, allocate, deallocate, write}

-- A backend in use, with the allocations that are live, the latest first: those that were handed
-- out and not given back. A live allocation is given back once; anything may be written.
pub data Reaches (capacity : ℕ) : RamBackend → List Allocation → Type 0 where
  fresh : Reaches capacity (new capacity) []
  allocates :
      (b : RamBackend) (live : List Allocation) (size : ℕ)
      → Reaches capacity b live
      → b.next_offset + size < 2 ^ 64
      → (size == 0) ≡ false
      → ltb b.capacity ((b.used + size) % 2 ^ 64) ≡ false
      → Reaches capacity (allocate b size).0 (record { offset = b.next_offset; size = size } ∷ live)
  refuses :
      (b : RamBackend) (live : List Allocation) (size : ℕ) (e : BackendError)
      → Reaches capacity b live
      → (allocate b size).1 ≡ err e
      → Reaches capacity (allocate b size).0 live
  frees :
      (b : RamBackend) (before later : List Allocation) (a : Allocation)
      → Reaches capacity b (before ++ a ∷ later)
      → Reaches capacity (deallocate b a) (before ++ later)
  writes :
      (b : RamBackend) (live : List Allocation) (a : Allocation) (bytes : List ℕ)
      → Reaches capacity b live
      → Reaches capacity (write b a bytes).0 live

abbrev pub total : List Allocation → ℕ
total [] = 0
total (a ∷ rest) = a.size + total rest

-- Below `top`, each region ends before the one handed out after it begins.
abbrev Stacked : ℕ → List Allocation → Type 0
Stacked top [] = Unit {0}
Stacked top (a ∷ rest) = (0 < a.size) × (a.offset + a.size ≤ top) × Stacked a.offset rest

record IsConsistent (capacity : ℕ) (b : RamBackend) (live : List Allocation) : Type 0 where
  same : b.capacity ≡ capacity
  counted : b.used ≡ total live
  capped : b.used ≤ b.capacity
  stacked : Stacked b.next_offset live
  word : b.next_offset < 2 ^ 64

-- No two regions overlap, and none is empty.
abbrev pub Disjoint : List Allocation → Type 0
Disjoint [] = Unit {0}
Disjoint (a ∷ rest) =
    (0 < a.size)
    × All (λ x. (x.offset + x.size ≤ a.offset) ⊎ (a.offset + a.size ≤ x.offset)) rest
    × Disjoint rest
