-- ===== src/Tier/Ram.antt =====
-- crates/ghost-tier/src/ram.rs: the RAM tier. A byte is a number, a buffer is a list, the word size
-- is 64 bits and arithmetic wraps, as in a release build. Each method holds its locks to its end, so
-- it is one step. The hash of `verify_integrity` is a parameter.
pub mod Access
pub mod Regions
use ghost_pages.Common.{
  ℕ, ◌+◌, ◌-◌, ◌%◌, ◌^◌, min, Bool, true, false, List, [], ◌∷◌, ◌++◌, Option, none, some, length,
  take, drop, ltb, ◌==◌, if◌then◌else◌, nat_ord,
}
use ghost_pages.Common.BTreeMap.{BTreeMap, get, insert, remove}
use ghost_pages.Core.Types.{Result, ok, err}
use ghost_pages.Tier.Backend.{
  StorageBackend, Allocation, BackendError, insufficient_space, allocation_not_found, write_failed,
  read_failed, integrity_failed, internal,
}

pub record RamBackend : Type 0 where
  pub capacity : ℕ
  pub storage : BTreeMap ℕ (List ℕ)
  pub next_offset : ℕ
  pub used : ℕ

unfoldable pub new : ℕ → RamBackend
new capacity = record { capacity = capacity; storage = []; next_offset = 0; used = 0 }

-- Subtraction of words.
abbrev pub minus : ℕ → ℕ → ℕ
minus a b = (a + 2 ^ 64 - b) % 2 ^ 64

unfoldable pub available : RamBackend → ℕ
available b = minus b.capacity b.used

unfoldable pub allocate : RamBackend → ℕ → RamBackend × Result BackendError Allocation
allocate b size =
    if size == 0
    then (b, err internal)
    else if ltb b.capacity ((b.used + size) % 2 ^ 64)
    then (b, err (insufficient_space size (minus b.capacity b.used)))
    else (
      record b { next_offset = (b.next_offset + size) % 2 ^ 64; used = (b.used + size) % 2 ^ 64 },
      ok (record { offset = b.next_offset; size = size }),
    )

-- `deallocate` always succeeds.
unfoldable pub deallocate : RamBackend → Allocation → RamBackend
deallocate b a = record b { storage = remove a.offset b.storage; used = minus b.used a.size }

unfoldable pub write :
    RamBackend → Allocation → List ℕ → RamBackend × Result BackendError (Unit {0})
write b a data_ =
    if ltb a.size (length data_)
    then (b, err write_failed)
    else (record b { storage = insert a.offset data_ b.storage }, ok tt)

-- `copy_from_slice` into the first bytes of the buffer.
unfoldable pub fill : List ℕ → List ℕ → List ℕ
fill buf data_ = let len = min (length buf) (length data_) in take len data_ ++ drop len buf

-- The buffer after the call.
unfoldable pub read : RamBackend → Allocation → List ℕ → Result BackendError (List ℕ)
unfolding fill
read b a buf = if ltb a.size (length buf) then err read_failed else elim (get a.offset b.storage) [
  | none ↦ err (allocation_not_found a.offset)
  | some data_ ↦ ok (fill buf data_)
]

unfoldable pub verify_integrity :
    (List ℕ → ℕ) → RamBackend → Allocation → ℕ → Result BackendError (Unit {0})
verify_integrity hash b a expected = elim (get a.offset b.storage) [
  | none ↦ err (allocation_not_found a.offset)
  | some data_ ↦ if hash data_ == expected then ok tt else err integrity_failed
]

-- `impl StorageBackend for RamBackend`.
unfoldable pub ram_operations : StorageBackend RamBackend
unfolding allocate deallocate write read
ram_operations = record {
  allocate = allocate;
  deallocate = λ b a. (deallocate b a, ok tt);
  write = write;
  read = λ b a buf. (b, read b a buf);
}
