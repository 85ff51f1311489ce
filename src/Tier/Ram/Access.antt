-- ===== src/Tier/Ram/Access.antt =====
-- Reading what was written.
use ghost_pages.Common.{
  ℕ, zero, suc, ◌≤◌, ◌≡◌, ◌≢◌, refl, ap, min, List, [], ◌∷◌, length, drop, ltb, false, arith,
  nat_ord, ◌==◌, take_all,
}
use mathlib.Core.List.{append-nil}
use ghost_pages.Common.BTreeMap.{get-insert, get-insert_self}
use ghost_pages.Core.Types.{ok}
use ghost_pages.Tier.Backend.{Allocation}
use ghost_pages.Tier.Ram.{RamBackend, write, fill, read, verify_integrity}

drop_all : (xs : List ℕ) (n : ℕ) → length xs ≡ n → drop n xs ≡ []
drop_all [] zero h = refl
drop_all [] (suc n) h = refl
drop_all (x ∷ xs) zero h = absurd (omega arith)
drop_all (x ∷ xs) (suc n) h = drop_all xs n (omega arith)

pub fill-same : (buf xs : List ℕ) → length buf ≡ length xs → fill buf xs ≡ xs
unfolding fill
fill-same buf xs h =
    let k : min (length buf) (length xs) ≡ length xs = omega arith in
    rw (k, drop_all buf (length xs) h, take_all, append-nil) refl

-- Data that fit an allocation can be written to it, and are then read back in full by a buffer of
-- their length; their integrity is confirmed by their hash; and what any allocation at another
-- offset reads is unchanged.
pub write-read :
    (b : RamBackend) (a other : Allocation) (bytes buf buf' : List ℕ) (hash : List ℕ → ℕ)
    → length bytes ≤ a.size
    → length buf ≡ length bytes
    → a.offset ≢ other.offset
    → let r = write b a bytes in
      (r.1 ≡ ok tt)
      × (read r.0 a buf ≡ ok bytes)
      × (verify_integrity hash r.0 a (hash bytes) ≡ ok tt)
      × (read r.0 other buf' ≡ read b other buf')
unfolding write read verify_integrity
write-read b a other bytes buf buf' hash h k d =
    let fits : ltb a.size (length bytes) ≡ false = ground arith in
    let reads : ltb a.size (length buf) ≡ false = ground arith in
    let apart : (other.offset == a.offset) ≡ false = ground arith in
    (
      rw (fits, write),
      rw (fits, reads, write, read, get-insert_self) (ap ok (fill-same buf bytes k)),
      rw (fits, write, verify_integrity, get-insert_self) (ground arith),
      rw (fits, write, read, get-insert, apart) refl,
    )
