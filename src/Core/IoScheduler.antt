-- ===== src/Core/IoScheduler.antt =====
-- crates/ghost-core/src/io_abstraction.rs: the I/O scheduler, which separates the issue of a
-- request from its completion. `Instant` is a number of nanoseconds and each reading of the clock
-- an argument; `emitted` lists what is handed to the event emitter. A panic is `none`.
pub mod Accounts
pub mod Histories
use Prim.Native.String.{String}
use ghost_pages.Common.{
  ℕ, ◌+◌, ◌-◌, ◌%◌, ◌^◌, Bool, true, false, List, [], ◌∷◌, ◌++◌, map, Option, none, some, length,
  leb, if◌then◌else◌, nat_ord,
}
use ghost_pages.Common.BTreeMap.{BTreeMap, get, insert, remove}
use ghost_pages.Common.BTreeMap.Sorted.{keys, remove_each}
use ghost_pages.Core.Types.{ChunkId, TierId, simulation, GhostResult, Result, ok, err, internal}

pub data IoOperation : Type 0 where
  read write delete flush_op : IoOperation

pub data IoCompletion : Type 0 where
  pending : IoCompletion
  completed : (duration_ticks : ℕ) → IoCompletion
  failed : (error : String) → IoCompletion

pub record IoRequest : Type 0 where
  pub id : ℕ
  pub operation : IoOperation
  pub chunk_id : ChunkId
  pub tier : TierId
  pub issued_at : ℕ
  pub completion : IoCompletion

pub data IoEvent : Type 0 where
  request_issued : IoOperation → ChunkId → TierId → IoEvent
  request_completed : IoOperation → ChunkId → TierId → (duration_ticks : ℕ) → IoEvent
  request_failed : IoOperation → ChunkId → TierId → (error : String) → IoEvent
  flush_issued : TierId → IoEvent
  flush_completed : TierId → (duration_ticks : ℕ) → IoEvent

pub record IoScheduler : Type 0 where
  pub next_id : ℕ
  pub pending : BTreeMap ℕ IoRequest
  pub completed : List IoRequest
  pub max_pending : ℕ
  pub emitted : List IoEvent

unfoldable pub new : ℕ → IoScheduler
new max_pending = record {
  next_id = 1;
  pending = [];
  completed = [];
  max_pending = max_pending;
  emitted = [];
}

unfoldable pub is_at_capacity : IoScheduler → Bool
is_at_capacity s = leb s.max_pending (length s.pending)

abbrev pub new_request : (now id : ℕ) → IoOperation → ChunkId → TierId → IoRequest
new_request now id operation chunk_id tier = record {
  id = id;
  operation = operation;
  chunk_id = chunk_id;
  tier = tier;
  issued_at = now;
  completion = pending;
}

unfoldable pub issue :
    (now : ℕ) → IoScheduler → IoOperation → ChunkId → TierId → IoScheduler × GhostResult ℕ
issue now s operation chunk_id tier =
    if leb s.max_pending (length s.pending) then (s, err internal) else (
      record s {
        next_id = (s.next_id + 1) % 2 ^ 64;
        pending = insert s.next_id (new_request now s.next_id operation chunk_id tier) s.pending;
        emitted = s.emitted ++ request_issued operation chunk_id tier ∷ [];
      },
      ok s.next_id,
    )

-- `duration_since` saturates at zero, and its nanoseconds are cast to 64 bits.
unfoldable pub duration_ticks : ℕ → ℕ → ℕ
duration_ticks now issued_at = (now - issued_at) % 2 ^ 64

unfoldable pub resolution : ℕ → Result String (Unit {0}) → IoRequest → IoCompletion
unfolding duration_ticks
resolution now (ok _) r = completed (duration_ticks now r.issued_at)
resolution now (err error) r = failed error

unfoldable pub resolved : ℕ → Result String (Unit {0}) → IoRequest → IoRequest
unfolding resolution
resolved now result r = record r { completion = resolution now result r }

unfoldable pub resolution_event : ℕ → Result String (Unit {0}) → IoRequest → IoEvent
unfolding duration_ticks
resolution_event now (ok _) r =
    request_completed r.operation r.chunk_id r.tier (duration_ticks now r.issued_at)
resolution_event now (err error) r = request_failed r.operation r.chunk_id r.tier error

unfoldable pub complete :
    (now : ℕ) → IoScheduler → ℕ → Result String (Unit {0}) → Option IoScheduler
unfolding resolved resolution_event
complete now s id result = elim (get id s.pending) [
  | none ↦ none
  | some r ↦ some (record s {
    pending = remove id s.pending;
    completed = s.completed ++ resolved now result r ∷ [];
    emitted = s.emitted ++ resolution_event now result r ∷ [];
  })
]

-- The second reading of the clock is that of `now.elapsed()`.
unfoldable pub flush : (now now' : ℕ) → IoScheduler → IoScheduler
unfolding resolved resolution_event duration_ticks
flush now now' s =
    let (rest, requests) = remove_each (keys s.pending) s.pending in
    record s {
      pending = rest;
      completed = s.completed ++ map (resolved now (ok tt)) requests;
      emitted =
          s.emitted
          ++ flush_issued simulation ∷ map (resolution_event now (ok tt)) requests
          ++ flush_completed simulation (duration_ticks now' now) ∷ [];
    }

unfoldable pub pending_count : IoScheduler → ℕ
pending_count s = length s.pending

unfoldable pub completed_count : IoScheduler → ℕ
completed_count s = length s.completed

-- The calls that change the scheduler.
pub data Call : Type 0 where
  issues : (now : ℕ) → IoOperation → ChunkId → TierId → Call
  completes : (now : ℕ) → ℕ → Result String (Unit {0}) → Call
  flushes : (now now' : ℕ) → Call

unfoldable pub step : IoScheduler → Call → Option IoScheduler
step s (issues now operation chunk_id tier) = some (issue now s operation chunk_id tier).0
step s (completes now id result) = complete now s id result
step s (flushes now now') = some (flush now now' s)

unfoldable pub run : IoScheduler → List Call → Option IoScheduler
run s [] = some s
run s (c ∷ cs) = elim (step s c) [ none ↦ none | some s' ↦ run s' cs ]
