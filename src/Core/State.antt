-- ===== src/Core/State.antt =====
-- crates/ghost-core/src/state.rs: the life cycle of a chunk and the tracker of all chunks. The
-- model is that of a release build, where an invalid transition is an error and no panic.
pub mod Lifecycle
pub mod Tracking
use ghost_pages.Common.{
  ℕ, Bool, true, false, Option, none, some, List, [], ◌∷◌, map, length, filter, if◌then◌else◌, ◌==◌,
  nat_ord,
}
use ghost_pages.Common.BTreeMap.{BTreeMap, get, insert, remove, contains_key}
use ghost_pages.Core.Types.{
  ChunkId, internal, invalid_state_transition, Result, ok, err, GhostResult,
}

pub data ChunkState : Type 0 where
  allocated stored cached migrating evicted failed : ChunkState

abbrev pub state_eqb : ChunkState → ChunkState → Bool
state_eqb allocated allocated = true
state_eqb stored stored = true
state_eqb cached cached = true
state_eqb migrating migrating = true
state_eqb evicted evicted = true
state_eqb failed failed = true
state_eqb _ _ = false

unfoldable pub is_valid_transition : ChunkState → ChunkState → Bool
is_valid_transition allocated stored = true
is_valid_transition stored cached = true
is_valid_transition stored migrating = true
is_valid_transition cached migrating = true
is_valid_transition cached stored = true
is_valid_transition migrating stored = true
is_valid_transition migrating failed = true
is_valid_transition migrating evicted = true
is_valid_transition failed stored = true
is_valid_transition failed evicted = true
is_valid_transition stored evicted = true
is_valid_transition _ _ = false

unfoldable pub transition_to : ChunkState → ChunkState → GhostResult ChunkState
transition_to s next = if is_valid_transition s next then ok next else err invalid_state_transition

unfoldable pub is_terminal : ChunkState → Bool
is_terminal evicted = true
is_terminal _ = false

unfoldable pub is_readable : ChunkState → Bool
is_readable stored = true
is_readable cached = true
is_readable _ = false

unfoldable pub is_migrating : ChunkState → Bool
is_migrating migrating = true
is_migrating _ = false

-- The field `states` is the whole struct.
abbrev pub StateMachine : Type 0
StateMachine = BTreeMap ChunkId ChunkState

abbrev pub new : StateMachine
new = []

unfoldable pub get_state : StateMachine → ChunkId → Option ChunkState
get_state m id = get id m

-- A `&mut self` method that returns a result gives both the new machine and the result.
unfoldable pub register : StateMachine → ChunkId → StateMachine × GhostResult (Unit {0})
register m id = if contains_key id m then (m, err internal) else (insert id allocated m, ok tt)

-- The part of `transition` behind the look-up of the current state.
unfoldable pub transition_from :
    StateMachine → ChunkId → ChunkState → ChunkState → StateMachine × GhostResult ChunkState
transition_from m id current next = elim (transition_to current next) [
  | err e ↦ (m, err e)
  | ok _ ↦ (insert id next m, ok next)
]

unfoldable pub transition :
    StateMachine → ChunkId → ChunkState → StateMachine × GhostResult ChunkState
transition m id next = elim (get id m) [
  | none ↦ (m, err internal)
  | some current ↦ transition_from m id current next
]

-- `StateMachine::remove`: the machine without the chunk, and the state that it had.
unfoldable pub forget : StateMachine → ChunkId → StateMachine × Option ChunkState
forget m id = (remove id m, get id m)

unfoldable pub len : StateMachine → ℕ
len m = length m

unfoldable pub is_empty : StateMachine → Bool
is_empty m = length m == 0

unfoldable pub chunks_in_state : StateMachine → ChunkState → List ChunkId
chunks_in_state m s = map (λ e. e.0) (filter (λ e. state_eqb e.1 s) m)

-- The calls that change the machine, and what one of them leaves behind.
pub data Call : Type 0 where
  registers : ChunkId → Call
  transitions : ChunkId → ChunkState → Call
  removes : ChunkId → Call

unfoldable pub apply : StateMachine → Call → StateMachine
apply m (registers id) = (register m id).0
apply m (transitions id next) = (transition m id next).0
apply m (removes id) = (forget m id).0

unfoldable pub run : StateMachine → List Call → StateMachine
run m [] = m
run m (c ∷ cs) = run (apply m c) cs
