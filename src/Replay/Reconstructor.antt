-- ===== src/Replay/Reconstructor.antt =====
-- crates/ghost-replay/src/state_reconstructor.rs: the state of the system, event by event. The order
-- of a `BTreeMap` is the order of the model's list, so `snapshot` is the machine itself.
pub mod Histories
use ghost_pages.Common.{
  ℕ, suc, ◌+◌, ◌%◌, ◌^◌, ◌<◌, Bool, true, false, not, ◌&&◌, ◌||◌, Option, none, some, List, [], ◌∷◌,
  ◌++◌, length, filter, all, if◌then◌else◌, ◌==◌, nat_ord,
}
use ghost_pages.Core.Types.{ChunkId, TierId, ram, gpu_vram, disk, simulation, tier_eqb}
use ghost_pages.Core.Pressure.{Float, PressureState}
use ghost_pages.Core.State.{
  ChunkState, allocated, stored, cached, migrating, evicted, failed, state_eqb, is_valid_transition,
  StateMachine, new, get_state, register, transition, forget,
}
use ghost_pages.Core.Trace.{
  TraceEvent, timestamp, chunk_created, chunk_deleted, chunk_state_changed, eviction,
  pressure_sample, pressure_alert, daemon_started,
}

pub record StateSnapshot (F : Type 0) : Type 0 where
  pub event_index : ℕ
  pub timestamp : ℕ
  pub event : TraceEvent F
  pub chunk_states : List (ChunkId × ChunkState)
  pub pressure : PressureState F
  pub total_allocated : ℕ
  pub total_stored : ℕ
  pub tier_counts : List (TierId × ℕ)

pub record StateReconstructor (F : Type 0) : Type 0 where
  pub state_machine : StateMachine
  pub pressure : PressureState F
  pub total_allocated : ℕ
  pub total_stored : ℕ
  pub tier_usage : List (TierId × ℕ)
  pub snapshots : List (StateSnapshot F)

-- `PressureState::new`.
unfoldable pub no_pressure : (fl : Float) → PressureState fl.F
no_pressure fl = record {
  memory_pressure = fl.of_ℕ 0;
  vram_pressure = fl.of_ℕ 0;
  io_pressure = fl.of_ℕ 0;
  queue_depth = 0;
  throughput_bps = 0;
}

-- `StateSnapshot::empty` and `StateReconstructor::new`.
unfoldable pub empty : (fl : Float) → StateSnapshot fl.F
unfolding no_pressure
empty fl = record {
  event_index = 0;
  timestamp = 0;
  event = daemon_started 0;
  chunk_states = [];
  pressure = no_pressure fl;
  total_allocated = 0;
  total_stored = 0;
  tier_counts = [];
}

unfoldable pub new_reconstructor : (fl : Float) → StateReconstructor fl.F
unfolding no_pressure
new_reconstructor fl = record {
  state_machine = new;
  pressure = no_pressure fl;
  total_allocated = 0;
  total_stored = 0;
  tier_usage = (ram, 0) ∷ (gpu_vram, 0) ∷ (disk, 0) ∷ (simulation, 0) ∷ [];
  snapshots = [];
}

unfoldable pub count_in_states : (ChunkState → Bool) → List (ChunkId × ChunkState) → ℕ
count_in_states p states = length (filter (λ e. p e.1) states)

-- The states that count as stored bytes, and those that count for the tier.
unfoldable pub is_held : ChunkState → Bool
is_held allocated = true
is_held stored = true
is_held cached = true
is_held migrating = true
is_held _ = false

unfoldable pub is_resident : ChunkState → Bool
is_resident s = state_eqb s stored || state_eqb s cached

unfoldable pub add_tier_usage : TierId → ℕ → List (TierId × ℕ) → List (TierId × ℕ)
add_tier_usage tier size [] = []
add_tier_usage tier size ((t, usage) ∷ rest) =
    if tier_eqb t tier
    then (t, (usage + size) % 2 ^ 64) ∷ rest
    else (t, usage) ∷ add_tier_usage tier size rest

-- All chunks that are there count for the RAM tier.
unfoldable pub build_tier_counts : StateMachine → List (TierId × ℕ)
unfolding count_in_states is_resident
build_tier_counts m =
    if count_in_states is_resident m == 0 then [] else (ram, count_in_states is_resident m) ∷ []

-- The part of the two transitions behind the look-up of the current state.
unfoldable pub follow :
    StateMachine → ChunkId → (from to : ChunkState) → Option ChunkState → StateMachine
follow m id from to none = m
follow m id from to (some current) =
    if state_eqb current from && is_valid_transition current to then (transition m id to).0 else m

unfoldable pub follow_eviction : StateMachine → ChunkId → Option ChunkState → StateMachine
follow_eviction m id none = m
follow_eviction m id (some current) =
    if is_valid_transition current evicted then (transition m id evicted).0 else m

-- The state machine after an event.
unfoldable pub update_machine : {F : Type 0} → StateMachine → TraceEvent F → StateMachine
unfolding follow follow_eviction
update_machine m (chunk_created id _ _ _) = (register m id).0
update_machine m (chunk_state_changed id from to _) = follow m id from to (get_state m id)
update_machine m (chunk_deleted id _ _) = (forget m id).0
update_machine m (eviction id _ _ _) = follow_eviction m id (get_state m id)
update_machine m _ = m

module _ (fl : Float) where
  open fl use {F}

  unfoldable pub update_pressure : PressureState F → TraceEvent F → PressureState F
  unfolding no_pressure
  update_pressure p (pressure_sample state _) = state
  update_pressure p (pressure_alert memory vram io _) = record (no_pressure fl) {
    memory_pressure = memory;
    vram_pressure = vram;
    io_pressure = io;
  }
  update_pressure p _ = p

  unfoldable pub update_totals : StateReconstructor F → TraceEvent F → StateReconstructor F
  update_totals r (chunk_created _ size tier _) = record r {
    total_allocated = (r.total_allocated + size) % 2 ^ 64;
    tier_usage = add_tier_usage tier size r.tier_usage;
  }
  update_totals r _ = r

  -- What a reconstructor in its new state shows of an event.
  unfoldable pub snapshot_of : ℕ → TraceEvent F → StateReconstructor F → StateSnapshot F
  snapshot_of index e r = record {
    event_index = index;
    timestamp = timestamp e;
    event = e;
    chunk_states = r.state_machine;
    pressure = r.pressure;
    total_allocated = r.total_allocated;
    total_stored = r.total_stored;
    tier_counts = build_tier_counts r.state_machine;
  }

  unfoldable pub process_event : StateReconstructor F → ℕ → TraceEvent F → StateReconstructor F
  process_event r index e =
      let m = update_machine r.state_machine e in
      let r' = record (update_totals r e) {
        state_machine = m;
        pressure = update_pressure r.pressure e;
        total_stored = count_in_states is_held m % 2 ^ 64;
      } in
      record r' { snapshots = r'.snapshots ++ snapshot_of index e r' ∷ [] }

  -- The loop of `process_events`, from an index on.
  unfoldable pub process_from :
      ℕ → StateReconstructor F → List (TraceEvent F) → StateReconstructor F
  process_from index r [] = r
  process_from index r (e ∷ es) = process_from (suc index) (process_event r index e) es

  unfoldable pub process_events : StateReconstructor F → List (TraceEvent F) → StateReconstructor F
  process_events r es = process_from 0 r es

-- `StateSnapshot::is_consistent`, `chunk_state`, `count_in_state` and `same_decisions`.
unfoldable pub is_consistent : {F : Type 0} → StateSnapshot F → Bool
unfolding count_in_states
is_consistent s =
    all
      (λ e.
        not (state_eqb e.1 failed && not (count_in_states (state_eqb stored) s.chunk_states == 0)))
      s.chunk_states

unfoldable pub states_eqb : List (ChunkId × ChunkState) → List (ChunkId × ChunkState) → Bool
states_eqb [] [] = true
states_eqb ((i, s) ∷ xs) ((j, t) ∷ ys) = i == j && state_eqb s t && states_eqb xs ys
states_eqb _ _ = false

unfoldable pub same_decisions : {F : Type 0} → StateSnapshot F → StateSnapshot F → Bool
same_decisions s other =
    states_eqb s.chunk_states other.chunk_states
    && s.total_allocated == other.total_allocated
    && s.total_stored == other.total_stored

-- `compare`: the indices at which two reconstructions differ. `apart` says that two numbers differ
-- by more than the floating-point tolerance.
module _ {F : Type 0} (apart : F → F → Bool) where
  unfoldable pub differs : StateSnapshot F → StateSnapshot F → Bool
  differs a b =
      not (states_eqb a.chunk_states b.chunk_states)
      || apart a.pressure.memory_pressure b.pressure.memory_pressure
      || apart a.pressure.vram_pressure b.pressure.vram_pressure
      || apart a.pressure.io_pressure b.pressure.io_pressure
      || not (a.total_allocated == b.total_allocated)
      || not (a.total_stored == b.total_stored)

  unfoldable pub compare_from : ℕ → List (StateSnapshot F) → List (StateSnapshot F) → List ℕ
  compare_from i [] bs = []
  compare_from i (a ∷ others) [] = []
  compare_from i (a ∷ others) (b ∷ bs) =
      let later = compare_from (suc i) others bs in if differs a b then i ∷ later else later

  unfoldable pub compare_snapshots : List (StateSnapshot F) → List (StateSnapshot F) → List ℕ
  unfolding compare_from differs
  compare_snapshots a b = compare_from 0 a b
