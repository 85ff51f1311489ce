-- ===== src/Daemon/Migration.antt =====
-- crates/ghost-daemon/src/migration.rs: the eviction cooldown, and the engine's record of active
-- and finished migrations. The readings of the wall clock (`current_timestamp`, in milliseconds)
-- are arguments; each lock is taken and released within one call.
pub mod Cooldown
pub mod Marks
pub mod Decision
pub mod Cycle
use ghost_pages.Common.{
  ℕ, ◌+◌, ◌-◌, ◌*◌, ◌%◌, ◌^◌, max, Bool, true, false, ◌&&◌, ◌||◌, not, List, [], ◌∷◌, Option, none,
  some, length, ltb, leb, ◌==◌, if◌then◌else◌, nat_ord,
}
use ghost_pages.Common.BTreeMap.{BTreeMap, get, insert, remove, contains_key}
use ghost_pages.Core.Types.{ChunkId, TierId}
use ghost_pages.Core.Pressure.{Float, PhysicalCost, is_too_pressured, cost_score}
use ghost_pages.Core.Transfer.{TransferPriority, TransferJob, new_job}
use ghost_pages.Daemon.Backpressure.{BackpressureAction, allows}

pub record MigrationConfig (F32 F64 : Type 0) : Type 0 where
  pub max_concurrent_migrations : ℕ
  pub hot_threshold : F32
  pub cold_threshold : F32
  pub min_migration_interval_secs : ℕ
  pub max_migrations_per_cycle : ℕ
  pub enable_promotion : Bool
  pub enable_eviction : Bool
  pub eviction_pressure_threshold : F32
  pub max_chunk_size_for_migration : ℕ
  pub migration_timeout_secs : ℕ
  pub io_cost_threshold : F64

pub record MigrationStats : Type 0 where
  pub evaluation_cycles : ℕ
  pub promotions : ℕ
  pub evictions : ℕ
  pub skipped : ℕ
  pub failures : ℕ
  pub bytes_migrated : ℕ
  pub last_evaluation : ℕ
  pub active_migrations : ℕ
  pub cooldown_blocks : ℕ
  pub anti_oscillation_blocks : ℕ

pub record PendingMigration (F32 : Type 0) : Type 0 where
  pub chunk_id : ChunkId
  pub from_tier : TierId
  pub to_tier : TierId
  pub priority : TransferPriority
  pub size : ℕ
  pub hotness_score : F32
  pub identified_at : ℕ

pub record EvictionCooldown : Type 0 where
  pub last_eviction : BTreeMap ChunkId ℕ
  pub last_promotion : BTreeMap ChunkId ℕ
  pub cooldown_us : ℕ

unfoldable pub new_cooldown : ℕ → EvictionCooldown
new_cooldown cooldown_secs = record {
  last_eviction = [];
  last_promotion = [];
  cooldown_us = cooldown_secs * 1_000_000 % 2 ^ 64;
}

-- `now_us.saturating_sub(last) < cooldown_us`, when there is a last time.
unfoldable pub recent : ℕ → ℕ → Option ℕ → Bool
recent cooldown now none = false
recent cooldown now (some last) = ltb (now - last) cooldown

unfoldable pub can_evict : EvictionCooldown → ChunkId → ℕ → Bool
unfolding recent
can_evict c id now =
    if recent c.cooldown_us now (get id c.last_eviction)
    then false
    else if recent c.cooldown_us now (get id c.last_promotion)
    then false
    else true

unfoldable pub record_eviction : EvictionCooldown → ChunkId → ℕ → EvictionCooldown
record_eviction c id now = record c { last_eviction = insert id now c.last_eviction }

unfoldable pub record_promotion : EvictionCooldown → ChunkId → ℕ → EvictionCooldown
record_promotion c id now = record c { last_promotion = insert id now c.last_promotion }

-- A `BTreeSet` is a map to the unit type.
pub record MigrationEngine : Type 0 where
  pub stats : MigrationStats
  pub active_migrations : BTreeMap ChunkId (Unit {0})
  pub last_migration : BTreeMap ChunkId ℕ
  pub eviction_cooldown : EvictionCooldown

abbrev pub no_stats : MigrationStats
no_stats = record {
  evaluation_cycles = 0;
  promotions = 0;
  evictions = 0;
  skipped = 0;
  failures = 0;
  bytes_migrated = 0;
  last_evaluation = 0;
  active_migrations = 0;
  cooldown_blocks = 0;
  anti_oscillation_blocks = 0;
}

unfoldable pub new_engine : {F32 F64 : Type 0} → MigrationConfig F32 F64 → MigrationEngine
unfolding new_cooldown
new_engine cfg = record {
  stats = no_stats;
  active_migrations = [];
  last_migration = [];
  eviction_cooldown = new_cooldown (max cfg.min_migration_interval_secs 5);
}

unfoldable pub mark_active : MigrationEngine → ChunkId → MigrationEngine
mark_active e id =
    let active = insert id tt e.active_migrations in
    record e {
      active_migrations = active;
      stats = record e.stats { active_migrations = length active };
    }

unfoldable pub count_result : Bool → ℕ → MigrationStats → MigrationStats
count_result true bytes s = record s {
  promotions = (s.promotions + 1) % 2 ^ 64;
  bytes_migrated = (s.bytes_migrated + bytes) % 2 ^ 64;
}
count_result false bytes s = record s { failures = (s.failures + 1) % 2 ^ 64 }

-- The clock is read twice: for the rate limit, and for the cooldown of a success.
unfoldable pub mark_complete :
    (now now' : ℕ) → MigrationEngine → ChunkId → ℕ → Bool → MigrationEngine
unfolding count_result record_promotion
mark_complete now now' e id bytes success =
    let active = remove id e.active_migrations in
    record {
      stats = count_result success bytes (record e.stats { active_migrations = length active });
      active_migrations = active;
      last_migration = insert id now e.last_migration;
      eviction_cooldown =
          if success then record_promotion e.eviction_cooldown id now' else e.eviction_cooldown;
    }

unfoldable pub is_migrating : MigrationEngine → ChunkId → Bool
unfolding contains_key
is_migrating e id = contains_key id e.active_migrations

unfoldable pub active_count : MigrationEngine → ℕ
active_count e = length e.active_migrations

unfoldable pub has_capacity : {F32 F64 : Type 0} → MigrationConfig F32 F64 → MigrationEngine → Bool
unfolding active_count
has_capacity cfg e = ltb (active_count e) cfg.max_concurrent_migrations

unfoldable pub create_transfer_job :
    {F32 : Type 0} (now now_secs : ℕ) → PendingMigration F32 → TransferJob
unfolding new_job
create_transfer_job now now_secs m =
    new_job now now_secs m.chunk_id m.from_tier m.to_tier m.size m.priority

-- The event that a decision emits, with its reason.
pub data DecisionEvent : Type 0 where
  rejected deferred_pressure deferred_cost deferred_capacity decided : DecisionEvent

module _ (f32 f64 : Float) (widen : f32.F → f64.F) where
  unfoldable pub decide_migration :
      MigrationConfig f32.F f64.F
      → MigrationEngine
      → PendingMigration f32.F
      → PhysicalCost f32.F f64.F
      → BackpressureAction
      → DecisionEvent × Option (PendingMigration f32.F)
  unfolding has_capacity
  decide_migration cfg e m cost action =
      if not (allows action m.priority)
      then (rejected, none)
      else if is_too_pressured f32 cost
      then (deferred_pressure, none)
      else if f64.flt cfg.io_cost_threshold (cost_score f64 widen cost)
      then (deferred_cost, none)
      else if not (has_capacity cfg e)
      then (deferred_capacity, none)
      else (decided, some m)
