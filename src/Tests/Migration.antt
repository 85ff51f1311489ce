-- ===== src/Tests/Migration.antt =====
-- Migration, with one chunk on the move and one that was moved before.
use ghost_pages.Common.{
  leb, ◌-◌, ℕ, ◌≡◌, ◌↔◌, true, false, List, [], ◌∷◌, ◌++◌, All, Option, none, some, length, min,
  if◌then◌else◌, ◌==◌, nat_ord,
}
use mathlib.Core.List.{Perm}
use ghost_pages.Common.BTreeMap.{get}
use ghost_pages.Core.Types.{ram, disk}
use ghost_pages.Core.State.{StateMachine, stored, migrating, chunks_in_state}
use ghost_pages.Core.Transfer.{high}
use ghost_pages.Core.Meta.{ChunkHotness}
use ghost_pages.Daemon.Migration.{
  recent, MigrationConfig, PendingMigration, EvictionCooldown, MigrationEngine, no_stats, can_evict,
  mark_complete,
}
use ghost_pages.Daemon.Migration.Cooldown.{mark_complete-can_evict}
use ghost_pages.Daemon.Migration.{decide_migration, decided, rejected}
use ghost_pages.Core.Pressure.{PhysicalCost}
use ghost_pages.Daemon.Backpressure.{throttle, allows}
use ghost_pages.Daemon.Migration.Decision.{Admissible, decide_migration_iff}
use ghost_pages.Daemon.Migration.Marks.{Mark, activates, completes}
use ghost_pages.Daemon.Migration.Cycle.{PlacementPolicy, decisions, evaluate}
use ghost_pages.Daemon.Migration.Cycle.Sorting.{Ranked}
use ghost_pages.Daemon.Migration.Cycle.Selection.{Justified, evaluate-selects, decisions-Justified}
use ghost_pages.Tests.Base.{fixed, pressure_at}

abbrev config : MigrationConfig ℕ ℕ
config = record {
  max_concurrent_migrations = 2;
  hot_threshold = 60;
  cold_threshold = 20;
  min_migration_interval_secs = 10;
  max_migrations_per_cycle = 1;
  enable_promotion = true;
  enable_eviction = true;
  eviction_pressure_threshold = 80;
  max_chunk_size_for_migration = 1_000;
  migration_timeout_secs = 30;
  io_cost_threshold = 2_000;
}

abbrev cooldown : EvictionCooldown
cooldown = record { last_eviction = []; last_promotion = (4, 100) ∷ []; cooldown_us = 50 }

abbrev engine : MigrationEngine
engine = record {
  stats = record no_stats { active_migrations = 1 };
  active_migrations = (3, tt) ∷ [];
  last_migration = (4, 100) ∷ [];
  eviction_cooldown = cooldown;
}

mark_complete-can_evict_example :
    (can_evict (mark_complete 99 100 engine 3 7 true).eviction_cooldown 3 120 ≡ (
      if 3 == 3
      then (if recent 50 120 (get 3 cooldown.last_eviction) then false else leb 50 (120 - 100))
      else can_evict cooldown 3 120))
    × (can_evict (mark_complete 99 100 engine 3 7 false).eviction_cooldown 3 120
        ≡ can_evict cooldown 3 120)
mark_complete-can_evict_example = mark_complete-can_evict 99 100 engine 3 3 7 120

abbrev marks : List Mark
marks = activates 5 ∷ completes 99 100 5 7 true ∷ completes 101 102 3 9 false ∷ []

abbrev pending : PendingMigration ℕ
pending = record {
  chunk_id = 1;
  from_tier = ram;
  to_tier = disk;
  priority = high;
  size = 10;
  hotness_score = 5;
  identified_at = 90;
}

abbrev cost : PhysicalCost ℕ ℕ
cost = record {
  latency_ms = 100;
  bandwidth_bps = 200;
  reliability = 100;
  io_pressure = 20;
  queue_depth = 3;
}

decide_migration_iff_example :
    let r = decide_migration fixed fixed (λ x. x) config engine pending cost throttle in
    ((r.1 ≡ some pending) ↔ Admissible fixed fixed (λ x. x) config engine high cost throttle)
    × ((r.0 ≡ decided) ↔ Admissible fixed fixed (λ x. x) config engine high cost throttle)
    × ((r.0 ≡ rejected) ↔ (allows throttle high ≡ false))
decide_migration_iff_example =
    decide_migration_iff fixed fixed (λ x. x) config engine pending cost throttle

abbrev policy : PlacementPolicy ℕ
policy = record { should_migrate = λ meta tier p. some disk; migration_priority = λ meta p. high }

abbrev unknown : ℕ → Option (ChunkHotness ℕ)
unknown id = none

abbrev machine : StateMachine
machine = (1, stored) ∷ (2, stored) ∷ (3, migrating) ∷ (4, stored) ∷ []

evaluate-selects_example :
    let r = evaluate fixed config policy unknown "pressure" (pressure_at 90) 105 machine engine in
    let found =
      decisions fixed config policy unknown
        (pressure_at 90)
        105
        engine
        (chunks_in_state machine stored) in
    (left : List (PendingMigration ℕ)) × Perm (r.migrations ++ left) found
    × Ranked (r.migrations ++ left)
    × (length r.migrations ≡ min 1 (length found))
evaluate-selects_example =
    evaluate-selects fixed config policy unknown "pressure" (pressure_at 90) 105 machine engine

decisions-Justified_example :
    All
      (Justified fixed config policy unknown (pressure_at 90) 105 engine)
      (decisions fixed config policy unknown (pressure_at 90) 105 engine (1 ∷ 3 ∷ 4 ∷ []))
decisions-Justified_example =
    decisions-Justified fixed config policy unknown (pressure_at 90) 105 engine (1 ∷ 3 ∷ 4 ∷ [])
