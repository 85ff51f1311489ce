-- ===== src/Tests/Policy.antt =====
-- The placement policies, with two chunks that were not accessed for long.
use ghost_pages.Common.{
  ℕ, ◌-◌, ◌<◌, ◌≡◌, refl, ◌⊎◌, true, false, [], ◌∷◌, some, none, All, arith, nat_irrefl,
}
use ghost_pages.Core.Types.{ChunkId, ram, gpu_vram, disk, tier_eqb, tier_priority}
use ghost_pages.Core.State.{stored}
use ghost_pages.Core.Meta.{ChunkMeta, uncompressed}
use ghost_pages.Core.Pressure.{PressureState}
use ghost_pages.Daemon.Migration.{MigrationConfig, MigrationEngine, no_stats}
use ghost_pages.Daemon.Migration.Cycle.{minimal_meta, decisions}
use ghost_pages.Policy.Weights.{tier_pressure_score, best_tier, IsOrdered}
use ghost_pages.Policy.Lru.{LruConfig, is_hot, select_viction, lru_policy}
use ghost_pages.Policy.Lru.Victims.{IsVictim, select_viction-IsVictim}
use ghost_pages.Policy.Lru.Migrations.{decisions-cold}
use ghost_pages.Policy.PressureAware.{
  PressureAwareConfig, is_tier_critical, is_tier_pressured, lesser, select_among,
  select_target_tier, should_migrate,
}
use ghost_pages.Policy.PressureAware.Targets.{IsPlacement, select_target_tier-IsPlacement}
use ghost_pages.Policy.PressureAware.Migrations.{should_migrate-relieves}
use ghost_pages.Tests.Base.{fixed, pressure_at}

abbrev lru_config : LruConfig
lru_config = record {
  hotness_threshold_secs = 300;
  min_residence_secs = 60;
  preferred_tier = ram;
  fallback_tier = disk;
  current_time_secs = 1_000;
}

abbrev chunk : ℕ → ℕ → ChunkId × ChunkMeta
chunk id last_accessed = (
  id,
  record {
    id = id;
    size = 64;
    compressed_size = 0;
    tier = ram;
    state = stored;
    created_at = 10;
    last_accessed = last_accessed;
    access_count = 1;
    compression = uncompressed;
    checksum = 0;
  },
)

select_viction-IsVictim_example :
    (v : ChunkId × ChunkMeta) × (select_viction lru_config 0 (chunk 1 500 ∷ chunk 2 400 ∷ [])
      ≡ some v.0)
    × IsVictim lru_config 0 (chunk 1 500 ∷ chunk 2 400 ∷ []) v
select_viction-IsVictim_example =
    select_viction-IsVictim lru_config 0 (chunk 1 500) (chunk 2 400 ∷ [])

abbrev config : MigrationConfig ℕ ℕ
config = record {
  max_concurrent_migrations = 2;
  hot_threshold = 60;
  cold_threshold = 20;
  min_migration_interval_secs = 10;
  max_migrations_per_cycle = 1;
  enable_promotion = true;
  enable_eviction = true;
  eviction_pressure_threshold = 80;
  max_chunk_size_for_migration = 1_000;
  migration_timeout_secs = 30;
  io_cost_threshold = 2_000;
}

abbrev engine : MigrationEngine
engine = record {
  stats = no_stats;
  active_migrations = [];
  last_migration = [];
  eviction_cooldown = record { last_eviction = []; last_promotion = []; cooldown_us = 50 };
}

decisions-cold_example :
    All
      (λ m.
        (is_hot lru_config 0 (minimal_meta fixed m.chunk_id none) ≡ false)
        × (tier_priority ram < tier_priority m.to_tier))
      (decisions fixed config
        (lru_policy lru_config 0 fixed)
        (λ id. none)
        (pressure_at 50)
        1_000
        engine
        (7 ∷ 8 ∷ []))
decisions-cold_example =
    decisions-cold lru_config 0 fixed config (λ id. none) (pressure_at 50) 1_000 engine (7 ∷ 8 ∷ [])

ordered : IsOrdered fixed
ordered = record {
  irreflexive = nat_irrefl;
  asymmetric = λ x y h. ground arith;
  transitive = λ x y z h k. ground arith;
}

abbrev pressure_config : PressureAwareConfig ℕ
pressure_config = record {
  ram_high_watermark = 70;
  ram_critical_watermark = 90;
  vram_high_watermark = 70;
  vram_critical_watermark = 90;
  io_high_watermark = 70;
  io_critical_watermark = 90;
  critical_pressure = 90;
  high_pressure = 70;
  normal_pressure = 50;
  current_time_secs = 1_000;
}

abbrev strained : PressureState ℕ
strained = record {
  memory_pressure = 99;
  vram_pressure = 92;
  io_pressure = 90;
  queue_depth = 0;
  throughput_bps = 0;
}

-- All tiers are under critical pressure, and the most pressured one is chosen.
select_target_tier-strained :
    select_target_tier fixed pressure_config strained (ram ∷ gpu_vram ∷ disk ∷ []) ≡ ram
unfolding select_target_tier select_among is_tier_critical lesser tier_pressure_score
select_target_tier-strained = refl

select_target_tier-IsPlacement_example :
    IsPlacement fixed pressure_config strained ordered
      (ram ∷ gpu_vram ∷ disk ∷ [])
      (select_target_tier fixed pressure_config strained (ram ∷ gpu_vram ∷ disk ∷ []))
select_target_tier-IsPlacement_example =
    select_target_tier-IsPlacement fixed pressure_config strained ordered ram (gpu_vram ∷ disk ∷ [])

should_migrate-relieves_example :
    (tier_eqb gpu_vram ram ≡ false)
    × (((is_tier_critical fixed pressure_config ram (pressure_at 95) ≡ true)
          × (is_tier_critical fixed pressure_config gpu_vram (pressure_at 95) ≡ false))
        ⊎ ((is_tier_pressured fixed pressure_config ram (pressure_at 95) ≡ true)
            × (300 < 1_000 - 400)))
unfolding should_migrate best_tier tier_pressure_score
should_migrate-relieves_example =
    should_migrate-relieves fixed pressure_config (chunk 2 400).1 ram gpu_vram (pressure_at 95) refl
