-- ===== src/Policy/Lru.antt =====
-- crates/ghost-policy/src/lru.rs: the placement policy that evicts the least recently used chunk. The
-- wall clock, which stands in where no time is configured, is an argument.
pub mod Victims
pub mod Migrations
use ghost_pages.Common.{
  ℕ, ◌-◌, Bool, true, false, not, ◌&&◌, List, [], ◌∷◌, Option, none, some, filter, ltb, leb, ◌==◌,
  if◌then◌else◌,
}
use ghost_pages.Core.Types.{ChunkId, TierId, ram, gpu_vram, disk, tier_eqb}
use ghost_pages.Core.Meta.{ChunkMeta}
use ghost_pages.Core.Pressure.{Float, PressureState}
use ghost_pages.Core.Transfer.{TransferPriority, low, normal, high, critical}
use ghost_pages.Daemon.Migration.Cycle.{PlacementPolicy}
use ghost_pages.Policy.Choice.{reduce}
use ghost_pages.Policy.Weights.{best_tier}

pub record LruConfig : Type 0 where
  pub hotness_threshold_secs : ℕ
  pub min_residence_secs : ℕ
  pub preferred_tier : TierId
  pub fallback_tier : TierId
  pub current_time_secs : ℕ

-- `LruConfig::default`.
abbrev pub default_config : LruConfig
default_config = record {
  hotness_threshold_secs = 300;
  min_residence_secs = 60;
  preferred_tier = ram;
  fallback_tier = disk;
  current_time_secs = 0;
}

unfoldable pub contains : TierId → List TierId → Bool
contains t [] = false
contains t (u ∷ us) = let rest = contains t us in if tier_eqb t u then true else rest

-- `min_by_key` of the time of the last access: the first of the least.
unfoldable pub older : ChunkId × ChunkMeta → ChunkId × ChunkMeta → ChunkId × ChunkMeta
older c d = if ltb d.1.last_accessed c.1.last_accessed then d else c

unfoldable pub oldest : List (ChunkId × ChunkMeta) → Option ChunkId
unfolding older reduce
oldest [] = none
oldest (c ∷ cs) = some (reduce older c cs).0

module _ (cfg : LruConfig) (wall : ℕ) where
  unfoldable pub now_secs : ℕ
  now_secs = if not (cfg.current_time_secs == 0) then cfg.current_time_secs else wall

  unfoldable pub is_hot : ChunkMeta → Bool
  unfolding now_secs
  is_hot meta = ltb (now_secs - meta.last_accessed) cfg.hotness_threshold_secs

  unfoldable pub is_resident : ChunkMeta → Bool
  unfolding now_secs
  is_resident meta = leb cfg.min_residence_secs (now_secs - meta.created_at)

  unfoldable pub among : List (ChunkId × ChunkMeta) → List (ChunkId × ChunkMeta) → Option ChunkId
  unfolding oldest
  among candidates [] = oldest candidates
  among candidates (c ∷ cs) = oldest (c ∷ cs)

  unfoldable pub select_viction : List (ChunkId × ChunkMeta) → Option ChunkId
  unfolding among is_resident
  select_viction [] = none
  select_viction (c ∷ cs) = among (c ∷ cs) (filter (λ d. is_resident d.1) (c ∷ cs))

  module _ (fl : Float) where
    open fl use {F, flt, hundredths}

    unfoldable pub cold_target : TierId → List TierId → TierId
    cold_target first available =
        if contains cfg.fallback_tier available
        then cfg.fallback_tier
        else if contains cfg.preferred_tier available
        then cfg.preferred_tier
        else first

    unfoldable pub select_target_tier : ChunkMeta → PressureState F → List TierId → TierId
    unfolding is_hot cold_target
    select_target_tier meta p [] = cfg.preferred_tier
    select_target_tier meta p (t ∷ ts) =
        let cold = cold_target t (t ∷ ts) in
        if is_hot meta
        then elim (best_tier fl (t ∷ ts) p) [ none ↦ cold | some best ↦ best ]
        else cold

    -- The body of `should_migrate`, once it is known whether the chunk is hot.
    unfoldable pub target_for : Bool → TierId → PressureState F → Option TierId
    target_for hot current_tier p =
        if hot && tier_eqb current_tier disk
        then best_tier fl (ram ∷ gpu_vram ∷ []) p
        else if not hot && tier_eqb current_tier ram
        then best_tier fl (disk ∷ gpu_vram ∷ []) p
        else if flt (hundredths 70) p.memory_pressure && (not hot && tier_eqb current_tier ram)
        then some disk
        else if flt (hundredths 70) p.vram_pressure && (not hot && tier_eqb current_tier gpu_vram)
        then some disk
        else none

    unfoldable pub should_migrate : ChunkMeta → TierId → PressureState F → Option TierId
    unfolding is_hot target_for
    should_migrate meta current_tier p = target_for (is_hot meta) current_tier p

    unfoldable pub migration_priority : ChunkMeta → PressureState F → TransferPriority
    unfolding is_hot
    migration_priority meta p =
        if is_hot meta && flt (hundredths 90) p.memory_pressure
        then critical
        else if is_hot meta
        then high
        else if flt (hundredths 70) p.memory_pressure
        then high
        else if flt (hundredths 50) p.memory_pressure
        then normal
        else low

    -- `impl PlacementPolicy for LruPolicy`, as the migration engine uses it.
    unfoldable pub lru_policy : PlacementPolicy F
    unfolding should_migrate migration_priority
    lru_policy = record { should_migrate = should_migrate; migration_priority = migration_priority }
