-- ===== src/Policy/PressureAware.antt =====
-- crates/ghost-policy/src/pressure.rs: the placement policy that goes by the pressure of the tiers.
pub mod Migrations
pub mod Targets
pub mod Victims
use ghost_pages.Common.{
  ℕ, ◌-◌, Bool, true, false, not, ◌&&◌, List, [], ◌∷◌, Option, none, some, filter, ltb,
  if◌then◌else◌,
}
use ghost_pages.Core.Types.{ChunkId, TierId, ram, gpu_vram, disk, simulation, tier_eqb}
use ghost_pages.Core.Meta.{ChunkMeta}
use ghost_pages.Core.Pressure.{Float, PressureState, max_pressure}
use ghost_pages.Core.Transfer.{TransferPriority, low, normal, high, critical}
use ghost_pages.Daemon.Migration.Cycle.{PlacementPolicy}
use ghost_pages.Policy.Choice.{reduce}
use ghost_pages.Policy.Weights.{tier_pressure_score, best_tier}

pub record PressureAwareConfig (F : Type 0) : Type 0 where
  pub ram_high_watermark : F
  pub ram_critical_watermark : F
  pub vram_high_watermark : F
  pub vram_critical_watermark : F
  pub io_high_watermark : F
  pub io_critical_watermark : F
  pub critical_pressure : F
  pub high_pressure : F
  pub normal_pressure : F
  pub current_time_secs : ℕ

-- The tiers that a chunk is migrated to.
abbrev pub all_tiers : List TierId
all_tiers = ram ∷ gpu_vram ∷ disk ∷ []

module _ (fl : Float) where
  open fl use {F, flt, fle, hundredths}

  -- `PressureAwareConfig::default`.
  unfoldable pub default_config : PressureAwareConfig F
  default_config = record {
    ram_high_watermark = hundredths 70;
    ram_critical_watermark = hundredths 90;
    vram_high_watermark = hundredths 70;
    vram_critical_watermark = hundredths 90;
    io_high_watermark = hundredths 70;
    io_critical_watermark = hundredths 90;
    critical_pressure = hundredths 90;
    high_pressure = hundredths 70;
    normal_pressure = hundredths 50;
    current_time_secs = 0;
  }

  -- Of two, the first unless its score is greater: one step of `min_by`.
  unfoldable pub lesser : PressureState F → TierId → TierId → TierId
  lesser p a b = if flt (tier_pressure_score fl b p) (tier_pressure_score fl a p) then b else a

  module _ (cfg : PressureAwareConfig F) where
    unfoldable pub is_tier_pressured : TierId → PressureState F → Bool
    is_tier_pressured ram p = fle cfg.ram_high_watermark p.memory_pressure
    is_tier_pressured gpu_vram p = fle cfg.vram_high_watermark p.vram_pressure
    is_tier_pressured disk p = fle cfg.io_high_watermark p.io_pressure
    is_tier_pressured simulation p = false

    unfoldable pub is_tier_critical : TierId → PressureState F → Bool
    is_tier_critical ram p = fle cfg.ram_critical_watermark p.memory_pressure
    is_tier_critical gpu_vram p = fle cfg.vram_critical_watermark p.vram_pressure
    is_tier_critical disk p = fle cfg.io_critical_watermark p.io_pressure
    is_tier_critical simulation p = false

    -- The choice among the viable tiers, or among all where none is viable.
    unfoldable pub select_among :
        PressureState F → (first : TierId) (rest viable : List TierId) → TierId
    unfolding lesser reduce
    select_among p t ts [] = reduce (lesser p) t ts
    select_among p t ts (v ∷ vs) = elim (best_tier fl (v ∷ vs) p) [ none ↦ v | some best ↦ best ]

    unfoldable pub select_target_tier : PressureState F → List TierId → TierId
    unfolding select_among is_tier_critical
    select_target_tier p [] = disk
    select_target_tier p (t ∷ ts) =
        select_among p t ts (filter (λ u. not (is_tier_critical u p)) (t ∷ ts))

    -- One step of `max_by`: a chunk of a pressured tier before one that is not, and then the one that
    -- was accessed earlier; of two equal ones the later.
    unfoldable pub worse :
        PressureState F → ChunkId × ChunkMeta → ChunkId × ChunkMeta → ChunkId × ChunkMeta
    unfolding is_tier_pressured
    worse p c d =
        let x = is_tier_pressured c.1.tier p in
        let y = is_tier_pressured d.1.tier p in
        if x && not y
        then c
        else if not x && y
        then d
        else if ltb c.1.last_accessed d.1.last_accessed
        then c
        else d

    unfoldable pub select_viction : PressureState F → List (ChunkId × ChunkMeta) → Option ChunkId
    unfolding worse reduce
    select_viction p [] = none
    select_viction p (c ∷ cs) = some (reduce (worse p) c cs).0

    unfoldable pub escape : TierId → PressureState F → Option TierId
    unfolding is_tier_critical
    escape current_tier p =
        if is_tier_critical current_tier p
        then best_tier fl
            (filter (λ t. not (tier_eqb t current_tier) && not (is_tier_critical t p)) all_tiers) p
        else none

    unfoldable pub relieve : ChunkMeta → TierId → PressureState F → Option TierId
    unfolding is_tier_pressured
    relieve meta current_tier p =
        if is_tier_pressured current_tier p && ltb 300 (cfg.current_time_secs - meta.last_accessed)
        then best_tier fl (filter (λ t. not (tier_eqb t current_tier)) all_tiers) p
        else none

    unfoldable pub should_migrate : ChunkMeta → TierId → PressureState F → Option TierId
    unfolding escape relieve
    should_migrate meta current_tier p = elim (escape current_tier p) [
      | some best ↦ some best
      | none ↦ relieve meta current_tier p
    ]

    unfoldable pub migration_priority : PressureState F → TransferPriority
    migration_priority p =
        let max = max_pressure fl p in
        if fle cfg.critical_pressure max
        then critical
        else if fle cfg.high_pressure max
        then high
        else if fle cfg.normal_pressure max
        then normal
        else low

    -- `impl PlacementPolicy for PressureAwarePolicy`, as the migration engine uses it.
    unfoldable pub pressure_aware_policy : PlacementPolicy F
    unfolding should_migrate migration_priority
    pressure_aware_policy = record {
      should_migrate = should_migrate;
      migration_priority = λ meta p. migration_priority p;
    }
