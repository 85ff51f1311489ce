-- ===== src/Policy/Lru/Migrations.antt =====
-- Where the policy sends a chunk, and what that makes of a cycle of the migration engine.
use ghost_pages.Common.{
  ℕ, ◌<◌, ◌≡◌, subst, ◌⊎◌, inl, inr, Bool, true, false, List, [], ◌∷◌, Option, some, All,
  Bool-cases, arith,
}
use ghost_pages.Core.Types.{ChunkId, TierId, ram, gpu_vram, disk, simulation, tier_priority}
use ghost_pages.Core.Meta.{ChunkMeta, ChunkHotness}
use ghost_pages.Core.Pressure.{Float, PressureState}
use ghost_pages.Policy.Choice.{reduce, All-map}
use ghost_pages.Policy.Weights.{tier_pressure_score, better, best_tier}
use ghost_pages.Policy.Lru.{LruConfig, is_hot, target_for, should_migrate, lru_policy}
use ghost_pages.Daemon.Migration.{MigrationConfig, MigrationEngine}
use ghost_pages.Daemon.Migration.Cycle.{minimal_meta, decisions}
use ghost_pages.Daemon.Migration.Cycle.Selection.{Justified, decisions-Justified}

module _ (cfg : LruConfig) (wall : ℕ) (fl : Float) where
  open fl use {F, flt, hundredths}

  best_of_two :
      (a b : TierId) (p : PressureState F) (t : TierId)
      → best_tier fl (a ∷ b ∷ []) p ≡ some t
      → (t ≡ a) ⊎ (t ≡ b)
  unfolding best_tier reduce better
  best_of_two a b p t e =
      elim (Bool-cases (flt (tier_pressure_score fl b p) (tier_pressure_score fl a p))) [
        | inl q ↦ ground arith
        | inr q ↦ ground arith
      ]

  abbrev Directed : Bool → TierId → TierId → Type 0
  Directed true current target = tier_priority target < tier_priority current
  Directed false current target = tier_priority current < tier_priority target

  target_for-Directed :
      (hot : Bool) (current target : TierId) (p : PressureState F)
      → target_for cfg wall fl hot current p ≡ some target
      → Directed hot current target
  unfolding target_for tier_priority
  target_for-Directed true ram t p e = ground arith
  target_for-Directed true gpu_vram t p e = ground arith
  target_for-Directed true simulation t p e = ground arith
  target_for-Directed true disk t p e = elim (best_of_two ram gpu_vram p t e) [
    | inl q ↦ rw q (omega arith)
    | inr q ↦ rw q (omega arith)
  ]
  target_for-Directed false ram t p e = elim (best_of_two disk gpu_vram p t e) [
    | inl q ↦ rw q (omega arith)
    | inr q ↦ rw q (omega arith)
  ]
  target_for-Directed false gpu_vram t p e = ground arith
  target_for-Directed false simulation t p e = ground arith
  target_for-Directed false disk t p e = ground arith

  -- A chunk is sent to a tier only if it is hot and the tier is a faster one than its own, or if it is
  -- cold and the tier is a slower one.
  pub should_migrate-direction :
      (meta : ChunkMeta) (current target : TierId) (p : PressureState F)
      → should_migrate cfg wall fl meta current p ≡ some target
      → ((is_hot cfg wall meta ≡ true) × (tier_priority target < tier_priority current))
        ⊎ ((is_hot cfg wall meta ≡ false) × (tier_priority current < tier_priority target))
  unfolding should_migrate
  should_migrate-direction meta current target p e =
      let d = target_for-Directed (is_hot cfg wall meta) current target p e in
      elim (Bool-cases (is_hot cfg wall meta)) [
        | inl h ↦ inl (h, subst (λ b. Directed b current target) h d)
        | inr h ↦ inr (h, subst (λ b. Directed b current target) h d)
      ]

  -- Under this policy every migration that a cycle of the engine decides on is of a chunk that is
  -- cold, to a tier slower than RAM: no chunk is ever promoted by it.
  pub decisions-cold :
      (mc : MigrationConfig F F) (hot : ChunkId → Option (ChunkHotness F)) (p : PressureState F)
      (now : ℕ) (e : MigrationEngine) (ids : List ChunkId)
      → All
          (λ m.
            (is_hot cfg wall (minimal_meta fl m.chunk_id (hot m.chunk_id)) ≡ false)
            × (tier_priority ram < tier_priority m.to_tier))
          (decisions fl mc (lru_policy cfg wall fl) hot p now e ids)
  unfolding lru_policy
  decisions-cold mc hot p now e ids =
      All-map (Justified fl mc (lru_policy cfg wall fl) hot p now e) _
        (decisions fl mc (lru_policy cfg wall fl) hot p now e ids)
        (λ m j.
          elim (should_migrate-direction (minimal_meta fl m.chunk_id (hot m.chunk_id)) ram m.to_tier
            p j.wanted) [ inl r ↦ absurd (unfold tier_priority in omega (arith, r.1)) | inr r ↦ r ])
        (decisions-Justified fl mc (lru_policy cfg wall fl) hot p now e ids)
