-- ===== src/Daemon/Migration/Cycle/Selection.antt =====
-- What one evaluation cycle selects.
use Prim.Native.String.{String}
use ghost_pages.Common.{
  ℕ, ◌≡◌, refl, ap, ◌∙◌, false, List, [], ◌∷◌, ◌++◌, All, drop, length, min, length-take,
  take-append-drop, Option, none, some, Bool-cases, inl, inr, ltb, nat_ord,
}
use mathlib.Core.List.{Perm}
use ghost_pages.Common.BTreeMap.{get, contains_key}
use ghost_pages.Core.Pressure.{Float, PressureState}
use ghost_pages.Core.Types.{ChunkId, TierId, ram, tier_eqb}
use ghost_pages.Core.State.{StateMachine, stored, chunks_in_state}
use ghost_pages.Core.Meta.{ChunkHotness}
use ghost_pages.Daemon.Migration.{MigrationConfig, PendingMigration, MigrationEngine, recent}
use ghost_pages.Daemon.Migration.Cycle.{
  PlacementPolicy, Verdict, passed_over, skipped, chosen, minimal_meta, on_target, consider, pick,
  decisions, sort, evaluate,
}
use ghost_pages.Daemon.Migration.Cycle.Sorting.{Ranked, sort-perm, sort-Ranked, length-sort}

module _ (f32 : Float) where
  open f32 use {F}

  -- One cycle selects as many of its decisions as the configured number allows. With those that it leaves for
  -- later they are exactly the decisions of the cycle, none made up and none lost, and none that is
  -- left has a higher priority than one that is selected.
  pub evaluate-selects :
      (cfg : MigrationConfig F F) (policy : PlacementPolicy F)
      (hot : ChunkId → Option (ChunkHotness F)) (reason : String) (p : PressureState F) (now : ℕ)
      (sm : StateMachine) (e : MigrationEngine)
      → let r = evaluate f32 cfg policy hot reason p now sm e in
        let found = decisions f32 cfg policy hot p now e (chunks_in_state sm stored) in
        (left : List (PendingMigration F)) × Perm (r.migrations ++ left) found
        × Ranked (r.migrations ++ left)
        × (length r.migrations ≡ min cfg.max_migrations_per_cycle (length found))
  unfolding evaluate
  evaluate-selects cfg policy hot reason p now sm e =
      let found = decisions f32 cfg policy hot p now e (chunks_in_state sm stored) in
      let n = cfg.max_migrations_per_cycle in
      (
        drop n (sort f32 found),
        rw take-append-drop (sort-perm f32 found),
        rw take-append-drop (sort-Ranked f32 found),
        length-take n (sort f32 found) ∙ ap (min n) (length-sort f32 found),
      )

  -- The decision about a chunk, in words: it is not being migrated, the rate limit has passed, and
  -- the policy wants it on another tier.
  pub record Justified (cfg : MigrationConfig F F) (policy : PlacementPolicy F)
      (hot : ChunkId → Option (ChunkHotness F)) (p : PressureState F) (now : ℕ)
      (e : MigrationEngine) (m : PendingMigration F) : Type 0 where
    pub idle : contains_key m.chunk_id e.active_migrations ≡ false
    pub rested :
        recent cfg.min_migration_interval_secs now (get m.chunk_id e.last_migration) ≡ false
    pub wanted :
        policy.should_migrate (minimal_meta f32 m.chunk_id (hot m.chunk_id)) ram p ≡ some m.to_tier
    pub elsewhere : tier_eqb m.to_tier ram ≡ false
    pub from_ram : m.from_tier ≡ ram
    pub no_size : m.size ≡ 0

  -- A verdict that chooses a migration chooses one with the property.
  abbrev Chooses : (PendingMigration F → Type 0) → Verdict F → Type 0
  Chooses P passed_over = Unit {0}
  Chooses P skipped = Unit {0}
  Chooses P (chosen m) = P m

  module _ (cfg : MigrationConfig F F) (policy : PlacementPolicy F)
      (hot : ChunkId → Option (ChunkHotness F)) (p : PressureState F) (now : ℕ)
      (e : MigrationEngine) where
    abbrev Good : PendingMigration F → Type 0
    Good = Justified cfg policy hot p now e

    All-pick :
        (P : PendingMigration F → Type 0) (v : Verdict F) (ms : List (PendingMigration F))
        → Chooses P v
        → All P ms
        → All P (pick f32 cfg policy hot p now v ms)
    unfolding pick
    All-pick P passed_over ms h a = a
    All-pick P skipped ms h a = a
    All-pick P (chosen m) ms h a = (h, a)

    on_target-Good :
        (id : ChunkId) (t : Option TierId)
        → contains_key id e.active_migrations ≡ false
        → recent cfg.min_migration_interval_secs now (get id e.last_migration) ≡ false
        → policy.should_migrate (minimal_meta f32 id (hot id)) ram p ≡ t
        → Chooses Good
            (on_target f32 cfg policy hot p now id (hot id) (minimal_meta f32 id (hot id)) t)
    unfolding on_target minimal_meta
    on_target-Good id none i r w = tt
    on_target-Good id (some t) i r w = elim (Bool-cases (tier_eqb t ram)) [
      | inl x ↦ rw (x, on_target, minimal_meta) tt
      | inr x ↦ elim (Bool-cases (ltb cfg.max_chunk_size_for_migration 0)) [
        | inl y ↦ rw (x, y, on_target, minimal_meta) tt
        | inr y ↦
            rw (x, y, on_target, minimal_meta)
              (record {
                idle = i;
                rested = r;
                wanted = w;
                elsewhere = x;
                from_ram = refl;
                no_size = refl;
              })
      ]
    ]

    consider-Good : (id : ChunkId) → Chooses Good (consider f32 cfg policy hot p now e id)
    unfolding consider
    consider-Good id = elim (Bool-cases (contains_key id e.active_migrations)) [
      | inl x ↦ rw (x, consider) tt
      | inr x ↦
          elim (Bool-cases (recent cfg.min_migration_interval_secs now (get id e.last_migration))) [
            | inl y ↦ rw (x, y, consider) tt
            | inr y ↦ rw (x, y, consider) (on_target-Good id _ x y refl)
          ]
    ]

    -- Every decision of a cycle is about a chunk that is not being migrated and was not migrated
    -- within the rate limit, and that the policy wants on another tier; and each of them moves no
    -- bytes, from the RAM tier.
    pub decisions-Justified :
        (ids : List ChunkId)
        → All (Justified cfg policy hot p now e) (decisions f32 cfg policy hot p now e ids)
    unfolding decisions
    decisions-Justified [] = tt
    decisions-Justified (id ∷ ids) =
        All-pick Good (consider f32 cfg policy hot p now e id) _ (consider-Good id)
          (decisions-Justified ids)
