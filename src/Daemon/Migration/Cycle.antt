-- ===== src/Daemon/Migration/Cycle.antt =====
-- `MigrationEngine::evaluate`: one cycle over the stored chunks. The placement policy and the
-- hotness tracker are arguments. The standard library's stable sort is an insertion sort.
pub mod Sorting
pub mod Selection
use Prim.Native.String.{String}
use ghost_pages.Common.{
  ℕ, zero, suc, ◌+◌, ◌-◌, ◌%◌, ◌^◌, Bool, true, false, List, [], ◌∷◌, map, take, length, Option,
  none, some, ltb, ◌==◌, if◌then◌else◌, nat_ord,
}
use ghost_pages.Common.BTreeMap.{BTreeMap, get, contains_key}
use ghost_pages.Core.Types.{ChunkId, TierId, ram, tier_eqb}
use ghost_pages.Core.State.{StateMachine, stored, chunks_in_state}
use ghost_pages.Core.Meta.{ChunkMeta, ChunkHotness, uncompressed}
use ghost_pages.Core.Pressure.{Float, PressureState}
use ghost_pages.Core.Transfer.{TransferPriority, value}
use ghost_pages.Core.Trace.{TraceEvent, policy_decision}
use ghost_pages.Daemon.Migration.{
  MigrationConfig, MigrationStats, PendingMigration, MigrationEngine, recent,
}

-- What `evaluate` asks of `dyn PlacementPolicy`.
pub record PlacementPolicy (F32 : Type 0) : Type 0 where
  pub should_migrate : ChunkMeta → TierId → PressureState F32 → Option TierId
  pub migration_priority : ChunkMeta → PressureState F32 → TransferPriority

-- What becomes of a stored chunk: passed over, counted as skipped, or chosen.
pub data Verdict (F32 : Type 0) : Type 0 where
  passed_over skipped : Verdict F32
  chosen : PendingMigration F32 → Verdict F32

module _ (f32 : Float) where
  open f32 use {F, flt, of_ℕ}

  unfoldable pub accessed : Option (ChunkHotness F) → ℕ
  accessed none = 0
  accessed (some h) = h.last_accessed

  unfoldable pub accesses : Option (ChunkHotness F) → ℕ
  accesses none = 0
  accesses (some h) = h.access_count

  unfoldable pub score_of : Option (ChunkHotness F) → F
  score_of none = of_ℕ 0
  score_of (some h) = h.score

  -- The minimal description that the policy is shown.
  unfoldable pub minimal_meta : ChunkId → Option (ChunkHotness F) → ChunkMeta
  unfolding accessed accesses
  minimal_meta id hotness = record {
    id = id;
    size = 0;
    compressed_size = 0;
    tier = ram;
    state = stored;
    created_at = 0;
    last_accessed = accessed hotness;
    access_count = accesses hotness;
    compression = uncompressed;
    checksum = 0;
  }

  module _ (cfg : MigrationConfig F F) (policy : PlacementPolicy F)
      (get_hotness : ChunkId → Option (ChunkHotness F)) (pressure : PressureState F) (now : ℕ) where
    unfoldable pub on_target :
        ChunkId → Option (ChunkHotness F) → ChunkMeta → Option TierId → Verdict F
    unfolding score_of
    on_target id hotness meta none = skipped
    on_target id hotness meta (some target) =
        if tier_eqb target meta.tier
        then skipped
        else if ltb cfg.max_chunk_size_for_migration meta.size
        then skipped
        else chosen (record {
          chunk_id = id;
          from_tier = meta.tier;
          to_tier = target;
          priority = policy.migration_priority meta pressure;
          size = meta.size;
          hotness_score = score_of hotness;
          identified_at = now;
        })

    -- One round of the loop.
    unfoldable pub consider : MigrationEngine → ChunkId → Verdict F
    unfolding minimal_meta on_target
    consider e id =
        let hotness = get_hotness id in
        let meta = minimal_meta id hotness in
        if contains_key id e.active_migrations
        then passed_over
        else if recent cfg.min_migration_interval_secs now (get id e.last_migration)
        then passed_over
        else on_target id hotness meta (policy.should_migrate meta meta.tier pressure)

    unfoldable pub pick : Verdict F → List (PendingMigration F) → List (PendingMigration F)
    pick (chosen m) ms = m ∷ ms
    pick _ ms = ms

    unfoldable pub decisions : MigrationEngine → List ChunkId → List (PendingMigration F)
    unfolding pick
    decisions e [] = []
    decisions e (id ∷ ids) = pick (consider e id) (decisions e ids)

    unfoldable pub count_skip : Verdict F → ℕ → ℕ
    count_skip skipped n = (n + 1) % 2 ^ 64
    count_skip _ n = n

    unfoldable pub skips : MigrationEngine → List ChunkId → ℕ → ℕ
    skips e [] n = n
    skips e (id ∷ ids) n = skips e ids (count_skip (consider e id) n)

  -- The comparator: a higher priority first, then a higher score.
  unfoldable pub before : PendingMigration F → PendingMigration F → Bool
  before a b =
      let pa = value a.priority in
      let pb = value b.priority in
      if ltb pb pa then true else if pa == pb then flt b.hotness_score a.hotness_score else false

  unfoldable pub insert_sorted :
      PendingMigration F → List (PendingMigration F) → List (PendingMigration F)
  insert_sorted m [] = m ∷ []
  insert_sorted m (x ∷ xs) =
      let later = x ∷ insert_sorted m xs in if before x m then later else m ∷ x ∷ xs

  unfoldable pub sort : List (PendingMigration F) → List (PendingMigration F)
  sort [] = []
  sort (m ∷ ms) = insert_sorted m (sort ms)

  unfoldable pub decision_event : String → ℕ → PendingMigration F → TraceEvent F
  decision_event reason now m = policy_decision m.chunk_id m.from_tier m.to_tier reason now

  pub record CycleResult : Type 0 where
    pub engine : MigrationEngine
    pub trace : List (TraceEvent F)
    pub migrations : List (PendingMigration F)

  -- `reason` is the text that the trace events carry.
  unfoldable pub evaluate :
      MigrationConfig F F
      → PlacementPolicy F
      → (ChunkId → Option (ChunkHotness F))
      → String
      → PressureState F
      → ℕ
      → StateMachine
      → MigrationEngine
      → CycleResult
  unfolding decision_event
  evaluate cfg policy get_hotness reason pressure now sm e =
      let ids = chunks_in_state sm stored in
      let found = decisions cfg policy get_hotness pressure now e ids in
      record {
        engine = record e {
          stats = record e.stats {
            evaluation_cycles = (e.stats.evaluation_cycles + 1) % 2 ^ 64;
            last_evaluation = now;
            skipped = skips cfg policy get_hotness pressure now e ids e.stats.skipped;
          };
        };
        trace = map (decision_event reason now) found;
        migrations = take cfg.max_migrations_per_cycle (sort found);
      }
