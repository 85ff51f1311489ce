-- ===== src/Daemon/Migration/Marks.antt =====
-- Which chunks count as migrating, and what a finished migration leaves in the counters.
use ghost_pages.Common.{
  ◌<◌, List, [], ◌∷◌, ℕ, ◌+◌, ◌%◌, ◌^◌, ◌≡◌, Bool, true, false, ◌==◌, if◌then◌else◌, nat_ord,
}
use ghost_pages.Common.BTreeMap.{contains_key-insert, contains_key-remove}
use ghost_pages.Core.Types.{ChunkId}
use ghost_pages.Daemon.Migration.{
  MigrationEngine, mark_active, mark_complete, is_migrating, active_count,
}

-- Marking a chunk active or complete puts exactly that chunk into, or takes exactly it out of, the
-- migrating ones, whether or not the migration succeeded.
pub is_migrating-marks :
    (e : MigrationEngine) (id j : ChunkId) (t t' bytes : ℕ) (success : Bool)
    → (is_migrating (mark_active e id) j ≡ (if j == id then true else is_migrating e j))
      × (is_migrating (mark_complete t t' e id bytes success) j
          ≡ (if j == id then false else is_migrating e j))
unfolding is_migrating mark_active mark_complete
is_migrating-marks e id j t t' bytes success =
    (contains_key-insert id j tt e.active_migrations, contains_key-remove id j e.active_migrations)

pub data Mark : Type 0 where
  activates : ChunkId → Mark
  completes : (now now' : ℕ) → ChunkId → (bytes : ℕ) → (success : Bool) → Mark

unfoldable pub apply_mark : MigrationEngine → Mark → MigrationEngine
apply_mark e (activates id) = mark_active e id
apply_mark e (completes now now' id bytes success) = mark_complete now now' e id bytes success

unfoldable pub run_marks : MigrationEngine → List Mark → MigrationEngine
run_marks e [] = e
run_marks e (m ∷ ms) = run_marks (apply_mark e m) ms

-- The successes, the failures and the bytes of the successes among the marks.
abbrev pub successes : List Mark → ℕ
successes [] = 0
successes (completes _ _ _ _ true ∷ ms) = 1 + successes ms
successes (_ ∷ ms) = successes ms

abbrev pub failures : List Mark → ℕ
failures [] = 0
failures (completes _ _ _ _ false ∷ ms) = 1 + failures ms
failures (_ ∷ ms) = failures ms

abbrev pub bytes_moved : List Mark → ℕ
bytes_moved [] = 0
bytes_moved (completes _ _ _ bytes true ∷ ms) = bytes + bytes_moved ms
bytes_moved (_ ∷ ms) = bytes_moved ms

pub record IsCounted (e : MigrationEngine) : Type 0 where
  pub active : e.stats.active_migrations ≡ active_count e
  pub promoted : e.stats.promotions < 2 ^ 64
  pub failed : e.stats.failures < 2 ^ 64
  pub moved : e.stats.bytes_migrated < 2 ^ 64

-- What the statistics have grown by, as 64-bit words.
pub record Counts (e e' : MigrationEngine) (ms : List Mark) : Type 0 where
  pub promotions : e'.stats.promotions ≡ (e.stats.promotions + successes ms) % 2 ^ 64
  pub failures : e'.stats.failures ≡ (e.stats.failures + failures ms) % 2 ^ 64
  pub bytes : e'.stats.bytes_migrated ≡ (e.stats.bytes_migrated + bytes_moved ms) % 2 ^ 64
