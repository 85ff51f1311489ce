-- ===== src/Daemon/Migration/Decision.antt =====
-- When a migration goes ahead.
use ghost_pages.Common.{◌≡◌, ◌<◌, ◌↔◌, true, false, some, arith}
use ghost_pages.Core.Pressure.{Float, PhysicalCost, is_too_pressured, cost_score}
use ghost_pages.Core.Transfer.{TransferPriority}
use ghost_pages.Daemon.Backpressure.{BackpressureAction, allows}
use ghost_pages.Daemon.Migration.{
  MigrationConfig, PendingMigration, MigrationEngine, active_count, rejected, decided,
  decide_migration,
}

-- The four conditions under which a migration may go ahead.
pub record Admissible (f32 f64 : Float) (widen : f32.F → f64.F) (cfg : MigrationConfig f32.F f64.F)
    (e : MigrationEngine) (p : TransferPriority) (cost : PhysicalCost f32.F f64.F)
    (action : BackpressureAction) : Type 0 where
  pub allowed : allows action p ≡ true
  pub unpressured : is_too_pressured f32 cost ≡ false
  pub cheap : f64.flt cfg.io_cost_threshold (cost_score f64 widen cost) ≡ false
  pub capacity : active_count e < cfg.max_concurrent_migrations

module _ (f32 f64 : Float) (widen : f32.F → f64.F) where
  -- A migration goes ahead, unchanged, exactly when back-pressure allows its priority, the I/O is
  -- not too pressured, the cost is not above the threshold and the engine has capacity; the event
  -- that is emitted says so exactly then, and says that it was rejected exactly when back-pressure
  -- refuses the priority.
  pub decide_migration_iff :
      (cfg : MigrationConfig f32.F f64.F) (e : MigrationEngine) (m : PendingMigration f32.F)
      (cost : PhysicalCost f32.F f64.F) (action : BackpressureAction)
      → let r = decide_migration f32 f64 widen cfg e m cost action in
        ((r.1 ≡ some m) ↔ Admissible f32 f64 widen cfg e m.priority cost action)
        × ((r.0 ≡ decided) ↔ Admissible f32 f64 widen cfg e m.priority cost action)
        × ((r.0 ≡ rejected) ↔ (allows action m.priority ≡ false))
  unfolding decide_migration
  decide_migration_iff cfg e m cost action = (
    (
      (λ h. record {
        allowed = ground arith;
        unpressured = ground arith;
        cheap = ground arith;
        capacity = ground arith;
      }),
      (λ a. ground (arith, a.allowed, a.unpressured, a.cheap, a.capacity)),
    ),
    (
      (λ h. record {
        allowed = ground arith;
        unpressured = ground arith;
        cheap = ground arith;
        capacity = ground arith;
      }),
      (λ a. ground (arith, a.allowed, a.unpressured, a.cheap, a.capacity)),
    ),
    ((λ h. ground arith), (λ h. ground arith)),
  )
