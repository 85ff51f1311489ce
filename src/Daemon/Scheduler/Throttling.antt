-- ===== src/Daemon/Scheduler/Throttling.antt =====
-- Which jobs are held back.
use ghost_pages.Common.{ℕ, ◌≤◌, ◌≡◌, false, Option, arith}
use ghost_pages.Core.Pressure.{Float, PressureState}
use ghost_pages.Core.Transfer.{TransferJob, TransferPriority, critical, value}
use ghost_pages.Daemon.Scheduler.{SchedulerConfig, should_throttle}

module _ (fl : Float) where
  open fl use {F}

  -- Priority helps: under the same pressure and disk load, a job that is let through with one
  -- priority is also let through with any higher one.
  pub should_throttle_mono :
      (cfg : SchedulerConfig) (disk_queue : Option ℕ) (p : PressureState F) (job : TransferJob)
      (a b : TransferPriority)
      → value a ≤ value b
      → should_throttle fl cfg disk_queue (record job { priority = a }) p ≡ false
      → should_throttle fl cfg disk_queue (record job { priority = b }) p ≡ false
  unfolding should_throttle value
  should_throttle_mono cfg disk_queue p job a b h k = ground arith

  -- A critical job is let through whatever the pressure and the disk load.
  pub should_throttle-critical :
      (cfg : SchedulerConfig) (disk_queue : Option ℕ) (p : PressureState F) (job : TransferJob)
      → job.priority ≡ critical
      → should_throttle fl cfg disk_queue job p ≡ false
  unfolding should_throttle
  should_throttle-critical cfg disk_queue p job h = ground arith
