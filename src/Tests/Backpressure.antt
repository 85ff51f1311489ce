-- ===== src/Tests/Backpressure.antt =====
-- Back-pressure, with a controller that has throttled for some time.
use ghost_pages.Common.{ℕ, some}
use ghost_pages.Daemon.Backpressure.{
  BackpressureConfig, BackpressureStats, BackpressureController, DiskReading,
}

abbrev config : BackpressureConfig ℕ
config = record {
  throttle_threshold = 70;
  reject_threshold = 85;
  critical_threshold = 95;
  cooldown_secs = 5;
  io_pressure_soft_limit = 60;
  io_pressure_hard_limit = 80;
  queue_depth_threshold = 32;
  disk_queue_soft_limit = 16;
  disk_queue_hard_limit = 64;
  disk_latency_threshold_us = 1000;
}

abbrev stats : BackpressureStats
stats = record {
  evaluations = 4;
  allow_count = 1;
  throttle_count = 3;
  reject_count = 0;
  critical_only_count = 0;
  transfers_rejected = 0;
  transfers_throttled = 0;
  last_action_change = 7;
  consecutive_same_action = 2;
  disk_congestion_escalations = 0;
}

abbrev controller : BackpressureController
controller = record {
  current_byte = 1;
  stats = stats;
  last_evaluation = 8;
  pressure_since = some 1_000;
}

abbrev busy : DiskReading
busy = record { queue_depth = 20; rolling_latency = 10 }
