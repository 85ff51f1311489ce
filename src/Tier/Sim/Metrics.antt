-- ===== src/Tier/Sim/Metrics.antt =====
-- crates/ghost-tier/src/sim_metrics.rs: the counters of the simulated tier, which wrap at 64 bits.
use ghost_pages.Common.{ℕ, ◌+◌, ◌%◌, ◌^◌}

pub record SimMetrics : Type 0 where
  pub alloc_count : ℕ
  pub dealloc_count : ℕ
  pub write_count : ℕ
  pub read_count : ℕ
  pub failure_count : ℕ
  pub bytes_allocated : ℕ
  pub bytes_deallocated : ℕ
  pub bytes_written : ℕ
  pub bytes_read : ℕ
  pub total_latency_us : ℕ

-- `SimMetrics::new`, and what `reset` leaves.
abbrev pub no_metrics : SimMetrics
no_metrics = record {
  alloc_count = 0;
  dealloc_count = 0;
  write_count = 0;
  read_count = 0;
  failure_count = 0;
  bytes_allocated = 0;
  bytes_deallocated = 0;
  bytes_written = 0;
  bytes_read = 0;
  total_latency_us = 0;
}

-- `fetch_add` on a 64-bit word.
abbrev pub plus : ℕ → ℕ → ℕ
plus a b = (a + b) % 2 ^ 64

unfoldable pub record_alloc : ℕ → SimMetrics → SimMetrics
record_alloc size m = record m {
  alloc_count = plus m.alloc_count 1;
  bytes_allocated = plus m.bytes_allocated size;
}

unfoldable pub record_dealloc : ℕ → SimMetrics → SimMetrics
record_dealloc size m = record m {
  dealloc_count = plus m.dealloc_count 1;
  bytes_deallocated = plus m.bytes_deallocated size;
}

unfoldable pub record_write : ℕ → SimMetrics → SimMetrics
record_write size m = record m {
  write_count = plus m.write_count 1;
  bytes_written = plus m.bytes_written size;
}

unfoldable pub record_read : ℕ → SimMetrics → SimMetrics
record_read size m = record m {
  read_count = plus m.read_count 1;
  bytes_read = plus m.bytes_read size;
}

unfoldable pub record_failure : SimMetrics → SimMetrics
record_failure m = record m { failure_count = plus m.failure_count 1 }

unfoldable pub record_latency : ℕ → SimMetrics → SimMetrics
record_latency us m = record m { total_latency_us = plus m.total_latency_us us }
