-- ===== src/Tests/Base.antt =====
-- Data that the tests share: fixed-point numbers in hundredths for floats, and a few jobs.
use ghost_pages.Common.{ℕ, ◌+◌, ◌-◌, ◌*◌, ◌/◌, max, min, ltb, leb, [], ◌∷◌}
use ghost_pages.Core.Types.{ram, disk}
use ghost_pages.Core.Pressure.{Float, PressureState}
use ghost_pages.Core.Transfer.{TransferJob, TransferPriority, queued}
use ghost_pages.Core.Trace.{TraceEvent, daemon_started}
use ghost_pages.Daemon.TraceLog.{TraceLog}

abbrev pub fixed : Float
fixed = record {
  F = ℕ;
  flt = ltb;
  fle = leb;
  hundredths = λ n. n;
  of_ℕ = λ n. n * 100;
  fmax = max;
  fmin = min;
  fadd = λ a b. a + b;
  fsub = λ a b. a - b;
  fmul = λ a b. a * b / 100;
  fdiv = λ a b. a * 100 / b;
}

abbrev pub pressure_at : ℕ → PressureState ℕ
pressure_at p = record {
  memory_pressure = p;
  vram_pressure = 10;
  io_pressure = 20;
  queue_depth = 3;
  throughput_bps = 0;
}

abbrev pub job : ℕ → TransferPriority → TransferJob
job id priority = record {
  chunk_id = id;
  from_tier = ram;
  to_tier = disk;
  size = 4096;
  priority = priority;
  state = queued;
  created_at = 5;
  created_at_secs = 6;
  attempts = 0;
}

abbrev pub short_log : TraceLog (TraceEvent ℕ)
short_log = record { events = daemon_started 1 ∷ daemon_started 2 ∷ []; max_events = 2 }
