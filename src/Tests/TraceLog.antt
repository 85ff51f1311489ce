-- ===== src/Tests/TraceLog.antt =====
-- The trace log, at a log that is full.
use ghost_pages.Common.{ℕ, ◌≡◌, [], ◌∷◌, some, arith}
use ghost_pages.Core.Trace.{TraceEvent, daemon_started, daemon_stopping}
use ghost_pages.Daemon.TraceLog.{record_all}
use ghost_pages.Daemon.TraceLog.Window.{IsBounded, record_all_lem}
use ghost_pages.Tests.Base.{short_log}

short_log-IsBounded : IsBounded short_log
short_log-IsBounded = record { positive = omega arith; bounded = omega arith }

record_all_lem_example :
    record_all short_log (daemon_started 3 ∷ daemon_stopping 4 ∷ daemon_stopping 5 ∷ [])
    ≡ some (record short_log { events = daemon_stopping 4 ∷ daemon_stopping 5 ∷ [] })
record_all_lem_example =
    record_all_lem short_log (daemon_started 3 ∷ daemon_stopping 4 ∷ daemon_stopping 5 ∷ [])
      short_log-IsBounded

abbrev started : TraceEvent ℕ
started = daemon_started 3
