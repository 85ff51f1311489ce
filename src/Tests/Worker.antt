-- ===== src/Tests/Worker.antt =====
-- The worker, between two RAM tiers of which the second is too small.
use ghost_pages.Common.{ℕ, ◌*◌, true, none, some, arith}
use ghost_pages.Core.Types.{ram, disk}
use ghost_pages.Core.Transfer.{high}
use ghost_pages.Tier.Ram.{RamBackend, new, ram_operations}
use ghost_pages.Daemon.Worker.{WorkerPoolConfig, Backends, execute_transfer}
use ghost_pages.Daemon.Worker.Retries.{Ended, IsPatient, execute_transfer-Ended}
use ghost_pages.Tests.Base.{job}

abbrev config : WorkerPoolConfig
config = record {
  max_retries = 2;
  retry_base_delay_ms = 10;
  max_retry_delay_ms = 15;
  enable_compression = true;
}

abbrev backends : Backends RamBackend
backends ram = some (new 10_000)
backends disk = some (new 10)
backends _ = none

execute_transfer-Ended_example :
    let r = execute_transfer ram_operations {F = ℕ} config (λ n. n * 5) 7 (job 1 high) backends in
    Ended config (job 1 high) r × IsPatient config r
execute_transfer-Ended_example =
    execute_transfer-Ended ram_operations config (λ n. n * 5) 7 (job 1 high) backends (omega arith)
