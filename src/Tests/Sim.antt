-- ===== src/Tests/Sim.antt =====
-- The simulated tier, with a write that fails and an allocation that is given back twice.
use ghost_pages.Common.{true, false, List, [], ◌∷◌, arith}
use ghost_pages.Tier.Backend.{Allocation}
use ghost_pages.Tier.Sim.{SimConfig, new}
use ghost_pages.Tier.Sim.Steps.{IsSettled}
use ghost_pages.Tier.Sim.Histories.{
  Call, allocates, deallocates, writes, reads, verifies, run, run-IsSettled,
}

abbrev config : SimConfig
config = record {
  capacity = 64;
  simulate_fragmentation = true;
  no_factor = false;
  keeps = λ n. n;
  corruption_on_failure = true;
}

abbrev first : Allocation
first = record { offset = 0; size = 8 }

abbrev calls : List Call
calls =
    allocates 5 false 8
    ∷ writes 1 2 5 true first (7 ∷ [])
    ∷ writes 3 4 5 false first (7 ∷ [])
    ∷ reads 5 6 5 false first (0 ∷ [])
    ∷ deallocates 5 first
    ∷ deallocates 5 first
    ∷ verifies 5 first 1
    ∷ []

run-IsSettled_example : IsSettled (run config (λ n. n) (λ xs. 1) new calls)
run-IsSettled_example =
    run-IsSettled config (λ n. n) (λ xs. 1) calls (omega arith)
      (tt, (tt, (tt, (tt, (omega arith, (omega arith, (tt, tt)))))))
