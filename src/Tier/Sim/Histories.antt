-- ===== src/Tier/Sim/Histories.antt =====
-- What every history of calls keeps.
use ghost_pages.Common.{ℕ, ◌+◌, ◌^◌, ◌<◌, refl, Bool, List, [], ◌∷◌, length, nat_ord, arith, All}
use ghost_pages.Core.Types.{ChunkId}
use ghost_pages.Core.IoScheduler.{pending_count, new as new_scheduler}
use ghost_pages.Core.IoScheduler.Histories.{new-IsAccounted}
use ghost_pages.Tier.Backend.{Allocation}
use ghost_pages.Tier.Sim.Steps.{
  IsSettled, Keeps, Keeps-books, allocate-Keeps, deallocate-Keeps, write-Keeps, read-Keeps,
}
use ghost_pages.Tier.Sim.{
  SimConfig, SimBackend, new, delayed, allocate, deallocate, write, read, verify_integrity,
}

-- The calls that change the backend, with what is drawn for each.
pub data Call : Type 0 where
  allocates : (us : ℕ) (fails : Bool) (size : ℕ) → Call
  deallocates : (us : ℕ) → Allocation → Call
  writes : (now now' us : ℕ) (fails : Bool) → Allocation → List ℕ → Call
  reads : (now now' us : ℕ) (fails : Bool) → Allocation → List ℕ → Call
  verifies : (us : ℕ) → Allocation → (expected : ℕ) → Call

-- A size that is given back is a word.
abbrev pub IsWordSized : Call → Type 0
IsWordSized (allocates _ _ _) = Unit {0}
IsWordSized (deallocates _ a) = a.size < 2 ^ 64
IsWordSized (writes _ _ _ _ _ _) = Unit {0}
IsWordSized (reads _ _ _ _ _ _) = Unit {0}
IsWordSized (verifies _ _ _) = Unit {0}

module _ (cfg : SimConfig) (chunk_of : ℕ → ChunkId) (hash : List ℕ → ℕ) where
  unfoldable pub step : SimBackend → Call → SimBackend
  step b (allocates us fails size) = (allocate cfg us fails b size).0
  step b (deallocates us a) = (deallocate us b a).0
  step b (writes now now' us fails a bytes) = (write cfg chunk_of now now' us fails b a bytes).0
  step b (reads now now' us fails a buf) = (read cfg chunk_of now now' us fails b a buf).0
  step b (verifies us a expected) = (verify_integrity cfg chunk_of hash us b a expected).0

  unfoldable pub run : SimBackend → List Call → SimBackend
  run b [] = b
  run b (c ∷ cs) = run (step b c) cs

  step-Keeps :
      (b : SimBackend) (c : Call)
      → IsSettled b
      → b.io_scheduler.next_id + 1 < 2 ^ 64
      → IsWordSized c
      → Keeps b (step b c)
  unfolding step verify_integrity
  step-Keeps b (allocates us fails size) v i h = allocate-Keeps cfg us fails b size v
  step-Keeps b (deallocates us a) v i h = deallocate-Keeps us b a v h
  step-Keeps b (writes now now' us fails a bytes) v i h =
      write-Keeps cfg chunk_of now now' us fails b a bytes v i
  step-Keeps b (reads now now' us fails a buf) v i h =
      read-Keeps cfg chunk_of now now' us fails b a buf v i
  step-Keeps b (verifies us a expected) v i h =
      Keeps-books b (delayed us b) v refl v.word v.balanced

  run-IsSettled_from :
      (b : SimBackend) (cs : List Call)
      → IsSettled b
      → b.io_scheduler.next_id + length cs < 2 ^ 64
      → All IsWordSized cs
      → IsSettled (run b cs)
  unfolding run
  run-IsSettled_from b [] v i h = v
  run-IsSettled_from b (c ∷ cs) v i h =
      let k = step-Keeps b c v (omega arith) h.0 in
      run-IsSettled_from (step b c) cs k.settled (omega (arith, k.ids)) h.1

  -- After any history of fewer than 2^64 - 1 calls of the simulated tier, whatever fails in it, no
  -- request is left pending, the scheduler has its books in order and room for the next one, and the
  -- used space is, as a 64-bit word, what was allocated less what was given back.
  pub run-IsSettled :
      (cs : List Call) → length cs + 1 < 2 ^ 64 → All IsWordSized cs → IsSettled (run new cs)
  unfolding new new_scheduler pending_count
  run-IsSettled cs i h =
      run-IsSettled_from new cs
        (record {
          accounted = new-IsAccounted 64;
          idle = refl;
          room = omega arith;
          word = omega arith;
          balanced = refl;
        })
        (omega arith) h
