-- ===== src/Tier/Sim.antt =====
-- crates/ghost-tier/src/sim_backend.rs and sim_config.rs: the simulated tier. The
-- delays and the failures that the generator of random numbers draws, the readings of the clock, the
-- hash and the id that an offset is given for the I/O scheduler are arguments. Each operation is one
-- step; the word size is 64 bits and arithmetic wraps, as in a release build.
pub mod Metrics
pub mod Steps
pub mod Histories
use Prim.Native.String.{String}
use ghost_pages.Common.{
  ℕ, ◌+◌, ◌-◌, ◌%◌, ◌^◌, min, Bool, true, false, not, ◌||◌, List, [], ◌∷◌, Option, none, some, map,
  length, ltb, ◌==◌, if◌then◌else◌, nat_ord,
}
use ghost_pages.Common.BTreeMap.{BTreeMap, get, insert, remove, contains_key}
use ghost_pages.Core.Types.{ChunkId, simulation, GhostResult, Result, ok, err}
use ghost_pages.Core.IoScheduler.{IoOperation, IoScheduler, issue, complete, new as new_scheduler}
use ghost_pages.Tier.Backend.{
  Allocation, BackendError, insufficient_space, allocation_not_found, write_failed, read_failed,
  integrity_failed, internal,
}
use ghost_pages.Tier.Sim.Metrics.{
  SimMetrics, no_metrics, plus, record_alloc, record_dealloc, record_write, record_read,
  record_failure, record_latency,
}
use ghost_pages.Tier.Ram.{minus, fill}

-- The part of the configuration that the operations read. `keeps` is the share of the free space
-- that fragmentation leaves, rounded down, and `no_factor` says that its factor is not above 0.
pub record SimConfig : Type 0 where
  pub capacity : ℕ
  pub simulate_fragmentation : Bool
  pub no_factor : Bool
  pub keeps : ℕ → ℕ
  pub corruption_on_failure : Bool

pub record SimBackend : Type 0 where
  pub storage : BTreeMap ℕ (List ℕ)
  pub next_offset : ℕ
  pub used : ℕ
  pub metrics : SimMetrics
  pub allocated_offsets : BTreeMap ℕ (Unit {0})
  pub io_scheduler : IoScheduler

unfoldable pub new : SimBackend
new = record {
  storage = [];
  next_offset = 0;
  used = 0;
  metrics = no_metrics;
  allocated_offsets = [];
  io_scheduler = new_scheduler 64;
}

-- An operation after the delay that was drawn for it.
unfoldable pub delayed : ℕ → SimBackend → SimBackend
unfolding record_latency
delayed us b = record b { metrics = record_latency us b.metrics }

unfoldable pub failed : SimBackend → SimBackend
unfolding record_failure
failed b = record b { metrics = record_failure b.metrics }

-- The request has just been issued, so `complete` does not panic.
unfoldable pub settle : (now : ℕ) → IoScheduler → ℕ → Result String (Unit {0}) → IoScheduler
settle now s id result = elim (complete now s id result) [ none ↦ s | some s' ↦ s' ]

unfoldable pub effective_available : SimConfig → SimBackend → ℕ
effective_available cfg b =
    let raw_available = cfg.capacity - b.used in
    if not cfg.simulate_fragmentation || cfg.no_factor
    then raw_available
    else cfg.keeps raw_available

unfoldable pub allocate :
    SimConfig
    → (us : ℕ) (fails : Bool) → SimBackend
    → ℕ
    → SimBackend × Result BackendError Allocation
unfolding effective_available delayed failed record_alloc
allocate cfg us fails b size =
    let b' = delayed us b in
    let free = effective_available cfg b' in
    if size == 0
    then (b, err internal)
    else if fails
    then (failed b', err internal)
    else if ltb free size
    then (b', err (insufficient_space size free))
    else (
      record b' {
        next_offset = plus b.next_offset size;
        used = plus b.used size;
        allocated_offsets = insert b.next_offset tt b.allocated_offsets;
        metrics = record_alloc size b'.metrics;
      },
      ok (record { offset = b.next_offset; size = size }),
    )

unfoldable pub deallocate :
    (us : ℕ) → SimBackend → Allocation → SimBackend × Result BackendError (Unit {0})
unfolding delayed record_dealloc
deallocate us b a =
    let b' = delayed us b in
    if not (contains_key a.offset b.allocated_offsets)
    then (b', err (allocation_not_found a.offset))
    else (
      record b' {
        allocated_offsets = remove a.offset b.allocated_offsets;
        storage = remove a.offset b.storage;
        used = minus b.used a.size;
        metrics = record_dealloc a.size b'.metrics;
      },
      ok tt,
    )

-- Bytes of all ones, as many as there were.
abbrev pub corrupted : List ℕ → List ℕ
corrupted = map (λ b. 255)

abbrev pub on_issued {ℓ} :
    {A : Type ℓ}
    → SimBackend
    → IoScheduler × GhostResult ℕ
    → (SimBackend → ℕ → SimBackend × Result BackendError A)
    → SimBackend × Result BackendError A
on_issued b (s, err e) f = (record b { io_scheduler = s }, err internal)
on_issued b (s, ok id) f = f (record b { io_scheduler = s }) id

module _ (cfg : SimConfig) (chunk_of : ℕ → ChunkId) where
  unfoldable pub write :
      (now now' us : ℕ) (fails : Bool)
      → SimBackend
      → Allocation
      → List ℕ
      → SimBackend × Result BackendError (Unit {0})
  unfolding delayed failed settle record_write
  write now now' us fails b a bytes =
      if ltb a.size (length bytes)
      then (b, err write_failed)
      else on_issued b (issue now b.io_scheduler IoOperation.write (chunk_of a.offset) simulation)
          (λ b' id.
            let late = delayed us b' in
            let broken = failed late in
            if fails
            then (
              record broken {
                storage =
                    if cfg.corruption_on_failure
                    then insert a.offset (corrupted bytes) b.storage
                    else b.storage;
                io_scheduler = settle now' b'.io_scheduler id (err "simulated write failure");
              },
              err write_failed,
            )
            else (
              record late {
                storage = insert a.offset bytes b.storage;
                io_scheduler = settle now' b'.io_scheduler id (ok tt);
                metrics = record_write (length bytes) late.metrics;
              },
              ok tt,
            ))

  unfoldable pub found :
      (now : ℕ)
      → SimBackend
      → ℕ
      → Allocation
      → List ℕ
      → Option (List ℕ)
      → SimBackend × Result BackendError (List ℕ)
  unfolding settle record_read
  found now b id a buf none = (
    record b { io_scheduler = settle now b.io_scheduler id (err "allocation not found") },
    err (allocation_not_found a.offset),
  )
  found now b id a buf (some bytes) = (
    record b {
      io_scheduler = settle now b.io_scheduler id (ok tt);
      metrics = record_read (min (length buf) (length bytes)) b.metrics;
    },
    ok (fill buf bytes),
  )

  -- The buffer after the call, where it succeeds.
  unfoldable pub read :
      (now now' us : ℕ) (fails : Bool)
      → SimBackend
      → Allocation
      → List ℕ
      → SimBackend × Result BackendError (List ℕ)
  unfolding delayed failed settle found
  read now now' us fails b a buf =
      if ltb a.size (length buf)
      then (b, err read_failed)
      else on_issued b (issue now b.io_scheduler IoOperation.read (chunk_of a.offset) simulation)
          (λ b' id.
            let late = delayed us b' in
            let broken = failed late in
            if fails
            then (
              record broken {
                io_scheduler = settle now' b'.io_scheduler id (err "simulated read failure");
              },
              err read_failed,
            )
            else found now' late id a buf (get a.offset b.storage))

  unfoldable pub verify_integrity :
      (List ℕ → ℕ)
      → (us : ℕ) → SimBackend
      → Allocation
      → ℕ
      → SimBackend × Result BackendError (Unit {0})
  unfolding delayed
  verify_integrity hash us b a expected = (
    delayed us b,
    elim (get a.offset b.storage) [
      | none ↦ err (allocation_not_found a.offset)
      | some bytes ↦ if hash bytes == expected then ok tt else err integrity_failed
    ],
  )
