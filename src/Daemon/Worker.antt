-- ===== src/Daemon/Worker.antt =====
-- crates/ghost-daemon/src/worker.rs: `execute_transfer`, the transfer of one job with its retries,
-- over backends that are given by their operations. `events` lists what is recorded in the trace log
-- and `delays` the sleeps in milliseconds, oldest first; `clock` gives the time stamp of each event
-- and `elapsed` the duration of the transfer. Unified events and metrics are left out.
pub mod Retries
use ghost_pages.Common.{
  ℕ, zero, suc, ◌+◌, ◌-◌, ◌*◌, ◌%◌, ◌^◌, min, Bool, true, false, ◌&&◌, List, [], ◌∷◌, ◌++◌, Option,
  none, some, length, ltb, ◌==◌, if◌then◌else◌,
}
use ghost_pages.Core.Types.{
  TierId, tier_eqb, GhostError, GhostResult, Result, ok, err, tier_unavailable, backend_error,
  internal,
}
use ghost_pages.Core.State.{stored, migrating}
use ghost_pages.Core.Transfer.{
  TransferJob, TransferState, transferring, compressing, writing, verifying, complete, failed,
  record_attempt, transition_state,
}
use ghost_pages.Core.Trace.{
  TraceEvent, transfer_started, transfer_retry, chunk_state_changed, compression_started,
  compression_completed, transfer_completed,
}
use ghost_pages.Tier.Backend.{Allocation, BackendError, StorageBackend}

pub record WorkerPoolConfig : Type 0 where
  pub max_retries : ℕ
  pub retry_base_delay_ms : ℕ
  pub max_retry_delay_ms : ℕ
  pub enable_compression : Bool

-- The map from tiers to backends.
abbrev pub Backends : Type 0 → Type 0
Backends B = TierId → Option B

abbrev pub with_backend : {B : Type 0} → TierId → B → Backends B → Backends B
with_backend t b bs = λ u. if tier_eqb u t then some b else bs u

pub record Transfer (B F : Type 0) : Type 0 where
  pub job : TransferJob
  pub backends : Backends B
  pub events : List (TraceEvent F)
  pub delays : List ℕ

-- How one attempt ends: with success, to be tried again, or at once, by a `?`.
pub data Attempt : Type 0 where
  succeeded : Attempt
  again gives_up : GhostError → Attempt

-- The delay before a retry; the shift of a 64-bit word takes its distance modulo 64.
unfoldable pub delay_before : WorkerPoolConfig → ℕ → ℕ
delay_before cfg attempt =
    min (cfg.retry_base_delay_ms * (2 ^ ((attempt - 1) % 64)) % 2 ^ 64) cfg.max_retry_delay_ms

unfoldable pub zeros : ℕ → List ℕ
zeros zero = []
zeros (suc n) = 0 ∷ zeros n

unfoldable pub last_or_internal : Option GhostError → GhostError
last_or_internal none = internal
last_or_internal (some e) = e

module _ {B : Type 0} (ops : StorageBackend B) where
  abbrev pub deallocated : {A : Type 0} → A → B × Result BackendError (Unit {0}) → B × GhostResult A
  deallocated a (b, err e) = (b, err backend_error)
  deallocated a (b, ok _) = (b, ok a)

  abbrev pub was_read : Allocation → B × Result BackendError (List ℕ) → B × GhostResult (List ℕ)
  was_read a (b, err e) = (b, err backend_error)
  was_read a (b, ok buf) = deallocated buf (ops.deallocate b a)

  abbrev pub filled : ℕ → Allocation → B × Result BackendError (Unit {0}) → B × GhostResult (List ℕ)
  filled size a (b, err e) = (b, err backend_error)
  filled size a (b, ok _) = was_read a (ops.read b a (zeros size))

  abbrev pub allocated_to_read : ℕ → B × Result BackendError Allocation → B × GhostResult (List ℕ)
  allocated_to_read size (b, err e) = (b, err backend_error)
  allocated_to_read size (b, ok a) = filled size a (ops.write b a (zeros size))

  unfoldable pub read_from_backend : B → ℕ → B × GhostResult (List ℕ)
  read_from_backend b size = allocated_to_read size (ops.allocate b size)

  abbrev pub was_written :
      Allocation → B × Result BackendError (Unit {0}) → B × GhostResult (Unit {0})
  was_written a (b, err e) = (b, err backend_error)
  was_written a (b, ok _) = deallocated tt (ops.deallocate b a)

  abbrev pub allocated_to_write :
      List ℕ → B × Result BackendError Allocation → B × GhostResult (Unit {0})
  allocated_to_write bytes (b, err e) = (b, err backend_error)
  allocated_to_write bytes (b, ok a) = was_written a (ops.write b a bytes)

  unfoldable pub write_to_backend : B → List ℕ → B × GhostResult (Unit {0})
  write_to_backend b bytes = allocated_to_write bytes (ops.allocate b (length bytes))

  module _ {F : Type 0} (cfg : WorkerPoolConfig) (clock : ℕ → ℕ) (elapsed : ℕ) where
    abbrev pub log : (ℕ → TraceEvent F) → Transfer B F → Transfer B F
    log e s = record s { events = s.events ++ e (clock (length s.events)) ∷ [] }

    abbrev pub stage : TransferState → Transfer B F → Transfer B F
    stage next s = record s { job = transition_state s.job next }

    abbrev pub finish : Transfer B F → Transfer B F
    finish s =
        log (transfer_completed s.job.chunk_id s.job.from_tier s.job.to_tier s.job.size elapsed)
          (stage complete (stage verifying s))

    -- Compression passes the data through.
    abbrev pub compress : Bool → Transfer B F → Transfer B F
    compress true s =
        log (compression_completed s.job.chunk_id s.job.size s.job.size)
          (log (compression_started s.job.chunk_id s.job.size) (stage compressing s))
    compress false s = s

    unfoldable pub written : Transfer B F → B × GhostResult (Unit {0}) → Transfer B F × Attempt
    written s (b, err e) =
        (record s { backends = with_backend s.job.to_tier b s.backends }, again backend_error)
    written s (b, ok _) =
        (finish (record s { backends = with_backend s.job.to_tier b s.backends }), succeeded)

    unfoldable pub to_target : Transfer B F → List ℕ → Option B → Transfer B F × Attempt
    unfolding written write_to_backend
    to_target s bytes none = (s, gives_up (tier_unavailable s.job.to_tier))
    to_target s bytes (some b) = written s (write_to_backend b bytes)

    unfoldable pub was_fetched : Transfer B F → B × GhostResult (List ℕ) → Transfer B F × Attempt
    unfolding to_target
    was_fetched s (b, err e) =
        (record s { backends = with_backend s.job.from_tier b s.backends }, gives_up e)
    was_fetched s (b, ok bytes) =
        let s' = record s { backends = with_backend s.job.from_tier b s.backends } in
        let s'' = stage writing (compress (cfg.enable_compression && ltb 0 s'.job.size) s') in
        to_target s'' bytes (s''.backends s''.job.to_tier)

    unfoldable pub from_source : Transfer B F → Option B → Transfer B F × Attempt
    unfolding was_fetched read_from_backend
    from_source s none = (s, gives_up (tier_unavailable s.job.from_tier))
    from_source s (some b) = was_fetched s (read_from_backend b s.job.size)

    -- The body of the loop after the pause.
    unfoldable pub try_once : Transfer B F → Transfer B F × Attempt
    unfolding from_source
    try_once s =
        let s' = log (chunk_state_changed s.job.chunk_id stored migrating) (stage transferring s) in
        from_source s' (s'.backends s'.job.from_tier)

    -- What comes before every attempt but the first.
    unfoldable pub pause : ℕ → Transfer B F → Transfer B F
    unfolding delay_before
    pause zero s = s
    pause (suc n) s =
        let j = record_attempt s.job in
        let s' =
          log (transfer_retry j.chunk_id j.from_tier j.to_tier (suc n)) (record s { job = j }) in
        record s' { delays = s'.delays ++ delay_before cfg (suc n) ∷ [] }

    abbrev pub continue :
        (Option GhostError → Transfer B F → Transfer B F × GhostResult (Unit {0}))
        → Transfer B F × Attempt
        → Transfer B F × GhostResult (Unit {0})
    continue more (s, succeeded) = (s, ok tt)
    continue more (s, again e) = more (some e) s
    continue more (s, gives_up e) = (s, err e)

    -- `for attempt in 0..=max_retries`, with the number of attempts that are left.
    unfoldable pub attempts :
        (left attempt : ℕ)
        → Option GhostError
        → Transfer B F
        → Transfer B F × GhostResult (Unit {0})
    unfolding try_once pause last_or_internal
    attempts zero attempt last s = (stage failed s, err (last_or_internal last))
    attempts (suc left) attempt last s =
        continue (attempts left (suc attempt)) (try_once (pause attempt s))

    unfoldable pub execute_transfer :
        TransferJob → Backends B → Transfer B F × GhostResult (Unit {0})
    unfolding attempts
    execute_transfer job backends = attempts (suc cfg.max_retries) 0 none (
        log (transfer_started job)
          (record { job = job; backends = backends; events = []; delays = [] }))
