-- ===== src/Core/Dma.antt =====
-- crates/ghost-core/src/dma_pipeline.rs: the staged transfers. The submission (buffers of the
-- device) is of a parameter type, `Instant` is a number of nanoseconds, and `emitted` lists what is
-- handed to the event emitter. The id of a transfer's chunk (a hash) is a parameter. `get_mut`,
-- which lends a transfer to the caller, and the fences are left out.
pub mod Stages
pub mod Polling
pub mod Histories
use Prim.Native.String.{String}
use ghost_pages.Common.{
  ℕ, ◌+◌, ◌-◌, ◌/◌, ◌%◌, ◌^◌, Bool, true, false, List, [], ◌∷◌, ◌++◌, map, Option, none, some,
  length, filter, if◌then◌else◌, ◌==◌, nat_ord,
}
use ghost_pages.Common.BTreeMap.{BTreeMap, get, insert}
use ghost_pages.Common.BTreeMap.Sorted.{keys, remove_each}
use ghost_pages.Core.Types.{ChunkId, GhostResult, ok, err, internal}

pub data DmaStage : Type 0 where
  pending submitted in_progress completed : DmaStage
  failed : String → DmaStage

unfoldable pub is_terminal : DmaStage → Bool
is_terminal completed = true
is_terminal (failed _) = true
is_terminal _ = false

unfoldable pub is_active : DmaStage → Bool
is_active submitted = true
is_active in_progress = true
is_active _ = false

unfoldable pub is_pending : DmaStage → Bool
is_pending pending = true
is_pending _ = false

unfoldable pub is_submitted : DmaStage → Bool
is_submitted submitted = true
is_submitted _ = false

pub record DmaTransfer (S : Type 0) : Type 0 where
  pub id : ℕ
  pub stage : DmaStage
  pub submission : S
  pub submitted_at : ℕ

pub data DmaEvent : Type 0 where
  queue_enqueue : (task_id : ℕ) → DmaEvent
  queue_dequeue : (task_id : ℕ) → DmaEvent
  transfer_completed : ChunkId → (duration_ms : ℕ) → DmaEvent
  transfer_failed : ChunkId → (reason : String) → DmaEvent

pub record DmaPipeline (S : Type 0) : Type 0 where
  pub transfers : BTreeMap ℕ (DmaTransfer S)
  pub next_id : ℕ
  pub emitted : List DmaEvent

module _ {S : Type 0} where
  unfoldable pub new : DmaPipeline S
  new = record { transfers = []; next_id = 1; emitted = [] }

  -- `try_emit`.
  unfoldable pub emit : DmaEvent → DmaPipeline S → DmaPipeline S
  emit e p = record p { emitted = p.emitted ++ e ∷ [] }

  unfoldable pub submit : (now : ℕ) → DmaPipeline S → S → DmaPipeline S × ℕ
  unfolding emit
  submit now p submission =
      let id = p.next_id in
      (
        emit (queue_enqueue id) (record p {
          transfers =
              insert id
                (record { id = id; stage = pending; submission = submission; submitted_at = now })
                p.transfers;
          next_id = (p.next_id + 1) % 2 ^ 64;
        }),
        id,
      )

  unfoldable pub terminal : ℕ × DmaTransfer S → Bool
  unfolding is_terminal
  terminal e = is_terminal e.1.stage

  -- Every id that `poll` removes is tracked, so that each one is announced.
  unfoldable pub poll : DmaPipeline S → DmaPipeline S × List (DmaTransfer S)
  unfolding terminal
  poll p =
      let completed_ids = keys (filter terminal p.transfers) in
      let (rest, done) = remove_each completed_ids p.transfers in
      (record p { transfers = rest; emitted = p.emitted ++ map queue_dequeue completed_ids }, done)

  unfoldable pub get_transfer : DmaPipeline S → ℕ → Option (DmaTransfer S)
  get_transfer p id = get id p.transfers

  -- The assignment to the stage of a tracked transfer.
  unfoldable pub set_stage : ℕ → DmaTransfer S → DmaStage → DmaPipeline S → DmaPipeline S
  set_stage id t stage p = record p {
    transfers = insert id (record t { stage = stage }) p.transfers;
  }

  unfoldable pub mark_submitted : DmaPipeline S → ℕ → DmaPipeline S × GhostResult (Unit {0})
  unfolding is_pending set_stage
  mark_submitted p id = elim (get id p.transfers) [
    | none ↦ (p, err internal)
    | some t ↦ if is_pending t.stage then (set_stage id t submitted p, ok tt) else (p, err internal)
  ]

  unfoldable pub mark_in_progress : DmaPipeline S → ℕ → DmaPipeline S × GhostResult (Unit {0})
  unfolding is_submitted set_stage
  mark_in_progress p id = elim (get id p.transfers) [
    | none ↦ (p, err internal)
    | some t ↦
        if is_submitted t.stage then (set_stage id t in_progress p, ok tt) else (p, err internal)
  ]

  module _ (chunk_of : ℕ → ChunkId) where
    unfoldable pub mark_completed :
        (now : ℕ) → DmaPipeline S → ℕ → DmaPipeline S × GhostResult (Unit {0})
    unfolding is_active set_stage emit
    mark_completed now p id = elim (get id p.transfers) [
      | none ↦ (p, err internal)
      | some t ↦
          if is_active t.stage
          then (
            emit (transfer_completed (chunk_of id) ((now - t.submitted_at) / 1_000_000 % 2 ^ 64))
                (set_stage id t completed p),
            ok tt,
          )
          else (p, err internal)
    ]

    unfoldable pub mark_failed : DmaPipeline S → ℕ → String → DmaPipeline S × GhostResult (Unit {0})
    unfolding is_active set_stage emit
    mark_failed p id reason = elim (get id p.transfers) [
      | none ↦ (p, err internal)
      | some t ↦
          if is_active t.stage
          then (
            emit (transfer_failed (chunk_of id) reason) (set_stage id t (failed reason) p),
            ok tt,
          )
          else (p, err internal)
    ]

  unfoldable pub len : DmaPipeline S → ℕ
  len p = length p.transfers

  unfoldable pub is_empty : DmaPipeline S → Bool
  is_empty p = length p.transfers == 0

-- The calls that change the pipeline.
pub data Call (S : Type 0) : Type 0 where
  submits : (now : ℕ) → S → Call S
  polls : Call S
  marks_submitted marks_in_progress : ℕ → Call S
  marks_completed : (now : ℕ) → ℕ → Call S
  marks_failed : ℕ → String → Call S

unfoldable pub apply : {S : Type 0} → (ℕ → ChunkId) → DmaPipeline S → Call S → DmaPipeline S
apply chunk_of p (submits now s) = (submit now p s).0
apply chunk_of p polls = (poll p).0
apply chunk_of p (marks_submitted id) = (mark_submitted p id).0
apply chunk_of p (marks_in_progress id) = (mark_in_progress p id).0
apply chunk_of p (marks_completed now id) = (mark_completed chunk_of now p id).0
apply chunk_of p (marks_failed id reason) = (mark_failed chunk_of p id reason).0

unfoldable pub run : {S : Type 0} → (ℕ → ChunkId) → DmaPipeline S → List (Call S) → DmaPipeline S
run chunk_of p [] = p
run chunk_of p (c ∷ cs) = run chunk_of (apply chunk_of p c) cs
