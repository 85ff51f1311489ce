-- ===== src/Tests/Dma.antt =====
-- The DMA pipeline, with a submission that is a number.
use ghost_pages.Common.{ℕ, ◌≡◌, ◌++◌, refl, List, [], ◌∷◌, map, filter, not, nat_ord, arith}
use ghost_pages.Common.BTreeMap.Sorted.{keys, values}
use ghost_pages.Core.Dma.{
  DmaPipeline, new, pending, completed, queue_dequeue, terminal, poll, Call, submits, polls,
  marks_submitted, marks_completed, apply, run,
}
use ghost_pages.Core.Dma.Polling.{poll_lem}
use ghost_pages.Core.Dma.Stages.{Move, stage_at}
use ghost_pages.Core.Dma.Histories.{run-Move}

abbrev pipeline : DmaPipeline ℕ
pipeline = record {
  transfers =
      (1, record { id = 1; stage = completed; submission = 10; submitted_at = 0 })
      ∷ (2, record { id = 2; stage = pending; submission = 20; submitted_at = 5 })
      ∷ [];
  next_id = 3;
  emitted = [];
}

poll_lem_example : poll pipeline ≡ (
  record pipeline {
    transfers = filter (λ e. not (terminal e)) pipeline.transfers;
    emitted = [] ++ map queue_dequeue (keys (filter terminal pipeline.transfers));
  },
  values (filter terminal pipeline.transfers),
)
poll_lem_example = poll_lem pipeline ((refl, tt), (tt, tt))

abbrev calls : List (Call ℕ)
calls = submits 1 10 ∷ marks_submitted 1 ∷ marks_completed 9 1 ∷ []

run-Move_example :
    let p = run (λ id. id) (new {S = ℕ}) calls in
    Move {S = ℕ} polls (stage_at p 1) (stage_at (apply (λ id. id) p polls) 1)
run-Move_example = run-Move (λ id. id) calls polls 1 (omega arith)
