-- ===== src/Core/Dma/Histories.antt =====
-- Transfers over whole histories of calls.
use ghost_pages.Common.{ℕ, suc, ◌+◌, ◌^◌, ◌<◌, ◌≤◌, refl, List, [], ◌∷◌, nat_ord, arith, length}
use ghost_pages.Common.BTreeMap.{get}
use ghost_pages.Core.Types.{ChunkId}
use ghost_pages.Core.Dma.{
  DmaPipeline, new, emit, submit, poll, Call, submits, polls, marks_submitted, marks_in_progress,
  marks_completed, marks_failed, apply, run,
}
use ghost_pages.Core.Dma.Stages.{
  Move, IsNumbered, stage_at, Restages, same, restaged, mark_submitted-Restages,
  mark_in_progress-Restages, mark_completed-Restages, mark_failed-Restages, Restages-Move,
  Restages-IsNumbered, submit-Move, submit-IsNumbered, poll-Move, poll-IsNumbered,
}

module _ {S : Type 0} where
  module _ (chunk_of : ℕ → ChunkId) where
    apply-Move :
        (p : DmaPipeline S) (c : Call S) (j : ℕ)
        → IsNumbered p
        → Move c (stage_at p j) (stage_at (apply chunk_of p c) j)
    unfolding apply
    apply-Move p (submits now s) j v = submit-Move now p s j v
    apply-Move p polls j v = poll-Move p j v
    apply-Move p (marks_submitted id) j v = Restages-Move _ p _ id j (mark_submitted-Restages p id)
    apply-Move p (marks_in_progress id) j v =
        Restages-Move _ p _ id j (mark_in_progress-Restages p id)
    apply-Move p (marks_completed now id) j v =
        Restages-Move _ p _ id j (mark_completed-Restages chunk_of now p id)
    apply-Move p (marks_failed id reason) j v =
        Restages-Move _ p _ id j (mark_failed-Restages chunk_of p id reason)

    -- After a call ids are still given out in order, and at most one was.
    abbrev Goes : DmaPipeline S → DmaPipeline S → Type 0
    Goes p q = IsNumbered q × (q.next_id ≤ suc p.next_id)

    Restages-Goes : (p q : DmaPipeline S) (id : ℕ) → Restages p q id → IsNumbered p → Goes p q
    Restages-Goes p q id (same e f) v = (Restages-IsNumbered p q id (same e f) v, omega (arith, f))
    Restages-Goes p q id (restaged t next g s e f) v =
        (Restages-IsNumbered p q id (restaged t next g s e f) v, omega (arith, f))

    submit-next_id :
        (now : ℕ) (p : DmaPipeline S) (s : S) → (submit now p s).0.next_id ≤ suc p.next_id
    unfolding submit emit
    submit-next_id now p s = omega arith

    poll-next_id : (p : DmaPipeline S) → (poll p).0.next_id ≤ suc p.next_id
    unfolding poll
    poll-next_id p = omega arith

    apply-Goes :
        (p : DmaPipeline S) (c : Call S)
        → IsNumbered p
        → suc p.next_id < 2 ^ 64
        → Goes p (apply chunk_of p c)
    unfolding apply
    apply-Goes p (submits now s) v h = (submit-IsNumbered now p s v h, submit-next_id now p s)
    apply-Goes p polls v h = (poll-IsNumbered p v, poll-next_id p)
    apply-Goes p (marks_submitted id) v h = Restages-Goes p _ id (mark_submitted-Restages p id) v
    apply-Goes p (marks_in_progress id) v h =
        Restages-Goes p _ id (mark_in_progress-Restages p id) v
    apply-Goes p (marks_completed now id) v h =
        Restages-Goes p _ id (mark_completed-Restages chunk_of now p id) v
    apply-Goes p (marks_failed id reason) v h =
        Restages-Goes p _ id (mark_failed-Restages chunk_of p id reason) v

    run-IsNumbered :
        (p : DmaPipeline S) (cs : List (Call S))
        → IsNumbered p
        → p.next_id + length cs < 2 ^ 64
        → IsNumbered (run chunk_of p cs)
    unfolding run
    run-IsNumbered p [] v h = v
    run-IsNumbered p (c ∷ cs) v h =
        let (w, le) = apply-Goes p c v (omega arith) in
        run-IsNumbered (apply chunk_of p c) cs w (omega (arith, le))

    new-IsNumbered : IsNumbered (new {S = S})
    unfolding new get
    new-IsNumbered = record { sorted = tt; fresh = λ j h. refl }

    -- From an empty pipeline, after any history of fewer than 2^64 - 1 calls, the next call moves
    -- every transfer along its stages: an id that is not tracked becomes a pending transfer, by a
    -- submission only; a tracked one goes from pending to submitted to in progress, and from the
    -- latter two to completed or failed; it leaves only by a poll, and then in a terminal stage.
    pub run-Move :
        (cs : List (Call S)) (c : Call S) (j : ℕ)
        → length cs + 1 < 2 ^ 64
        → let p = run chunk_of (new {S = S}) cs in
          Move c (stage_at p j) (stage_at (apply chunk_of p c) j)
    unfolding new
    run-Move cs c j h =
        apply-Move (run chunk_of new cs) c j (run-IsNumbered new cs new-IsNumbered (omega arith))
