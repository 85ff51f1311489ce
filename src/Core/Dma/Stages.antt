-- ===== src/Core/Dma/Stages.antt =====
-- The life of a transfer under the calls of the pipeline.
use Prim.Native.String.{String}
use ghost_pages.Common.{
  ℕ, suc, ◌^◌, ◌<◌, ◌≤◌, ◌≡◌, refl, sym, ap, subst, ◌∙◌, true, not, List, filter, nat_ord,
  if◌then◌else◌, Option, none, some, arith, Bool-cases, Option-cases, inl, inr, ◌==◌, ==_iff,
}
use ghost_pages.Common.BTreeMap.{get, insert, get-insert}
use ghost_pages.Common.BTreeMap.Sorted.{Sorted, insert-Sorted, filter-Sorted, get-filter}
use ghost_pages.Core.Types.{ChunkId}
use ghost_pages.Core.Dma.{
  DmaStage, pending, submitted, in_progress, completed, failed, is_terminal, is_active, is_pending,
  is_submitted, DmaTransfer, DmaPipeline, emit, submit, terminal, poll, set_stage, mark_submitted,
  mark_in_progress, mark_completed, mark_failed, Call, submits, polls,
}
use ghost_pages.Core.Dma.Polling.{poll_lem}

-- The steps of a transfer.
pub data Step : DmaStage → DmaStage → Type 0 where
  starts : Step pending submitted
  runs : Step submitted in_progress
  finishes : (s : DmaStage) → is_active s ≡ true → Step s completed
  fails : (s : DmaStage) (reason : String) → is_active s ≡ true → Step s (failed reason)

pub data Move {S : Type 0} (c : Call S) (o p : Option DmaStage) : Type 0 where
  stay : p ≡ o → Move c o p
  born : (now : ℕ) (x : S) → c ≡ submits now x → o ≡ none → p ≡ some pending → Move c o p
  moved : (s t : DmaStage) → o ≡ some s → p ≡ some t → Step s t → Move c o p
  handed_over :
      (s : DmaStage) → c ≡ polls → o ≡ some s → is_terminal s ≡ true → p ≡ none → Move c o p

pending_only : (s : DmaStage) → is_pending s ≡ true → Step s submitted
unfolding is_pending
pending_only pending e = starts
pending_only submitted e = cc
pending_only in_progress e = cc
pending_only completed e = cc
pending_only (failed r) e = cc

submitted_only : (s : DmaStage) → is_submitted s ≡ true → Step s in_progress
unfolding is_submitted
submitted_only submitted e = runs
submitted_only pending e = cc
submitted_only in_progress e = cc
submitted_only completed e = cc
submitted_only (failed r) e = cc

clash : {A : Type 0} (o : Option A) (a : A) → o ≡ some a → o ≡ none → ⊥
clash o a g h = cc

module _ {S : Type 0} where
  -- Ids are given out in order: none from the next one on is in use.
  pub record IsNumbered (p : DmaPipeline S) : Type 0 where
    pub sorted : Sorted p.transfers
    pub fresh : (j : ℕ) → p.next_id ≤ j → get j p.transfers ≡ none

  abbrev pub stage_of : Option (DmaTransfer S) → Option DmaStage
  stage_of none = none
  stage_of (some t) = some t.stage

  abbrev pub stage_at : DmaPipeline S → ℕ → Option DmaStage
  stage_at p j = stage_of (get j p.transfers)

  -- A call that re-stages a tracked transfer, and one that does nothing.
  pub data Restages (p q : DmaPipeline S) (id : ℕ) : Type 0 where
    same : q.transfers ≡ p.transfers → q.next_id ≡ p.next_id → Restages p q id
    restaged :
        (t : DmaTransfer S) (next : DmaStage)
        → get id p.transfers ≡ some t
        → Step t.stage next
        → q.transfers ≡ insert id (record t { stage = next }) p.transfers
        → q.next_id ≡ p.next_id
        → Restages p q id

  pub mark_submitted-Restages : (p : DmaPipeline S) (id : ℕ) → Restages p (mark_submitted p id).0 id
  unfolding mark_submitted set_stage
  mark_submitted-Restages p id = elim (Option-cases (get id p.transfers)) [
    | inl e ↦ rw (e, mark_submitted) (same refl refl)
    | inr (t, e) ↦ elim (Bool-cases (is_pending t.stage)) [
      | inl b ↦
          rw (e, b, mark_submitted) (restaged t submitted e (pending_only t.stage b) refl refl)
      | inr b ↦ rw (e, b, mark_submitted) (same refl refl)
    ]
  ]

  pub mark_in_progress-Restages :
      (p : DmaPipeline S) (id : ℕ) → Restages p (mark_in_progress p id).0 id
  unfolding mark_in_progress set_stage
  mark_in_progress-Restages p id = elim (Option-cases (get id p.transfers)) [
    | inl e ↦ rw (e, mark_in_progress) (same refl refl)
    | inr (t, e) ↦ elim (Bool-cases (is_submitted t.stage)) [
      | inl b ↦
          rw (e, b, mark_in_progress)
            (restaged t in_progress e (submitted_only t.stage b) refl refl)
      | inr b ↦ rw (e, b, mark_in_progress) (same refl refl)
    ]
  ]

  pub mark_completed-Restages :
      (chunk_of : ℕ → ChunkId) (now : ℕ) (p : DmaPipeline S) (id : ℕ)
      → Restages p (mark_completed chunk_of now p id).0 id
  unfolding mark_completed set_stage emit
  mark_completed-Restages chunk_of now p id = elim (Option-cases (get id p.transfers)) [
    | inl e ↦ rw (e, mark_completed) (same refl refl)
    | inr (t, e) ↦ elim (Bool-cases (is_active t.stage)) [
      | inl b ↦ rw (e, b, mark_completed) (restaged t completed e (finishes t.stage b) refl refl)
      | inr b ↦ rw (e, b, mark_completed) (same refl refl)
    ]
  ]

  pub mark_failed-Restages :
      (chunk_of : ℕ → ChunkId) (p : DmaPipeline S) (id : ℕ) (reason : String)
      → Restages p (mark_failed chunk_of p id reason).0 id
  unfolding mark_failed set_stage emit
  mark_failed-Restages chunk_of p id reason = elim (Option-cases (get id p.transfers)) [
    | inl e ↦ rw (e, mark_failed) (same refl refl)
    | inr (t, e) ↦ elim (Bool-cases (is_active t.stage)) [
      | inl b ↦
          rw (e, b, mark_failed) (restaged t (failed reason) e (fails t.stage reason b) refl refl)
      | inr b ↦ rw (e, b, mark_failed) (same refl refl)
    ]
  ]

  pub Restages-Move :
      (c : Call S) (p q : DmaPipeline S) (id j : ℕ)
      → Restages p q id
      → Move c (stage_at p j) (stage_at q j)
  Restages-Move c p q id j (same e f) = rw e (stay refl)
  Restages-Move c p q id j (restaged t next g s e f) =
      rw (e, get-insert)
        (elim (Bool-cases (j == id)) [
          | inl h ↦ rw (h, (==_iff j id).0 h, g) (moved t.stage next refl refl s)
          | inr h ↦ rw h (stay refl)
        ])

  pub Restages-IsNumbered :
      (p q : DmaPipeline S) (id : ℕ) → Restages p q id → IsNumbered p → IsNumbered q
  Restages-IsNumbered p q id (same e f) v = record {
    sorted = rw e v.sorted;
    fresh = λ j h. rw e (v.fresh j (omega (arith, f)));
  }
  Restages-IsNumbered p q id (restaged t next g s e f) v = record {
    sorted = rw e (insert-Sorted id _ p.transfers v.sorted);
    fresh = λ j h.
        rw (e, get-insert)
          (elim (Bool-cases (j == id)) [
            | inl k ↦ absurd (tracked j (omega (arith, f)) ((==_iff j id).0 k))
            | inr k ↦ rw k (v.fresh j (omega (arith, f)))
          ]);
  }
    where
      tracked : (j : ℕ) → p.next_id ≤ j → j ≡ id → ⊥
      tracked j h k = clash _ _ g (subst (λ i. get i p.transfers ≡ none) k (v.fresh j h))

  pub submit-Move :
      (now : ℕ) (p : DmaPipeline S) (s : S) (j : ℕ)
      → IsNumbered p
      → Move (submits now s) (stage_at p j) (stage_at (submit now p s).0 j)
  unfolding submit emit
  submit-Move now p s j v = rw get-insert (elim (Bool-cases (j == p.next_id)) [
    | inl h ↦
        let k = (==_iff j p.next_id).0 h in
        rw h (born now s refl (ap stage_of (v.fresh j (omega arith))) refl)
    | inr h ↦ rw h (stay refl)
  ])

  pub submit-IsNumbered :
      (now : ℕ) (p : DmaPipeline S) (s : S)
      → IsNumbered p
      → suc p.next_id < 2 ^ 64
      → IsNumbered (submit now p s).0
  unfolding submit emit
  submit-IsNumbered now p s v h = record {
    sorted = insert-Sorted p.next_id _ p.transfers v.sorted;
    fresh = λ j k. rw get-insert (elim (Bool-cases (j == p.next_id)) [
      | inl e ↦ absurd (ground (arith, (==_iff j p.next_id).0 e))
      | inr e ↦ rw e (v.fresh j (omega arith))
    ]);
  }

  get-poll :
      (p : DmaPipeline S) (j : ℕ)
      → Sorted p.transfers
      → get j (poll p).0.transfers ≡ get j (filter (λ e. not (terminal e)) p.transfers)
  get-poll p j s =
      ap (λ (r : DmaPipeline S × List (DmaTransfer S)). get j r.0.transfers) (poll_lem p s)

  pub poll-Move :
      (p : DmaPipeline S) (j : ℕ)
      → IsNumbered p
      → Move {S = S} polls (stage_at p j) (stage_at (poll p).0 j)
  unfolding terminal
  poll-Move p j v =
      subst (λ o. Move {S = S} polls (stage_at p j) (stage_of o))
        (sym (get-poll p j v.sorted ∙ get-filter (λ e. not (terminal e)) j p.transfers v.sorted))
        (found (get j p.transfers))
    where
      found :
          (o : Option (DmaTransfer S))
          → Move {S = S} polls (stage_of o) (
              stage_of (elim o as (λ _. Option (DmaTransfer S)) [
                | none ↦ none
                | some t ↦ if not (terminal (j, t)) then some t else none
              ]))
      found none = stay refl
      found (some t) = elim (Bool-cases (is_terminal t.stage)) [
        | inl e ↦ rw e (handed_over t.stage refl refl e refl)
        | inr e ↦ rw e (stay refl)
      ]

  pub poll-IsNumbered : (p : DmaPipeline S) → IsNumbered p → IsNumbered (poll p).0
  poll-IsNumbered p v =
      subst (λ (r : DmaPipeline S × List (DmaTransfer S)). IsNumbered r.0)
        (sym (poll_lem p v.sorted))
        (record {
          sorted = filter-Sorted (λ e. not (terminal e)) p.transfers v.sorted;
          fresh = λ j h.
              rw (get-filter (λ e. not (terminal e)) j p.transfers v.sorted, v.fresh j h) refl;
        })
