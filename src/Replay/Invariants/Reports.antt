-- ===== src/Replay/Invariants/Reports.antt =====
-- Which chunks the validators of transfers and allocations report.
use ghost_pages.Common.{
  ℕ, suc, ◌≡◌, refl, sym, ap, ◌∙◌, Bool, true, false, not, ◌&&◌, ◌||◌, Option, none, some, List, [],
  ◌∷◌, map, filter, if◌then◌else◌, ◌==◌, Bool-cases, Option-cases, inl, inr, nat_ord, ==_iff,
}
use ghost_pages.Common.BTreeMap.{
  get, insert, remove, contains_key, get-insert, contains_key-insert, contains_key-remove,
}
use ghost_pages.Core.Types.{ChunkId}
use ghost_pages.Core.Trace.{
  TraceEvent, chunk_created, chunk_deleted, transfer_started, transfer_completed, transfer_failed,
  transfer_cancelled,
}
use ghost_pages.Replay.Invariants.{
  InvariantViolation, Tracked, or_unset, flag, or_false, orphan, dangling, missing, started,
  no_orphaned_transfers, seen, no_dangling_allocations, pending, no_missing_completions,
}

abbrev about : ChunkId → Option ChunkId → Bool
about id none = false
about id (some j) = id == j

-- Some violation is about the chunk.
abbrev pub reported : ChunkId → List InvariantViolation → Bool
reported id [] = false
reported id (v ∷ vs) = about id v.chunk_id || reported id vs

and_false : (b : Bool) → (b && false) ≡ false
and_false true = refl
and_false false = refl

or_none : (b : Bool) → b ≡ (b || false)
or_none true = refl
or_none false = refl

or_swap : (x y z : Bool) → ((x || y) || z) ≡ (y || (x || z))
or_swap true true z = refl
or_swap true false z = refl
or_swap false y z = refl

module _ {V : Type 0} where
  contains_key-cons :
      (id j : ChunkId) (v : V) (m : Tracked V)
      → contains_key id ((j, v) ∷ m) ≡ ((id == j) || contains_key id m)
  unfolding contains_key get
  contains_key-cons id j v m = elim (Bool-cases (id == j)) [
    | inl e ↦ rw (e, contains_key, get) refl
    | inr e ↦ rw (e, contains_key, get) refl
  ]

  reported-map :
      (id : ChunkId) (f : ChunkId × V → InvariantViolation) (m : Tracked V)
      → ((e : ChunkId × V) → (f e).chunk_id ≡ some e.0)
      → reported id (map f m) ≡ contains_key id m
  unfolding contains_key get
  reported-map id f [] h = refl
  reported-map id f ((j, v) ∷ m) h =
      rw (h (j, v), reported-map id f m h) (sym (contains_key-cons id j v m))

  contains_key-filter :
      (id : ChunkId) (p : ChunkId → Bool) (m : Tracked V)
      → contains_key id (filter (λ e. p e.0) m) ≡ (contains_key id m && p id)
  contains_key-filter id p [] = unfold contains_key get in refl
  contains_key-filter id p ((j, v) ∷ m) =
      let ih = contains_key-filter id p m in
      elim (Bool-cases (id == j)) [
        | inl e ↦
            let same : id ≡ j = (==_iff id j).0 e in
            elim (Bool-cases (p j)) [
              | inl q ↦
                  let q' : p id ≡ true = rw same q in
                  rw (q, contains_key-cons, contains_key-cons, e, q') refl
              | inr q ↦
                  let q' : p id ≡ false = rw same q in
                  rw (q, contains_key-cons, e, q') (ih ∙ rw q' (and_false (contains_key id m)))
            ]
        | inr e ↦ elim (Bool-cases (p j)) [
          | inl q ↦ rw (q, contains_key-cons, contains_key-cons, e) ih
          | inr q ↦ rw (q, contains_key-cons, e) ih
        ]
      ]

contains_key-insert_or :
    {V : Type 0} (id j : ChunkId) (v : V) (m : Tracked V)
    → contains_key id (insert j v m) ≡ ((id == j) || contains_key id m)
contains_key-insert_or id j v m = elim (Bool-cases (id == j)) [
  | inl e ↦ rw (contains_key-insert, e) refl
  | inr e ↦ rw (contains_key-insert, e) refl
]

flag-insert :
    (id j : ChunkId) (m : Tracked Bool) → flag id (insert j true m) ≡ ((id == j) || flag id m)
unfolding flag
flag-insert id j m =
    ap or_unset (get-insert j id true m)
    ∙ elim (Bool-cases (id == j)) [ inl e ↦ rw e refl | inr e ↦ rw e refl ]

flag-or_false : (id j : ChunkId) (m : Tracked Bool) → flag id (or_false j m) ≡ flag id m
unfolding flag or_false contains_key
flag-or_false id j m = elim (Option-cases (get j m)) [
  | inl e ↦
      let old : id ≡ j → or_unset (get id m) ≡ false = λ h. rw h (ap or_unset e) in
      rw (e, or_false, contains_key)
        (ap or_unset (get-insert j id false m) ∙ elim (Bool-cases (id == j)) [
          | inl h ↦ rw h (sym (old ((==_iff id j).0 h)))
          | inr h ↦ rw h refl
        ])
  | inr (b, e) ↦ rw (e, or_false, contains_key) refl
]

module _ {F : Type 0} where
  -- A transfer of the chunk starts; one completes or fails; the chunk is created; it is deleted.
  abbrev pub starts : ChunkId → List (TraceEvent F) → Bool
  starts id [] = false
  starts id (transfer_started job _ ∷ es) = (id == job.chunk_id) || starts id es
  starts id (_ ∷ es) = starts id es

  abbrev pub finishes : ChunkId → List (TraceEvent F) → Bool
  finishes id [] = false
  finishes id (transfer_completed j _ _ _ _ _ ∷ es) = (id == j) || finishes id es
  finishes id (transfer_failed j _ _ _ _ _ ∷ es) = (id == j) || finishes id es
  finishes id (_ ∷ es) = finishes id es

  abbrev pub creates : ChunkId → List (TraceEvent F) → Bool
  creates id [] = false
  creates id (chunk_created j _ _ _ ∷ es) = (id == j) || creates id es
  creates id (_ ∷ es) = creates id es

  abbrev pub deletes : ChunkId → List (TraceEvent F) → Bool
  deletes id [] = false
  deletes id (chunk_deleted j _ _ ∷ es) = (id == j) || deletes id es
  deletes id (_ ∷ es) = deletes id es

  started-starts :
      (id : ChunkId) (i : ℕ) (es : List (TraceEvent F)) (m : Tracked ℕ) (done : Tracked Bool)
      → contains_key id (started i es (m, done)).0 ≡ (contains_key id m || starts id es)
  unfolding started
  started-starts id i [] m done = or_none (contains_key id m)
  started-starts id i (transfer_started job _ ∷ es) m done =
      started-starts id (suc i) es (insert job.chunk_id i m) (or_false job.chunk_id done)
      ∙ ap (λ b. b || starts id es) (contains_key-insert_or id job.chunk_id i m)
      ∙ or_swap (id == job.chunk_id) (contains_key id m) (starts id es)
  started-starts id i (transfer_completed j _ _ _ _ _ ∷ es) m done =
      started-starts id (suc i) es m (insert j true done)
  started-starts id i (transfer_failed j _ _ _ _ _ ∷ es) m done =
      started-starts id (suc i) es m (insert j true done)
  started-starts id i (_ ∷ es) m done = started-starts id (suc i) es m done

  started-finishes :
      (id : ChunkId) (i : ℕ) (es : List (TraceEvent F)) (m : Tracked ℕ) (done : Tracked Bool)
      → flag id (started i es (m, done)).1 ≡ (flag id done || finishes id es)
  unfolding started
  started-finishes id i [] m done = or_none (flag id done)
  started-finishes id i (transfer_started job _ ∷ es) m done =
      started-finishes id (suc i) es (insert job.chunk_id i m) (or_false job.chunk_id done)
      ∙ ap (λ b. b || finishes id es) (flag-or_false id job.chunk_id done)
  started-finishes id i (transfer_completed j _ _ _ _ _ ∷ es) m done =
      started-finishes id (suc i) es m (insert j true done)
      ∙ ap (λ b. b || finishes id es) (flag-insert id j done)
      ∙ or_swap (id == j) (flag id done) (finishes id es)
  started-finishes id i (transfer_failed j _ _ _ _ _ ∷ es) m done =
      started-finishes id (suc i) es m (insert j true done)
      ∙ ap (λ b. b || finishes id es) (flag-insert id j done)
      ∙ or_swap (id == j) (flag id done) (finishes id es)
  started-finishes id i (_ ∷ es) m done = started-finishes id (suc i) es m done

  -- A chunk is reported as an orphan exactly when some transfer of it starts and none of them ever
  -- completes or fails, wherever in the trace.
  pub reported-no_orphaned_transfers :
      (id : ChunkId) (es : List (TraceEvent F))
      → reported id (no_orphaned_transfers es) ≡ (starts id es && not (finishes id es))
  unfolding no_orphaned_transfers orphan contains_key get
  reported-no_orphaned_transfers id es =
      let done = (started 0 es ([], [])).1 in
      reported-map id orphan (filter (λ e. not (flag e.0 done)) (started 0 es ([], [])).0)
        (λ e. refl)
      ∙ contains_key-filter id (λ j. not (flag j done)) (started 0 es ([], [])).0
      ∙ rw (started-starts, started-finishes) refl

  seen-creates :
      (id : ChunkId) (es : List (TraceEvent F)) (created deleted : Tracked Bool)
      → (flag id (seen es (created, deleted)).0 ≡ (flag id created || creates id es))
        × (contains_key id (seen es (created, deleted)).1
            ≡ (contains_key id deleted || deletes id es))
  unfolding seen
  seen-creates id [] created deleted =
      (or_none (flag id created), or_none (contains_key id deleted))
  seen-creates id (chunk_created j _ _ _ ∷ es) created deleted =
      let (c, d) = seen-creates id es (insert j true created) deleted in
      (
        c
            ∙ ap (λ b. b || creates id es) (flag-insert id j created)
            ∙ or_swap (id == j) (flag id created) (creates id es),
        d,
      )
  seen-creates id (chunk_deleted j _ _ ∷ es) created deleted =
      let (c, d) = seen-creates id es created (insert j true deleted) in
      (
        c,
        d
            ∙ ap (λ b. b || deletes id es) (contains_key-insert_or id j true deleted)
            ∙ or_swap (id == j) (contains_key id deleted) (deletes id es),
      )
  seen-creates id (_ ∷ es) created deleted = seen-creates id es created deleted

  -- A chunk is reported as dangling exactly when it is deleted and never created, in whatever order.
  pub reported-no_dangling_allocations :
      (id : ChunkId) (es : List (TraceEvent F))
      → reported id (no_dangling_allocations es) ≡ (deletes id es && not (creates id es))
  unfolding no_dangling_allocations dangling contains_key get
  reported-no_dangling_allocations id es =
      let s = seen es ([], []) in
      let (c, d) = seen-creates id es [] [] in
      reported-map id dangling (filter (λ e. not (flag e.0 s.0)) s.1) (λ e. refl)
      ∙ contains_key-filter id (λ j. not (flag j s.0)) s.1
      ∙ rw (c, d) refl

  -- Whether a transfer of the chunk is open at the end, when one is open at the start or not: the
  -- last event that starts or ends one is a start.
  abbrev pub stays_open : ChunkId → Bool → List (TraceEvent F) → Bool
  stays_open id b [] = b
  stays_open id b (transfer_started job _ ∷ es) =
      stays_open id (if id == job.chunk_id then true else b) es
  stays_open id b (transfer_completed j _ _ _ _ _ ∷ es) =
      stays_open id (if id == j then false else b) es
  stays_open id b (transfer_failed j _ _ _ _ _ ∷ es) =
      stays_open id (if id == j then false else b) es
  stays_open id b (transfer_cancelled j _ _ _ ∷ es) =
      stays_open id (if id == j then false else b) es
  stays_open id b (_ ∷ es) = stays_open id b es

  pending-stays_open :
      (id : ChunkId) (i : ℕ) (es : List (TraceEvent F)) (m : Tracked ℕ)
      → contains_key id (pending i es m) ≡ stays_open id (contains_key id m) es
  unfolding pending
  pending-stays_open id i [] m = refl
  pending-stays_open id i (transfer_started job _ ∷ es) m =
      pending-stays_open id (suc i) es (insert job.chunk_id i m)
      ∙ ap (λ b. stays_open id b es) (contains_key-insert job.chunk_id id i m)
  pending-stays_open id i (transfer_completed j _ _ _ _ _ ∷ es) m =
      pending-stays_open id (suc i) es (remove j m)
      ∙ ap (λ b. stays_open id b es) (contains_key-remove j id m)
  pending-stays_open id i (transfer_failed j _ _ _ _ _ ∷ es) m =
      pending-stays_open id (suc i) es (remove j m)
      ∙ ap (λ b. stays_open id b es) (contains_key-remove j id m)
  pending-stays_open id i (transfer_cancelled j _ _ _ ∷ es) m =
      pending-stays_open id (suc i) es (remove j m)
      ∙ ap (λ b. stays_open id b es) (contains_key-remove j id m)
  pending-stays_open id i (_ ∷ es) m = pending-stays_open id (suc i) es m

  -- A chunk is reported as missing a completion exactly when the last event that starts, completes,
  -- fails or cancels a transfer of it is a start.
  pub reported-no_missing_completions :
      (id : ChunkId) (es : List (TraceEvent F))
      → reported id (no_missing_completions es) ≡ stays_open id false es
  unfolding no_missing_completions missing contains_key get
  reported-no_missing_completions id es =
      reported-map id missing (pending 0 es []) (λ e. refl) ∙ pending-stays_open id 0 es []
