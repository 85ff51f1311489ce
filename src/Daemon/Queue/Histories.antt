-- ===== src/Daemon/Queue/Histories.antt =====
-- Whole histories of calls: the queue is indistinguishable from the two lanes, and no job is lost
-- or made up.
use ghost_pages.Common.{
  ℕ, ◌≡◌, refl, ap, Bool, true, false, List, [], ◌∷◌, ◌++◌, Option, none, some, length, leb, arith,
  ◌+◌, ◌≤◌, length-append, ◌⊎◌, inl, inr, Bool-cases,
}
use mathlib.Core.List.{Perm, perm_middle, append_assoc, append-nil}
use mathlib.Core.List.Perm
use ghost_pages.Core.Types.{GhostError, GhostResult, ok, err, cancelled, internal}
use ghost_pages.Core.Transfer.{TransferJob}
use ghost_pages.Daemon.Queue.{Queue, jumps, submit, try_dequeue, shutdown}
use ghost_pages.Daemon.Queue.Lanes.{Lanes, lanes, append_lane, offer, poll, close}
use ghost_pages.Daemon.Queue.Refinement.{Represents}
use ghost_pages.Daemon.Queue.Refinement.Submit.{submit-refines}
use ghost_pages.Daemon.Queue.Refinement.Dequeue.{try_dequeue-refines, shutdown-refines}

pub data Call : Type 0 where
  submits : (now : ℕ) → TransferJob → Call
  dequeues : Call
  shuts_down : Call

pub data Reply : Type 0 where
  submitted : GhostResult (Unit {0}) → Reply
  dequeued : Option TransferJob → Reply
  done : Reply

module _ {F : Type 0} where
  abbrev reply_submitted : Option (Queue F × GhostResult (Unit {0})) → Option (Queue F × Reply)
  reply_submitted none = none
  reply_submitted (some (q, r)) = some (q, submitted r)

  unfoldable pub step : Queue F → Call → Option (Queue F × Reply)
  step q (submits now job) = reply_submitted (submit now q job)
  step q dequeues = let (q', r) = try_dequeue q in some (q', dequeued r)
  step q shuts_down = some (shutdown q, done)

  -- The replies of a history of calls, in order.
  unfoldable pub run : Queue F → List Call → Option (Queue F × List Reply)
  run q [] = some (q, [])
  run q (c ∷ cs) = elim (step q c) [
    | none ↦ none
    | some (q', r) ↦ elim (run q' cs) [ none ↦ none | some (q'', rs) ↦ some (q'', r ∷ rs) ]
  ]

abbrev pub step_lanes : Lanes → Call → Lanes × Reply
step_lanes l (submits now job) = ((offer l job).0, submitted (offer l job).1)
step_lanes l dequeues = ((poll l).0, dequeued (poll l).1)
step_lanes l shuts_down = (close l, done)

abbrev pub run_lanes : Lanes → List Call → Lanes × List Reply
run_lanes l [] = (l, [])
run_lanes l (c ∷ cs) =
    let (l', r) = step_lanes l c in let (l'', rs) = run_lanes l' cs in (l'', r ∷ rs)

module _ {F : Type 0} where
  step-refines :
      (q : Queue F) (l : Lanes) (c : Call)
      → Represents q l
      → (q' : Queue F) × (step q c ≡ some (q', (step_lanes l c).1))
        × Represents q' (step_lanes l c).0
  unfolding step
  step-refines q l (submits now job) v =
      let (q', e, w) = submit-refines now q job l v in (q', ap reply_submitted e, w)
  step-refines q l dequeues v = let (q', e, w) = try_dequeue-refines q l v in (q', rw e, w)
  step-refines q l shuts_down v = (shutdown q, refl, shutdown-refines q l v)

  -- Over every history of calls, a queue that represents two lanes never panics, gives the replies
  -- of the lanes one by one, and ends in a state that represents theirs.
  pub run-refines :
      (q : Queue F) (l : Lanes) (cs : List Call)
      → Represents q l
      → (q' : Queue F) × (run q cs ≡ some (q', (run_lanes l cs).1))
        × Represents q' (run_lanes l cs).0
  unfolding run
  run-refines q l [] v = (q, refl, v)
  run-refines q l (c ∷ cs) v =
      let (q', e, w) = step-refines q l c v in
      let (q'', f, x) = run-refines q' (step_lanes l c).0 cs w in (q'', rw (e, run, f), x)

abbrev pub waiting : Lanes → List TransferJob
waiting l = l.fast ++ l.slow

-- The jobs of the submissions that were answered by `ok`.
abbrev pub accepted : List Call → List Reply → List TransferJob
accepted (submits _ job ∷ cs) (submitted (ok _) ∷ rs) = job ∷ accepted cs rs
accepted (_ ∷ cs) (_ ∷ rs) = accepted cs rs
accepted _ _ = []

-- The jobs that the dequeues handed out.
abbrev pub delivered : List Reply → List TransferJob
delivered (dequeued (some job) ∷ rs) = job ∷ delivered rs
delivered (_ ∷ rs) = delivered rs
delivered [] = []

append_lane-perm :
    (l : Lanes) (job : TransferJob) (b : Bool)
    → Perm (waiting (append_lane l job b)) (job ∷ waiting l)
append_lane-perm l job true = rw append_assoc (perm_middle l.fast l.slow)
append_lane-perm l job false =
    rw (← append_assoc) (rw append-nil at (perm_middle {a = job} (l.fast ++ l.slow) []))

offer-cases :
    (l : Lanes) (job : TransferJob)
    → (offer l job ≡ (append_lane l job (jumps job), ok tt))
      ⊎ ((e : GhostError) × (offer l job ≡ (l, err e)))
offer-cases l job = elim (Bool-cases l.closed) [
  | inl e ↦ inr (cancelled, simp e)
  | inr e ↦ elim (Bool-cases (leb l.capacity (length l.fast + length l.slow))) [
    | inl f ↦ inr (internal, simp (e, f))
    | inr f ↦ inl (simp (e, f))
  ]
]

abbrev Conserved : Lanes → List Call → Lanes × List Reply → Type 0
Conserved l cs out = Perm (waiting l ++ accepted cs out.1) (delivered out.1 ++ waiting out.0)

accepted-offer :
    (l : Lanes) (now : ℕ) (job : TransferJob) (cs : List Call)
    → ((l' : Lanes) → Conserved l' cs (run_lanes l' cs))
    → Conserved l (submits now job ∷ cs) (run_lanes l (submits now job ∷ cs))
accepted-offer l now job cs ih = elim (offer-cases l job) [
  | inl e ↦
      let W = append_lane l job (jumps job) in
      rw e (
        Perm.trans (perm_middle (waiting l) (accepted cs (run_lanes W cs).1)) (
          Perm.trans (Perm.append_right _ (Perm.symm (append_lane-perm l job (jumps job)))) (ih W)))
  | inr (x, e) ↦ rw e (ih l)
]

delivered-poll :
    (fast slow : List TransferJob) (closed : Bool) (capacity : ℕ) (cs : List Call)
    → ((l' : Lanes) → Conserved l' cs (run_lanes l' cs))
    → let l = lanes fast slow closed capacity in
      Conserved l (dequeues ∷ cs) (run_lanes l (dequeues ∷ cs))
delivered-poll [] [] closed capacity cs ih = ih (lanes [] [] closed capacity)
delivered-poll [] (job ∷ slow) closed capacity cs ih =
    Perm.cons job (ih (lanes [] slow closed capacity))
delivered-poll (job ∷ fast) slow closed capacity cs ih =
    Perm.cons job (ih (lanes fast slow closed capacity))

lanes-Conserved : (cs : List Call) (l : Lanes) → Conserved l cs (run_lanes l cs)
lanes-Conserved [] l = rw append-nil (Perm.refl (waiting l))
lanes-Conserved (submits now job ∷ cs) l = accepted-offer l now job cs (lanes-Conserved cs)
lanes-Conserved (dequeues ∷ cs) l =
    delivered-poll l.fast l.slow l.closed l.capacity cs (lanes-Conserved cs)
lanes-Conserved (shuts_down ∷ cs) l = lanes-Conserved cs (close l)

module _ {F : Type 0} where
  -- Over every history of calls from a queue that represents two lanes, the jobs that waited at the
  -- start and those accepted since are, as often, those handed out and those that still wait; and
  -- the counter is the number of waiting jobs, within the capacity.
  pub run-conserves :
      (q : Queue F) (l : Lanes) (cs : List Call)
      → Represents q l
      → (q' : Queue F) × (rs : List Reply) × (run q cs ≡ some (q', rs))
        × Perm (q.jobs ++ accepted cs rs) (delivered rs ++ q'.jobs)
        × (q'.current_depth ≡ length q'.jobs)
        × (q'.current_depth ≤ q'.capacity)
  run-conserves q l cs v =
      let (q', e, w) = run-refines q l cs v in
      (
        q',
        (run_lanes l cs).1,
        e,
        rw (v.order, w.order) (lanes-Conserved cs l),
        omega (
          arith,
          w.counted,
          ap length w.order,
          length-append (run_lanes l cs).0.fast (run_lanes l cs).0.slow,
        ),
        omega (arith, w.counted, w.fits),
      )
