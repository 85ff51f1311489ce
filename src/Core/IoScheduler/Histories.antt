-- ===== src/Core/IoScheduler/Histories.antt =====
-- Whole histories of calls of the scheduler.
use Prim.Native.String.{String}
use ghost_pages.Common.{
  ℕ, suc, ◌+◌, ◌^◌, ◌<◌, ◌≤◌, ◌≡◌, refl, ap, List, [], ◌∷◌, ◌++◌, none, some, arith, Option-cases,
  Bool-cases, inl, inr, length, nat_ord, leb,
}
use mathlib.Core.List.Perm
use ghost_pages.Common.BTreeMap.{get}
use ghost_pages.Core.Types.{ChunkId, TierId, Result}
use ghost_pages.Core.IoScheduler.{
  IoOperation, IoScheduler, new, issue, complete, flush, Call, issues, completes, flushes, step,
  run,
}
use ghost_pages.Core.IoScheduler.Accounts.{
  IsAccounted, after, issue-IsAccounted, complete-IsAccounted, flush-IsAccounted, flush-limits,
}

-- How a history ends: with its books in order, or by the panic of its first completion of an id
-- that is not pending.
pub data Ends (s : IoScheduler) (cs : List Call) : Type 0 where
  ran : (s' : IoScheduler) → run s cs ≡ some s' → IsAccounted s' → Ends s cs
  panicked :
      (before later : List Call) (now id : ℕ) (x : Result String (Unit {0})) (s' : IoScheduler)
      → cs ≡ before ++ completes now id x ∷ later
      → run s before ≡ some s'
      → IsAccounted s'
      → get id s'.pending ≡ none
      → run s cs ≡ none
      → Ends s cs

issue-next_id :
    (now : ℕ) (s : IoScheduler) (op : IoOperation) (c : ChunkId) (t : TierId)
    → (issue now s op c t).0.next_id ≤ suc s.next_id
unfolding issue
issue-next_id now s op c t = elim (Bool-cases (leb s.max_pending (length s.pending))) [
  | inl e ↦ rw (e, issue) (omega arith)
  | inr e ↦ rw (e, issue) (omega arith)
]

-- A call that does not panic: what it leaves behind.
pub data Steps (s : IoScheduler) (c : Call) : Type 0 where
  steps :
      (s' : IoScheduler)
      → step s c ≡ some s'
      → IsAccounted s'
      → s'.next_id ≤ suc s.next_id
      → Steps s c
  unknown :
      (now id : ℕ) (x : Result String (Unit {0}))
      → c ≡ completes now id x
      → get id s.pending ≡ none
      → step s c ≡ none
      → Steps s c

step-Steps : (s : IoScheduler) (c : Call) → IsAccounted s → s.next_id + 1 < 2 ^ 64 → Steps s c
unfolding step complete
step-Steps s (issues now op c t) v h =
    steps (issue now s op c t).0 refl (issue-IsAccounted now s op c t v h)
      (issue-next_id now s op c t)
step-Steps s (completes now id x) v h = elim (Option-cases (get id s.pending)) [
  | inl e ↦ unknown now id x refl e (rw (e, complete))
  | inr (r, e) ↦
      let (f, w) = complete-IsAccounted now s id x r e v in
      steps (after now s id x r) f w (omega arith)
]
step-Steps s (flushes now now') v h =
    let (w, e, f) = flush-IsAccounted now now' s v in
    steps (flush now now' s) refl w (omega (arith, (flush-limits now now' s).0))

Ends-after :
    (s s' : IoScheduler) (c : Call) (cs : List Call)
    → step s c ≡ some s'
    → Ends s' cs
    → Ends s (c ∷ cs)
unfolding run
Ends-after s s' c cs e (ran t f v) = ran t (rw (e, run, f)) v
Ends-after s s' c cs e (panicked before later now id x t f g v h k) =
    panicked (c ∷ before) later now id x t (ap (◌∷◌ c) f) (rw (e, run, g)) v h (rw (e, run, k))

run-Ends :
    (s : IoScheduler) (cs : List Call) → IsAccounted s → s.next_id + length cs < 2 ^ 64 → Ends s cs
unfolding run
run-Ends s [] v h = ran s refl v
run-Ends s (c ∷ cs) v h = elim (step-Steps s c v (omega arith)) [
  | steps s' e w le ↦ Ends-after s s' c cs e (run-Ends s' cs w (omega arith))
  | unknown now id x e f g ↦ panicked [] cs now id x s (ap (λ d. d ∷ cs) e) refl v f (rw (g, run))
]

pub new-IsAccounted : (max_pending : ℕ) → IsAccounted (new max_pending)
unfolding new get
new-IsAccounted n = record {
  sorted = tt;
  fresh = λ j h. refl;
  numbered = tt;
  waiting = tt;
  settled = tt;
  room = omega arith;
  positive = omega arith;
  once = Perm.refl [];
}

-- From an empty scheduler, every history of fewer than 2^64 - 1 calls ends with its books in
-- order: each id given out so far belongs to exactly one request, pending or completed, the pending
-- ones are unresolved and at most `max_pending`, and the completed ones have a result. The only
-- other end is a panic, at the first completion of an id that is not pending.
pub new-Ends :
    (max_pending : ℕ) (cs : List Call) → length cs + 1 < 2 ^ 64 → Ends (new max_pending) cs
unfolding new
new-Ends n cs h = run-Ends (new n) cs (new-IsAccounted n) (omega arith)
