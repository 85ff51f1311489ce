-- ===== src/Core/IoScheduler/Accounts.antt =====
-- The books of the scheduler: each request that was issued is pending or completed, once.
use Prim.Native.String.{String}
use ghost_pages.Common.{
  ℕ, zero, suc, ◌+◌, ◌%◌, ◌^◌, ◌<◌, ◌≤◌, ◌≡◌, refl, sym, ap, subst, ◌∙◌, Bool, true, false, List,
  [], ◌∷◌, ◌++◌, map, All, nat_ord, none, some, arith, Bool-cases, inl, inr, ◌==◌, ==_iff, length,
  leb,
}
use mathlib.Core.List.{Perm, perm_middle, append_assoc, append-nil, map-append}
use mathlib.Core.List.Perm
use ghost_pages.Common.BTreeMap.{BTreeMap, get, remove, get-insert, get-remove, length-insert_new}
use ghost_pages.Common.BTreeMap.Sorted.{Sorted, keys, values, insert-Sorted, remove-Sorted}
use ghost_pages.Common.BTreeMap.Counting.{
  insert-keys, remove-keys, remove_each-all, All-insert, All-remove, All-get, length-remove_le,
}
use ghost_pages.Core.Types.{ChunkId, TierId, Result, ok, err}
use ghost_pages.Core.IoScheduler.{
  IoOperation, IoCompletion, IoRequest, IoScheduler, pending, completed, failed, new_request, issue,
  resolution, resolved, resolution_event, complete, flush,
}

-- The ids below the next one, the latest first.
abbrev pub issued : ℕ → List ℕ
issued zero = []
issued (suc zero) = []
issued (suc (suc n)) = suc n ∷ issued (suc n)

abbrev pub is_settled : IoCompletion → Bool
is_settled pending = false
is_settled (completed _) = true
is_settled (failed _) = true

abbrev ids : List IoRequest → List ℕ
ids = map (λ r. r.id)

pub record IsAccounted (s : IoScheduler) : Type 0 where
  pub sorted : Sorted s.pending
  pub fresh : (j : ℕ) → s.next_id ≤ j → get j s.pending ≡ none
  pub numbered : All (λ e. e.1.id ≡ e.0) s.pending
  pub waiting : All (λ e. is_settled e.1.completion ≡ false) s.pending
  pub settled : All (λ r. is_settled r.completion ≡ true) s.completed
  pub room : length s.pending ≤ s.max_pending
  pub positive : 0 < s.next_id
  pub once : Perm (map (λ r. r.id) s.completed ++ keys s.pending) (issued s.next_id)

issued-suc : (n : ℕ) → 0 < n → issued (suc n) ≡ n ∷ issued n
issued-suc zero h = absurd (omega arith)
issued-suc (suc n) h = refl

All-append : {A : Type 0} (P : A → Type 0) (xs ys : List A) → All P xs → All P ys → All P (xs ++ ys)
All-append P [] ys a b = b
All-append P (x ∷ xs) ys a b = (a.0, All-append P xs ys a.1 b)

resolution-settled :
    (now : ℕ) (r : IoRequest) (x : Result String (Unit {0}))
    → is_settled (resolution now x r) ≡ true
unfolding resolution
resolution-settled now r (ok _) = refl
resolution-settled now r (err _) = refl

accepted_issue :
    (now : ℕ) (s : IoScheduler) (op : IoOperation) (c : ChunkId) (t : TierId)
    → leb s.max_pending (length s.pending) ≡ false
    → IsAccounted s
    → s.next_id + 1 < 2 ^ 64
    → IsAccounted (issue now s op c t).0
unfolding issue
accepted_issue now s op c t e v h =
    let m = s.pending in
    let n = s.next_id in
    let r = new_request now n op c t in
    let absent = v.fresh n (omega arith) in
    let word : (s.next_id + 1) % 2 ^ 64 ≡ suc s.next_id = omega arith in
    rw (e, issue)
      (record {
        sorted = insert-Sorted n r m v.sorted;
        fresh = λ j k. rw get-insert (elim (Bool-cases (j == n)) [
          | inl f ↦ absurd (ground (arith, (==_iff j n).0 f))
          | inr f ↦ rw f (v.fresh j (omega arith))
        ]);
        numbered = All-insert (λ e. e.1.id ≡ e.0) n r m refl v.numbered;
        waiting = All-insert (λ e. is_settled e.1.completion ≡ false) n r m refl v.waiting;
        settled = v.settled;
        room = ground (arith, length-insert_new n r m absent);
        positive = omega arith;
        once = Perm.trans (Perm.append_left (ids s.completed) (insert-keys n r m absent)) (
            Perm.trans (perm_middle (ids s.completed) (keys m)) (
              subst (λ x. Perm (n ∷ ids s.completed ++ keys m) x)
                (sym (ap issued word ∙ issued-suc n v.positive)) (Perm.cons n v.once)));
      })

-- Issuing keeps the books, as long as ids are left.
pub issue-IsAccounted :
    (now : ℕ) (s : IoScheduler) (op : IoOperation) (c : ChunkId) (t : TierId)
    → IsAccounted s
    → s.next_id + 1 < 2 ^ 64
    → IsAccounted (issue now s op c t).0
unfolding issue
issue-IsAccounted now s op c t v h = elim (Bool-cases (leb s.max_pending (length s.pending))) [
  | inl e ↦ rw (e, issue) v
  | inr e ↦ accepted_issue now s op c t e v h
]

-- The scheduler after the completion of a pending request.
abbrev pub after : (now : ℕ) → IoScheduler → ℕ → Result String (Unit {0}) → IoRequest → IoScheduler
after now s id x r = record s {
  pending = remove id s.pending;
  completed = s.completed ++ resolved now x r ∷ [];
  emitted = s.emitted ++ resolution_event now x r ∷ [];
}

-- A pending request is completed: it leaves the pending ones and its result is recorded.
pub complete-IsAccounted :
    (now : ℕ) (s : IoScheduler) (id : ℕ) (x : Result String (Unit {0})) (r : IoRequest)
    → get id s.pending ≡ some r
    → IsAccounted s
    → (complete now s id x ≡ some (after now s id x r)) × IsAccounted (after now s id x r)
unfolding complete resolved
complete-IsAccounted now s id x r g v =
    let m = s.pending in
    let named = All-get (λ e. e.1.id ≡ e.0) id r m v.numbered g in
    (
      rw (g, complete),
      record {
        sorted = remove-Sorted id m v.sorted;
        fresh = λ j k. rw (get-remove, v.fresh j k) (ground arith);
        numbered = All-remove (λ e. e.1.id ≡ e.0) id m v.numbered;
        waiting = All-remove (λ e. is_settled e.1.completion ≡ false) id m v.waiting;
        settled = All-append _ s.completed _ v.settled (resolution-settled now r x, tt);
        room = omega (arith, length-remove_le id m, v.room);
        positive = v.positive;
        once =
            rw (map-append, append_assoc, named)
              (Perm.trans
                (Perm.append_left (ids s.completed) (Perm.symm (remove-keys id r m v.sorted g)))
                v.once);
      },
    )

ids-resolved :
    (now : ℕ) (x : Result String (Unit {0})) (m : BTreeMap ℕ IoRequest)
    → All (λ e. e.1.id ≡ e.0) m
    → ids (map (resolved now x) (values m)) ≡ keys m
unfolding resolved
ids-resolved now x [] a = refl
ids-resolved now x ((k, r) ∷ m) a = rw (a.0, ids-resolved now x m a.1)

resolved-settled :
    (now : ℕ) (x : Result String (Unit {0})) (rs : List IoRequest)
    → All (λ r. is_settled r.completion ≡ true) (map (resolved now x) rs)
unfolding resolved
resolved-settled now x [] = tt
resolved-settled now x (r ∷ rs) = (resolution-settled now r x, resolved-settled now x rs)

flush-parts :
    (now now' : ℕ) (s : IoScheduler)
    → Sorted s.pending
    → ((flush now now' s).pending ≡ [])
      × ((flush now now' s).completed
          ≡ s.completed ++ map (resolved now (ok tt)) (values s.pending))
unfolding flush
flush-parts now now' s v =
    let e = remove_each-all s.pending v in
    (
      ap (λ r. r.0) e,
      ap
          (λ (r : BTreeMap ℕ IoRequest × List IoRequest).
            s.completed ++ map (resolved now (ok tt)) r.1)
          e,
    )

pub flush-limits :
    (now now' : ℕ) (s : IoScheduler)
    → ((flush now now' s).next_id ≡ s.next_id) × ((flush now now' s).max_pending ≡ s.max_pending)
unfolding flush
flush-limits now now' s = (refl, refl)

IsAccounted-emptied :
    (now : ℕ) (s s' : IoScheduler)
    → IsAccounted s
    → s'.pending ≡ []
    → s'.completed ≡ s.completed ++ map (resolved now (ok tt)) (values s.pending)
    → s'.next_id ≡ s.next_id
    → IsAccounted s'
unfolding get
IsAccounted-emptied now s s' v e f g = record {
  sorted = rw e tt;
  fresh = λ j h. rw e refl;
  numbered = rw e tt;
  waiting = rw e tt;
  settled =
      rw f (All-append _ s.completed _ v.settled (resolved-settled now (ok tt) (values s.pending)));
  room = rw e (omega arith);
  positive = omega (arith, g, v.positive);
  once = rw (e, f, g, append-nil, map-append, ids-resolved now (ok tt) s.pending v.numbered) v.once;
}

-- A flush completes every pending request, in the order of the ids.
pub flush-IsAccounted :
    (now now' : ℕ) (s : IoScheduler)
    → IsAccounted s
    → IsAccounted (flush now now' s)
      × ((flush now now' s).pending ≡ [])
      × ((flush now now' s).completed
          ≡ s.completed ++ map (resolved now (ok tt)) (values s.pending))
flush-IsAccounted now now' s v =
    let (e, f) = flush-parts now now' s v.sorted in
    (IsAccounted-emptied now s (flush now now' s) v e f (flush-limits now now' s).0, e, f)
