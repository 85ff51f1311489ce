-- ===== src/Linux/Cooldown/Pruning.antt =====
-- Pruning forgets nothing that matters, and the remaining time is exact.
use ghost_pages.Common.{
  ℕ, ◌+◌, ◌-◌, ◌≤◌, ◌≡◌, refl, sym, ap, ◌∙◌, Bool, true, not, Option, none, some, length, filter,
  leb, ltb, if◌then◌else◌, arith, Option-cases, inl, inr,
}
use ghost_pages.Common.Order.{Ord}
use ghost_pages.Common.BTreeMap.{BTreeMap, get, get-insert_self}
use ghost_pages.Common.BTreeMap.Sorted.{Sorted, get-filter}
use ghost_pages.Linux.Cooldown.{
  CooldownTracker, can_recommend, record_recommendation, remaining_cooldown, prune_expired,
  active_count, suppressed_count, is_suppressed,
}

-- A test on the time that is recorded, if there is one, which passes from `now` on once the cooldown
-- is over.
abbrev over : ℕ → ℕ → Option ℕ → Bool
over cooldown later none = true
over cooldown later (some last_time) = leb cooldown (later - last_time)

module _ {K : Type 0} ⦃o : Ord K⦄ where
  over-filter :
      (cooldown now later : ℕ) (k : K) (m : BTreeMap K ℕ)
      → Sorted m
      → now ≤ later
      → over cooldown later (get k (filter (λ e. ltb (now - e.1) cooldown) m))
        ≡ over cooldown later (get k m)
  over-filter cooldown now later k m s h =
      ap (over cooldown later) (get-filter (λ e. ltb (now - e.1) cooldown) k m s) ∙ kept (get k m)
    where
      kept :
          (x : Option ℕ)
          → over cooldown later (elim x as (λ _. Option ℕ) [
            | none ↦ none
            | some v ↦ if ltb (now - v) cooldown then some v else none
          ])
            ≡ over cooldown later x
      kept none = refl
      kept (some v) = ground arith

module _ {K F : Type 0} ⦃o : Ord K⦄ where
  can_recommend-over :
      (now : ℕ) (c : CooldownTracker K F) (k : K)
      → can_recommend now c k
        ≡ over c.config.recommendation_cooldown_secs now (get k c.last_recommendation)
  unfolding can_recommend
  can_recommend-over now c k = elim (Option-cases (get k c.last_recommendation)) [
    | inl e ↦ rw (e, can_recommend) refl
    | inr (t, e) ↦ rw (e, can_recommend) refl
  ]

  is_suppressed-over :
      (now : ℕ) (c : CooldownTracker K F) (k : K)
      → is_suppressed now c k
        ≡ not (over c.config.suppression_cooldown_secs now (get k c.last_suppression))
  unfolding is_suppressed
  is_suppressed-over now c k = elim (Option-cases (get k c.last_suppression)) [
    | inl e ↦ rw (e, is_suppressed) refl
    | inr (t, e) ↦ rw (e, is_suppressed) (ground arith)
  ]

  -- Pruning maps whose keys increase, at one time, changes no answer at that time or later, about
  -- recommendations or about suppressions; and what it keeps is what the two counts counted.
  pub prune_expired_lem :
      (now later : ℕ) (c : CooldownTracker K F) (k : K)
      → Sorted c.last_recommendation
      → Sorted c.last_suppression
      → now ≤ later
      → let c' = prune_expired now c in
        (can_recommend later c' k ≡ can_recommend later c k)
        × (is_suppressed later c' k ≡ is_suppressed later c k)
        × (length c'.last_recommendation ≡ active_count now c)
        × (length c'.last_suppression ≡ suppressed_count now c)
  unfolding prune_expired active_count suppressed_count
  prune_expired_lem now later c k r s h = (
    can_recommend-over later (prune_expired now c) k
        ∙ over-filter c.config.recommendation_cooldown_secs now later k c.last_recommendation r h
        ∙ sym (can_recommend-over later c k),
    is_suppressed-over later (prune_expired now c) k
        ∙ ap not (over-filter c.config.suppression_cooldown_secs now later k c.last_suppression s h)
        ∙ sym (is_suppressed-over later c k),
    refl,
    refl,
  )

  -- After a recommendation at `start` its region is given no other before the cooldown is over, and
  -- may be given one from then on; until then the remaining time is the time that is left, and after
  -- it there is none.
  pub record_recommendation_lem :
      (start elapsed : ℕ) (c : CooldownTracker K F) (k : K)
      → let c' = record_recommendation start c k in
        let cooldown = c.config.recommendation_cooldown_secs in
        (can_recommend (start + elapsed) c' k ≡ leb cooldown elapsed)
        × (remaining_cooldown (start + elapsed) c' k
            ≡ (if ltb elapsed cooldown then some (cooldown - elapsed) else none))
  unfolding can_recommend record_recommendation remaining_cooldown
  record_recommendation_lem start elapsed c k =
      let e : start + elapsed - start ≡ elapsed = omega arith in
      (
        rw (get-insert_self, can_recommend, e) refl,
        rw (get-insert_self, remaining_cooldown, e) refl,
      )
