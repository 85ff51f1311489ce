-- ===== src/Policy/PressureAware/Targets.antt =====
-- Where a chunk is placed and where it is migrated to.
use mathlib.Core.List.{Memᴰ}
use ghost_pages.Common.{
  ◌≡◌, refl, sym, subst, ◌⊎◌, inl, inr, Bool, true, false, not, List, [], ◌∷◌, All, filter,
  Bool-cases, arith,
}
use ghost_pages.Core.Types.{TierId}
use ghost_pages.Core.Pressure.{Float, PressureState}
use ghost_pages.Policy.Choice.{Kept, Memᴰ-filter, All-filter, All-map, filter-nil, reduce-best}
use ghost_pages.Policy.Weights.{tier_pressure_score, IsOrdered, NotWorse, best_tier-NotWorse}
use ghost_pages.Policy.PressureAware.{
  PressureAwareConfig, lesser, is_tier_critical, select_among, select_target_tier,
}

negated_false : (b : Bool) → not b ≡ false → b ≡ true
negated_false true e = refl
negated_false false e = ground arith

negated_true : (b : Bool) → not b ≡ true → b ≡ false
negated_true true e = ground arith
negated_true false e = refl

module _ (fl : Float) (cfg : PressureAwareConfig fl.F) (p : PressureState fl.F)
    (ordered : IsOrdered fl) where
  -- Of two tiers, the first has no higher score.
  abbrev NotBetter : TierId → TierId → Type 0
  NotBetter a b = NotWorse fl p b a

  lesser-Kept : (a b : TierId) → Kept NotBetter a b (lesser fl p a b)
  unfolding lesser
  lesser-Kept a b =
      let x = tier_pressure_score fl a p in
      let y = tier_pressure_score fl b p in
      elim (Bool-cases (fl.flt y x)) [
        | inl e ↦ inr (rw (e, lesser) refl, ordered.asymmetric y x e)
        | inr e ↦ inl (rw (e, lesser) refl, e)
      ]

  abbrev viable : TierId → Bool
  viable t = not (is_tier_critical fl cfg t p)

  -- How the tier that is chosen compares with those that are available.
  pub record IsPlacement (available : List TierId) (target : TierId) : Type 0 where
    pub member : Memᴰ target available
    pub compared :
        ((is_tier_critical fl cfg target p ≡ false)
          × All (λ t. (is_tier_critical fl cfg t p ≡ true) ⊎ NotWorse fl p target t) available)
        ⊎ (All (λ t. is_tier_critical fl cfg t p ≡ true) available
            × All (λ t. NotWorse fl p t target) available)

  among-IsPlacement :
      (t : TierId) (ts viables : List TierId)
      → filter viable (t ∷ ts) ≡ viables
      → IsPlacement (t ∷ ts) (select_among fl cfg p t ts viables)
  unfolding select_among
  among-IsPlacement t ts [] e =
      let score = λ (u : TierId). tier_pressure_score fl u p in
      let r =
        reduce-best NotBetter (λ a. ordered.irreflexive (score a))
          (λ a b c x y. ordered.transitive (score c) (score b) (score a) y x) (lesser fl p)
          lesser-Kept t ts in
      record {
        member = r.0;
        compared = inr (
          All-map _ _ (t ∷ ts) (λ u. negated_false (is_tier_critical fl cfg u p))
              (filter-nil viable (t ∷ ts) e),
          r.1,
        );
      }
  among-IsPlacement t ts (v ∷ vs) e =
      let (best, q, m, a) = best_tier-NotWorse fl ordered v vs p in
      let f = Memᴰ-filter viable best (t ∷ ts) (subst (Memᴰ best) (sym e) m) in
      let chosen : select_among fl cfg p t ts (v ∷ vs) ≡ best = rw (select_among, q) refl in
      subst (IsPlacement (t ∷ ts)) (sym chosen) (record {
        member = f.0;
        compared = inl (
          negated_true (is_tier_critical fl cfg best p) f.1,
          All-map _ _ (t ∷ ts)
              (λ u o. elim o [
                | inl n ↦ inl (negated_false (is_tier_critical fl cfg u p) n)
                | inr w ↦ inr w
              ])
              (All-filter viable (NotWorse fl p best) (t ∷ ts)
                (subst (All (NotWorse fl p best)) (sym e) a)),
        );
      })

  -- Where tiers are available, one of them is chosen, and no not-a-number being compared: it is not
  -- under critical pressure and no other that is not has a higher score, or all are under critical
  -- pressure and none has a lower score than the one chosen, which is thus the worst of them.
  pub select_target_tier-IsPlacement :
      (t : TierId) (ts : List TierId) → IsPlacement (t ∷ ts) (select_target_tier fl cfg p (t ∷ ts))
  unfolding select_target_tier
  select_target_tier-IsPlacement t ts = among-IsPlacement t ts (filter viable (t ∷ ts)) refl
