-- ===== src/Policy/PressureAware/Victims.antt =====
-- Which chunk is evicted.
use mathlib.Core.List.{Memᴰ}
use ghost_pages.Common.{
  ℕ, ◌≤◌, ◌≡◌, refl, sym, subst, ◌∙◌, ◌⊎◌, inl, inr, Bool, true, false, List, ◌∷◌, some, All, ltb,
  Bool-cases, if◌then◌else◌, arith,
}
use ghost_pages.Core.Types.{ChunkId}
use ghost_pages.Core.Meta.{ChunkMeta}
use ghost_pages.Core.Pressure.{Float, PressureState}
use ghost_pages.Policy.Choice.{reduce, Kept, reduce-best}
use ghost_pages.Policy.PressureAware.{PressureAwareConfig, is_tier_pressured, worse, select_viction}

abbrev Candidate : Type 0
Candidate = ChunkId × ChunkMeta

-- The order on pairs of whether a tier is pressured and when the chunk was accessed.
abbrev pub Before : Bool × ℕ → Bool × ℕ → Type 0
Before a b = ((a.0 ≡ true) × (b.0 ≡ false)) ⊎ ((a.0 ≡ b.0) × (a.1 ≤ b.1))

Before-trans : (a b c : Bool × ℕ) → Before a b → Before b c → Before a c
Before-trans a b c (inl (p, q)) (inl (r, s)) = inl (p, s)
Before-trans a b c (inl (p, q)) (inr (r, s)) = inl (p, sym r ∙ q)
Before-trans a b c (inr (p, q)) (inl (r, s)) = inl (p ∙ r, s)
Before-trans a b c (inr (p, q)) (inr (r, s)) = inr (p ∙ r, omega arith)

module _ (fl : Float) (cfg : PressureAwareConfig fl.F) (p : PressureState fl.F) where
  abbrev pub rank : Candidate → Bool × ℕ
  rank c = (is_tier_pressured fl cfg c.1.tier p, c.1.last_accessed)

  -- On a tier that is pressured where the other's is not, or no less and not accessed later.
  abbrev pub EvictedBefore : Candidate → Candidate → Type 0
  EvictedBefore c d = Before (rank c) (rank d)

  by_time :
      (c d : Candidate)
      → is_tier_pressured fl cfg c.1.tier p ≡ is_tier_pressured fl cfg d.1.tier p
      → Kept EvictedBefore c d (if ltb c.1.last_accessed d.1.last_accessed then c else d)
  by_time c d q = elim (Bool-cases (ltb c.1.last_accessed d.1.last_accessed)) [
    | inl g ↦ inl (rw g refl, inr (q, ground arith))
    | inr g ↦ inr (rw g refl, inr (sym q, ground arith))
  ]

  worse-Kept : (c d : Candidate) → Kept EvictedBefore c d (worse fl cfg p c d)
  unfolding worse
  worse-Kept c d =
      let x = is_tier_pressured fl cfg c.1.tier p in
      let y = is_tier_pressured fl cfg d.1.tier p in
      elim (Bool-cases x) [
        | inl e ↦ elim (Bool-cases y) [
          | inl f ↦
              subst (Kept EvictedBefore c d) (sym (rw (e, f, worse) refl)) (by_time c d (e ∙ sym f))
          | inr f ↦ inl (rw (e, f, worse) refl, inl (e, f))
        ]
        | inr e ↦ elim (Bool-cases y) [
          | inl f ↦ inr (rw (e, f, worse) refl, inl (f, e))
          | inr f ↦
              subst (Kept EvictedBefore c d) (sym (rw (e, f, worse) refl)) (by_time c d (e ∙ sym f))
        ]
      ]

  -- Where there is a candidate, the one that is evicted is on a tier under high pressure if any is,
  -- and of those alike in this none was accessed before it.
  pub select_viction-EvictedBefore :
      (c : Candidate) (cs : List Candidate)
      → (v : Candidate) × (select_viction fl cfg p (c ∷ cs) ≡ some v.0)
        × Memᴰ v (c ∷ cs)
        × All (EvictedBefore v) (c ∷ cs)
  unfolding select_viction
  select_viction-EvictedBefore c cs =
      let r =
        reduce-best EvictedBefore (λ a. inr (refl, omega arith))
          (λ a b d. Before-trans (rank a) (rank b) (rank d)) (worse fl cfg p) worse-Kept c cs in
      (reduce (worse fl cfg p) c cs, refl, r.0, r.1)
