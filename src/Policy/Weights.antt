-- ===== src/Policy/Weights.antt =====
-- crates/ghost-policy/src/weights.rs: the score of a tier under pressure, and the best of several.
use mathlib.Core.List.{Memᴰ}
use mathlib.Core.List.Memᴰ
use ghost_pages.Common.{
  true, false, ◌≡◌, refl, List, [], ◌∷◌, Option, none, some, if◌then◌else◌, All, Bool-cases, inl,
  inr, arith,
}
use ghost_pages.Core.Types.{TierId, ram, gpu_vram, disk, simulation}
use ghost_pages.Policy.Choice.{reduce, Kept, reduce-best}
use ghost_pages.Core.Pressure.{Float, PressureState}

module _ (fl : Float) where
  open fl use {F, flt, hundredths, fsub, fmul}

  unfoldable pub tier_weight : TierId → F
  tier_weight ram = hundredths 100
  tier_weight gpu_vram = hundredths 80
  tier_weight disk = hundredths 30
  tier_weight simulation = hundredths 10

  unfoldable pub pressure_factor : TierId → PressureState F → F
  pressure_factor ram p = fsub (hundredths 100) p.memory_pressure
  pressure_factor gpu_vram p = fsub (hundredths 100) p.vram_pressure
  pressure_factor disk p = fsub (hundredths 100) p.io_pressure
  pressure_factor simulation p = hundredths 100

  -- `x.clamp(0.0, 1.0)`.
  unfoldable pub clamp : F → F
  clamp x =
      let raised = if flt x (hundredths 0) then hundredths 0 else x in
      if flt (hundredths 100) raised then hundredths 100 else raised

  unfoldable pub tier_pressure_score : TierId → PressureState F → F
  unfolding tier_weight pressure_factor clamp
  tier_pressure_score t p = fmul (tier_weight t) (clamp (pressure_factor t p))

  -- One step of `max_by`: of two that do not compare as greater, the later.
  unfoldable pub better : PressureState F → TierId → TierId → TierId
  better p a b = if flt (tier_pressure_score b p) (tier_pressure_score a p) then a else b

  unfoldable pub best_tier : List TierId → PressureState F → Option TierId
  unfolding better reduce
  best_tier [] p = none
  best_tier (t ∷ ts) p = some (reduce (better p) t ts)

  -- What is true of the numbers of `f32`, its not-a-number apart.
  pub record IsOrdered : Type 0 where
    pub irreflexive : (x : F) → flt x x ≡ false
    pub asymmetric : (x y : F) → flt x y ≡ true → flt y x ≡ false
    pub transitive : (x y z : F) → flt x y ≡ false → flt y z ≡ false → flt x z ≡ false

  -- Of two tiers, the first has no lower score.
  abbrev pub NotWorse : PressureState F → TierId → TierId → Type 0
  NotWorse p a b = flt (tier_pressure_score a p) (tier_pressure_score b p) ≡ false

  pub better-Kept :
      IsOrdered → (p : PressureState F) (a b : TierId) → Kept (NotWorse p) a b (better p a b)
  unfolding better
  better-Kept v p a b =
      let x = tier_pressure_score a p in
      let y = tier_pressure_score b p in
      elim (Bool-cases (flt y x)) [
        | inl e ↦ inl (rw (e, better) refl, v.asymmetric y x e)
        | inr e ↦ inr (rw (e, better) refl, e)
      ]

  -- Of one tier or more, one is found that is among them and than which none has a higher score.
  pub best_tier-NotWorse :
      IsOrdered
      → (t : TierId) (ts : List TierId) (p : PressureState F)
      → (best : TierId) × (best_tier (t ∷ ts) p ≡ some best)
        × Memᴰ best (t ∷ ts)
        × All (NotWorse p best) (t ∷ ts)
  unfolding best_tier
  best_tier-NotWorse v t ts p =
      let score = λ (u : TierId). tier_pressure_score u p in
      let r =
        reduce-best (NotWorse p) (λ a. v.irreflexive (score a))
          (λ a b c. v.transitive (score a) (score b) (score c)) (better p) (better-Kept v p) t ts in
      (reduce (better p) t ts, refl, r.0, r.1)

  -- Whatever the numbers are, the tier that is found is among them.
  pub best_tier-member :
      (ts : List TierId) (p : PressureState F) (best : TierId)
      → best_tier ts p ≡ some best
      → Memᴰ best ts
  unfolding best_tier
  best_tier-member [] p best e = ground arith
  best_tier-member (t ∷ ts) p best e =
      Memᴰ.cast (ground arith)
        (reduce-best (λ a b. Unit {0}) (λ a. tt) (λ a b c x y. tt) (better p) either t ts).0
    where
      either : (a b : TierId) → Kept (λ a b. Unit {0}) a b (better p a b)
      either a b =
          unfold better in
          elim (Bool-cases (flt (tier_pressure_score b p) (tier_pressure_score a p))) [
            | inl e ↦ inl (rw (e, better) refl, tt)
            | inr e ↦ inr (rw (e, better) refl, tt)
          ]
