-- ===== src/Policy/PressureAware/Migrations.antt =====
-- Which migrations the policy recommends.
use ghost_pages.Common.{
  ◌-◌, ◌<◌, ◌≡◌, refl, ◌⊎◌, inl, inr, Bool, true, false, not, ◌&&◌, Option, none, some, filter,
  Option-cases, if◌then◌else◌, arith, ltb, ltb→lt,
}
use ghost_pages.Core.Types.{TierId, tier_eqb}
use ghost_pages.Core.Meta.{ChunkMeta}
use ghost_pages.Core.Pressure.{Float, PressureState}
use ghost_pages.Policy.Choice.{Memᴰ-filter}
use ghost_pages.Policy.Weights.{best_tier, best_tier-member}
use ghost_pages.Policy.PressureAware.{
  PressureAwareConfig, is_tier_pressured, is_tier_critical, all_tiers, escape, relieve,
  should_migrate,
}

both_true : (a b : Bool) → a && b ≡ true → (a ≡ true) × (b ≡ true)
both_true true true e = (refl, refl)
both_true true false e = ground arith
both_true false b e = ground arith

negated : (b : Bool) → not b ≡ true → b ≡ false
negated true e = ground arith
negated false e = refl

guarded :
    (b : Bool) (o : Option TierId) (t : TierId)
    → (if b then o else none) ≡ some t
    → (b ≡ true) × (o ≡ some t)
guarded true o t e = (refl, e)
guarded false o t e = ground arith

module _ (fl : Float) (cfg : PressureAwareConfig fl.F) where
  escape-calm :
      (current target : TierId) (p : PressureState fl.F)
      → escape fl cfg current p ≡ some target
      → (tier_eqb target current ≡ false)
        × (is_tier_critical fl cfg current p ≡ true)
        × (is_tier_critical fl cfg target p ≡ false)
  unfolding escape
  escape-calm current target p e =
      let passes = λ (t : TierId). not (tier_eqb t current) && not (is_tier_critical fl cfg t p) in
      let (c, b) =
        guarded (is_tier_critical fl cfg current p) (best_tier fl (filter passes all_tiers) p)
          target e in
      let m = best_tier-member fl (filter passes all_tiers) p target b in
      let (q, r) =
        both_true (not (tier_eqb target current)) (not (is_tier_critical fl cfg target p))
          (Memᴰ-filter passes target all_tiers m).1 in
      (negated (tier_eqb target current) q, c, negated (is_tier_critical fl cfg target p) r)

  relieve-cold :
      (meta : ChunkMeta) (current target : TierId) (p : PressureState fl.F)
      → relieve fl cfg meta current p ≡ some target
      → (tier_eqb target current ≡ false)
        × (is_tier_pressured fl cfg current p ≡ true)
        × (300 < cfg.current_time_secs - meta.last_accessed)
  unfolding relieve
  relieve-cold meta current target p e =
      let passes = λ (t : TierId). not (tier_eqb t current) in
      let age = cfg.current_time_secs - meta.last_accessed in
      let (c, b) =
        guarded (is_tier_pressured fl cfg current p && ltb 300 age)
          (best_tier fl (filter passes all_tiers) p) target e in
      let m = best_tier-member fl (filter passes all_tiers) p target b in
      let (x, y) = both_true (is_tier_pressured fl cfg current p) (ltb 300 age) c in
      (
        negated (tier_eqb target current) (Memᴰ-filter passes target all_tiers m).1,
        x,
        ltb→lt 300 age y,
      )

  -- A chunk is only ever sent to another tier, and away from a tier under critical pressure, to one
  -- that is not; or away from a tier under high pressure, where the chunk was not accessed for more
  -- than 300 seconds before the configured time.
  pub should_migrate-relieves :
      (meta : ChunkMeta) (current target : TierId) (p : PressureState fl.F)
      → should_migrate fl cfg meta current p ≡ some target
      → (tier_eqb target current ≡ false)
        × (((is_tier_critical fl cfg current p ≡ true) × (is_tier_critical fl cfg target p ≡ false))
            ⊎ ((is_tier_pressured fl cfg current p ≡ true)
                × (300 < cfg.current_time_secs - meta.last_accessed)))
  unfolding should_migrate
  should_migrate-relieves meta current target p e = elim (Option-cases (escape fl cfg current p)) [
    | inl n ↦ let r = relieve-cold meta current target p (ground arith) in (r.0, inr (r.1, r.2))
    | inr (t, n) ↦ let r = escape-calm current target p (ground arith) in (r.0, inl (r.1, r.2))
  ]
