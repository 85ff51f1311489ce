-- ===== src/Replay/Invariants/Timestamps.antt =====
-- When a trace has no violation of the order of time.
use ghost_pages.Common.{
  ℕ, suc, ◌≤◌, ◌≡◌, ◌↔◌, refl, Option, none, some, List, [], ◌∷◌, ltb, arith, Bool-cases, inl, inr,
}
use ghost_pages.Core.Trace.{TraceEvent, timestamp}
use ghost_pages.Replay.Invariants.{regression, regressions_from, no_timestamp_regression}

module _ {F : Type 0} where
  -- Each time is at least the one before, which is `last` at the start.
  abbrev pub InOrder : Option ℕ → List (TraceEvent F) → Type 0
  InOrder last [] = Unit {0}
  InOrder none (e ∷ es) = InOrder (some (timestamp e)) es
  InOrder (some last) (e ∷ es) = (last ≤ timestamp e) × InOrder (some (timestamp e)) es

  regressions_from_iff :
      (i : ℕ) (es : List (TraceEvent F)) (last : Option ℕ)
      → (regressions_from i es last ≡ []) ↔ InOrder last es
  unfolding regressions_from regression
  regressions_from_iff i [] last = (λ _. tt, λ _. refl)
  regressions_from_iff i (e ∷ es) none = regressions_from_iff (suc i) es (some (timestamp e))
  regressions_from_iff i (e ∷ es) (some last) =
      let rest = regressions_from_iff (suc i) es (some (timestamp e)) in
      elim (Bool-cases (ltb (timestamp e) last)) [
        | inl h ↦ rw h (λ x. cc x, λ x. absurd (ground (arith, x.0)))
        | inr h ↦ rw h (λ x. (ground arith, rest.0 x), λ x. rest.1 x.1)
      ]

  -- The validator of time finds nothing exactly when no event is older than the one before it.
  pub no_timestamp_regression_iff :
      (es : List (TraceEvent F)) → (no_timestamp_regression es ≡ []) ↔ InOrder none es
  unfolding no_timestamp_regression
  no_timestamp_regression_iff es = regressions_from_iff 0 es none
