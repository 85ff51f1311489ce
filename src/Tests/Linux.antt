-- ===== src/Tests/Linux.antt =====
-- The memory of the Linux policy, with regions named by numbers.
use ghost_pages.Common.{
  ℕ, ◌≤◌, ◌≡◌, ◌≢◌, ◌↔◌, true, none, some, length, List, [], ◌∷◌, refl, arith, nat_ord,
}
use ghost_pages.Common.Suffix.{last_n}
use ghost_pages.Linux.Temperature.{Temperature, hot, cold, StabilityConfig}
use ghost_pages.Linux.Cooldown.{
  CooldownTracker, can_recommend, prune_expired, active_count, suppressed_count, is_suppressed,
}
use ghost_pages.Linux.Cooldown.Pruning.{prune_expired_lem}
use ghost_pages.Linux.Stability.{StabilityChecker, new, record_all, is_stable}
use ghost_pages.Linux.Stability.Window.{Constant, is_stable_iff}

abbrev config : StabilityConfig ℕ
config = record {
  recommendation_cooldown_secs = 60;
  temperature_stability_window = 2;
  hysteresis_margin = 10;
  max_recommendations_per_cycle = 5;
  min_confidence_threshold = 50;
  suppression_cooldown_secs = 30;
}

abbrev tracker : CooldownTracker ℕ ℕ
tracker = record {
  last_recommendation = (1, 100) ∷ (2, 10) ∷ [];
  last_suppression = (2, 90) ∷ [];
  config = config;
}

prune_expired_lem_example :
    let c' = prune_expired 130 tracker in
    (can_recommend 140 c' 1 ≡ can_recommend 140 tracker 1)
    × (is_suppressed 140 c' 1 ≡ is_suppressed 140 tracker 1)
    × (length c'.last_recommendation ≡ active_count 130 tracker)
    × (length c'.last_suppression ≡ suppressed_count 130 tracker)
prune_expired_lem_example =
    prune_expired_lem 130 140 tracker 1 ((refl, tt), (tt, tt)) (tt, tt) (omega arith)

abbrev checker : StabilityChecker ℕ ℕ
checker = new config

abbrev seen : List Temperature
seen = cold ∷ hot ∷ hot ∷ []

is_stable_iff_example :
    let c = record_all checker 1 seen in
    ((is_stable c 1 ≡ some true) ↔ ((2 ≤ 3) × Constant (last_n 2 seen))) × (is_stable c 1 ≢ none)
is_stable_iff_example = is_stable_iff config 1 seen (omega arith)
