-- ===== src/Linux/Temperature.antt =====
-- `Temperature` of crates/ghost-core/src/hotness_provider.rs, and the configuration of the policy's
-- stability rules of crates/ghost-linux/src/policy_rules.rs.
use ghost_pages.Common.{ℕ, Bool, true, false, leb, if◌then◌else◌}
use ghost_pages.Core.Types.{TierId, ram, disk}

pub data Temperature : Type 0 where
  hot warm cold frozen : Temperature

abbrev pub temperature_eqb : Temperature → Temperature → Bool
temperature_eqb hot hot = true
temperature_eqb warm warm = true
temperature_eqb cold cold = true
temperature_eqb frozen frozen = true
temperature_eqb _ _ = false

unfoldable pub from_access_count : ℕ → Temperature
from_access_count count =
    if leb 100 count
    then hot
    else if leb 20 count
    then warm
    else if leb 1 count
    then cold
    else frozen

unfoldable pub to_tier : Temperature → TierId
to_tier hot = ram
to_tier warm = ram
to_tier cold = disk
to_tier frozen = disk

unfoldable pub temperature_value : Temperature → ℕ
temperature_value hot = 3
temperature_value warm = 2
temperature_value cold = 1
temperature_value frozen = 0

pub record StabilityConfig (F : Type 0) : Type 0 where
  pub recommendation_cooldown_secs : ℕ
  pub temperature_stability_window : ℕ
  pub hysteresis_margin : F
  pub max_recommendations_per_cycle : ℕ
  pub min_confidence_threshold : F
  pub suppression_cooldown_secs : ℕ
