-- ===== src/Linux/Cooldown.antt =====
-- crates/ghost-linux/src/cooldown.rs: the times of the last recommendation and the last suppression
-- of each region. The keys are strings there, and any ordered type here; the reading of the clock is
-- an argument.
pub mod Pruning
use ghost_pages.Common.{
  ℕ, ◌-◌, Bool, true, false, [], Option, none, some, length, filter, leb, ltb, if◌then◌else◌,
}
use ghost_pages.Common.Order.{Ord}
use ghost_pages.Common.BTreeMap.{BTreeMap, get, insert}
use ghost_pages.Linux.Temperature.{StabilityConfig}

pub record CooldownTracker (K F : Type 0) : Type 0 where
  pub last_recommendation : BTreeMap K ℕ
  pub last_suppression : BTreeMap K ℕ
  pub config : StabilityConfig F

module _ {K F : Type 0} ⦃o : Ord K⦄ where
  unfoldable pub new : StabilityConfig F → CooldownTracker K F
  new config = record { last_recommendation = []; last_suppression = []; config = config }

  unfoldable pub can_recommend : ℕ → CooldownTracker K F → K → Bool
  can_recommend now c k = elim (get k c.last_recommendation) [
    | none ↦ true
    | some last_time ↦ leb c.config.recommendation_cooldown_secs (now - last_time)
  ]

  unfoldable pub record_recommendation : ℕ → CooldownTracker K F → K → CooldownTracker K F
  record_recommendation now c k = record c {
    last_recommendation = insert k now c.last_recommendation;
  }

  unfoldable pub record_suppression : ℕ → CooldownTracker K F → K → CooldownTracker K F
  record_suppression now c k = record c { last_suppression = insert k now c.last_suppression }

  unfoldable pub remaining_cooldown : ℕ → CooldownTracker K F → K → Option ℕ
  remaining_cooldown now c k = elim (get k c.last_recommendation) [
    | none ↦ none
    | some last_time ↦
        if ltb (now - last_time) c.config.recommendation_cooldown_secs
        then some (c.config.recommendation_cooldown_secs - (now - last_time))
        else none
  ]

  unfoldable pub prune_expired : ℕ → CooldownTracker K F → CooldownTracker K F
  prune_expired now c = record c {
    last_recommendation =
        filter (λ e. ltb (now - e.1) c.config.recommendation_cooldown_secs) c.last_recommendation;
    last_suppression =
        filter (λ e. ltb (now - e.1) c.config.suppression_cooldown_secs) c.last_suppression;
  }

  unfoldable pub active_count : ℕ → CooldownTracker K F → ℕ
  active_count now c =
      length
        (filter (λ e. ltb (now - e.1) c.config.recommendation_cooldown_secs) c.last_recommendation)

  unfoldable pub suppressed_count : ℕ → CooldownTracker K F → ℕ
  suppressed_count now c =
      length (filter (λ e. ltb (now - e.1) c.config.suppression_cooldown_secs) c.last_suppression)

  unfoldable pub is_suppressed : ℕ → CooldownTracker K F → K → Bool
  is_suppressed now c k = elim (get k c.last_suppression) [
    | none ↦ false
    | some last_time ↦ ltb (now - last_time) c.config.suppression_cooldown_secs
  ]
