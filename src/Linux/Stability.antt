-- ===== src/Linux/Stability.antt =====
-- crates/ghost-linux/src/stability.rs: the recent temperatures of each region. The keys are of any
-- ordered type; a panic (an index out of range) is `none`; the casts between integers and floats of
-- the hysteresis are arguments.
pub mod Window
use ghost_pages.Common.{
  ℕ, zero, suc, ◌+◌, ◌-◌, ◌*◌, ◌/◌, max, Bool, true, false, not, List, [], ◌∷◌, ◌++◌, Option, none,
  some, length, drop, all, ltb, leb, if◌then◌else◌,
}
use ghost_pages.Common.Order.{Ord}
use ghost_pages.Common.BTreeMap.{BTreeMap, get, insert, remove}
use ghost_pages.Core.Pressure.{Float}
use ghost_pages.Linux.Temperature.{
  Temperature, hot, warm, cold, frozen, temperature_eqb, temperature_value, from_access_count,
  StabilityConfig,
}

pub data TemperatureTrend : Type 0 where
  stable : Temperature → TemperatureTrend
  warming cooling : (first last : Temperature) → TemperatureTrend
  flapping : TemperatureTrend

pub record StabilityChecker (K F : Type 0) : Type 0 where
  pub history : BTreeMap K (List Temperature)
  pub config : StabilityConfig F

-- The loop that removes the oldest entry while there are too many.
unfoldable pub trim : ℕ → List Temperature → List Temperature
trim max_len [] = []
trim max_len (t ∷ ts) =
    let rest = trim max_len ts in if ltb max_len (length (t ∷ ts)) then rest else t ∷ ts

-- `unwrap_or_default` of the entry.
unfoldable pub entry : Option (List Temperature) → List Temperature
entry none = []
entry (some ts) = ts

-- `window[0]`, and the comparison of the window with it.
unfoldable pub all_same : List Temperature → Option Bool
all_same [] = none
all_same (first ∷ rest) = some (all (λ t. temperature_eqb t first) (first ∷ rest))

unfoldable pub first_of : List Temperature → Option Temperature
first_of [] = none
first_of (t ∷ _) = some t

-- How often neighbours differ.
unfoldable pub changes : List Temperature → ℕ
changes [] = 0
changes (t ∷ []) = 0
changes (t ∷ u ∷ ts) = (if temperature_eqb u t then 0 else 1) + changes (u ∷ ts)

unfoldable pub last_of : Temperature → List Temperature → Temperature
last_of t [] = t
last_of t (u ∷ us) = last_of u us

unfoldable pub trend_of : List Temperature → TemperatureTrend
unfolding changes last_of temperature_value
trend_of [] = stable frozen
trend_of (t ∷ []) = stable t
trend_of (t ∷ u ∷ ts) =
    let last = last_of t (u ∷ ts) in
    if ltb (length (t ∷ u ∷ ts) / 2) (changes (t ∷ u ∷ ts))
    then flapping
    else if ltb (temperature_value t) (temperature_value last)
    then warming t last
    else if ltb (temperature_value last) (temperature_value t)
    then cooling t last
    else stable last

module _ {K F : Type 0} ⦃o : Ord K⦄ where
  unfoldable pub new : StabilityConfig F → StabilityChecker K F
  new config = record { history = []; config = config }

  unfoldable pub record_temperature : StabilityChecker K F → K → Temperature → StabilityChecker K F
  unfolding trim entry
  record_temperature c k t = record c {
    history =
        insert k
          (trim (c.config.temperature_stability_window * 2) (entry (get k c.history) ++ t ∷ []))
          c.history;
  }

  unfoldable pub is_stable : StabilityChecker K F → K → Option Bool
  unfolding all_same
  is_stable c k = elim (get k c.history) [
    | none ↦ some false
    | some ts ↦
        if ltb (length ts) c.config.temperature_stability_window
        then some false
        else all_same (drop (length ts - c.config.temperature_stability_window) ts)
  ]

  -- The outer result is a panic, the inner one the answer.
  unfoldable pub stable_temperature : StabilityChecker K F → K → Option (Option Temperature)
  unfolding is_stable first_of
  stable_temperature c k = elim (is_stable c k) [
    | none ↦ none
    | some false ↦ some none
    | some true ↦ elim (get k c.history) [
      | none ↦ some none
      | some ts ↦ elim (first_of (drop (length ts - c.config.temperature_stability_window) ts)) [
        | none ↦ none
        | some t ↦ some (some t)
      ]
    ]
  ]

  unfoldable pub trend : StabilityChecker K F → K → Option TemperatureTrend
  unfolding trend_of entry
  trend c k = some (trend_of (entry (get k c.history)))

  unfoldable pub observation_count : StabilityChecker K F → K → ℕ
  unfolding entry
  observation_count c k = length (entry (get k c.history))

  unfoldable pub clear_region : StabilityChecker K F → K → StabilityChecker K F
  clear_region c k = record c { history = remove k c.history }

  unfoldable pub clear_all : StabilityChecker K F → StabilityChecker K F
  clear_all c = record c { history = [] }

  unfoldable pub record_all : StabilityChecker K F → K → List Temperature → StabilityChecker K F
  record_all c k [] = c
  record_all c k (t ∷ ts) = record_all (record_temperature c k t) k ts

-- `to_u64` is the saturating cast of a float to an integer.
module _ {K : Type 0} (fl : Float) (to_u64 : fl.F → ℕ) where
  open fl use {F, of_ℕ, fadd, fsub, fmul}

  unfoldable pub classify_with_hysteresis :
      StabilityChecker K F
      → Temperature
      → (access_count hot_threshold cold_threshold : ℕ) → Temperature
  classify_with_hysteresis c hot n hot_threshold cold_threshold =
      if ltb n
        (max (to_u64 (fmul (of_ℕ cold_threshold) (fsub (of_ℕ 1) c.config.hysteresis_margin))) 1)
      then from_access_count n
      else hot
  classify_with_hysteresis c warm n hot_threshold cold_threshold =
      if ltb n
        (max (to_u64 (fmul (of_ℕ cold_threshold) (fsub (of_ℕ 1) c.config.hysteresis_margin))) 1)
      then from_access_count n
      else warm
  classify_with_hysteresis c cold n hot_threshold cold_threshold =
      if leb (to_u64 (fmul (of_ℕ hot_threshold) (fadd (of_ℕ 1) c.config.hysteresis_margin))) n
      then from_access_count n
      else cold
  classify_with_hysteresis c frozen n hot_threshold cold_threshold =
      if leb (to_u64 (fmul (of_ℕ hot_threshold) (fadd (of_ℕ 1) c.config.hysteresis_margin))) n
      then from_access_count n
      else frozen
