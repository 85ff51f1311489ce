-- ===== src/Daemon/Backpressure/Statistics.antt =====
-- The counters of the controller, and the moment from which the cooldown counts.
use ghost_pages.Common.{
  ℕ, ap, ◌+◌, ◌-◌, ◌*◌, ◌%◌, ◌^◌, ◌≤◌, ◌≡◌, Bool, true, false, Option, none, some, arith,
  if◌then◌else◌, ◌==◌,
}
use ghost_pages.Core.Pressure.{Float, PressureState, max_pressure}
use ghost_pages.Daemon.Backpressure.{
  BackpressureAction, allow, throttle, reject, critical_only, severity, BackpressureConfig,
  BackpressureStats, BackpressureController, DiskReading, evaluate_disk_congestion, combine, bump,
  count_action, count_change, count_disk, is_allow, in_cooldown, overall_action, io_escalation,
  choose, start_pressure, commit, evaluate,
}

-- The evaluations are those counted under the four actions, as 64-bit words.
pub record Balanced (s : BackpressureStats) : Type 0 where
  pub total :
      s.evaluations
      ≡ (s.allow_count + s.throttle_count + s.reject_count + s.critical_only_count) % 2 ^ 64

count_action-Balanced :
    (a : BackpressureAction) (s : BackpressureStats)
    → Balanced s
    → Balanced (count_action a (record s { evaluations = bump s.evaluations }))
unfolding count_action
count_action-Balanced allow s v = omega (arith, v.total)
count_action-Balanced throttle s v = omega (arith, v.total)
count_action-Balanced reject s v = omega (arith, v.total)
count_action-Balanced critical_only s v = omega (arith, v.total)

count_change-Balanced :
    (b : Bool) (wall : ℕ) (s : BackpressureStats) → Balanced s → Balanced (count_change b wall s)
unfolding count_change
count_change-Balanced true wall s v = record { total = v.total }
count_change-Balanced false wall s v = record { total = v.total }

count_disk-Balanced :
    (d : Option BackpressureAction) (s : BackpressureStats) → Balanced s → Balanced (count_disk d s)
unfolding count_disk
count_disk-Balanced none s v = v
count_disk-Balanced (some allow) s v = v
count_disk-Balanced (some throttle) s v = record { total = v.total }
count_disk-Balanced (some reject) s v = record { total = v.total }
count_disk-Balanced (some critical_only) s v = record { total = v.total }

module _ (fl : Float) where
  open fl use {F}

  commit-Balanced :
      (now wall : ℕ) (p : PressureState F) (disk : Option BackpressureAction)
      (c : BackpressureController) (choice : BackpressureAction × Option ℕ)
      → Balanced c.stats
      → Balanced (commit fl now wall p disk c choice).controller.stats
  unfolding commit
  commit-Balanced now wall p disk c (action, since) v =
      let changed = if c.current_byte == severity action then false else true in
      let counted =
        count_action action (record c.stats { evaluations = bump c.stats.evaluations }) in
      count_disk-Balanced disk (count_change changed wall counted)
        (count_change-Balanced changed wall counted (count_action-Balanced action c.stats v))

  -- If the count of evaluations is, modulo 2^64, the sum of the counts of the four actions, it is
  -- so after any evaluation.
  pub evaluate-Balanced :
      (cfg : BackpressureConfig F) (now wall : ℕ) (d : Option DiskReading) (p : PressureState F)
      (c : BackpressureController)
      → Balanced c.stats
      → Balanced (evaluate fl cfg now wall d p c).controller.stats
  unfolding evaluate
  evaluate-Balanced cfg now wall d p c v =
      let disk = evaluate_disk_congestion cfg d in
      commit-Balanced now wall p disk c
        (choose fl cfg now c.pressure_since (combine disk (io_escalation fl cfg p))
          (max_pressure fl p))
        v

  choose_lifts :
      (cfg : BackpressureConfig F) (now start : ℕ) (since : Option ℕ)
      (e : Option BackpressureAction) (p : F)
      → since ≡ some start
      → cfg.cooldown_secs * 1_000_000_000 ≤ now - start
      → e ≡ none
      → overall_action fl cfg p ≡ allow
      → choose fl cfg now since e p ≡ (allow, none)
  unfolding choose is_allow in_cooldown
  choose_lifts cfg now start (some t) none p f h e g = rw g (ground arith)
  choose_lifts cfg now start none e p f h i g = cc
  choose_lifts cfg now start since (some a) p f h e g = cc

  -- The cooldown counts from the first evaluation under pressure and not from the last: once it is
  -- over, the first calm evaluation lifts every restriction, whatever was in force before it.
  pub evaluate-lifts :
      (cfg : BackpressureConfig F) (now wall start : ℕ) (d : Option DiskReading)
      (p : PressureState F) (c : BackpressureController)
      → c.pressure_since ≡ some start
      → cfg.cooldown_secs * 1_000_000_000 ≤ now - start
      → combine (evaluate_disk_congestion cfg d) (io_escalation fl cfg p) ≡ none
      → overall_action fl cfg (max_pressure fl p) ≡ allow
      → let r = evaluate fl cfg now wall d p c in
        (r.action ≡ allow) × (r.controller.pressure_since ≡ none)
  unfolding evaluate commit
  evaluate-lifts cfg now wall start d p c e h f g =
      let chosen = choose_lifts cfg now start c.pressure_since _ (max_pressure fl p) e h f g in
      (ap (λ x. x.0) chosen, ap (start_pressure now) chosen)
