-- ===== src/Daemon/Backpressure.antt =====
-- crates/ghost-daemon/src/backpressure.rs: the controller that answers pressure. The readings of
-- the monotonic clock (in nanoseconds), of the wall clock and of the disk metrics are arguments.
pub mod Severity
pub mod Statistics
use Prim.Native.String.{String}
use ghost_pages.Common.{
  ℕ, ◌+◌, ◌-◌, ◌*◌, ◌%◌, ◌^◌, Bool, true, false, ◌||◌, List, [], ◌∷◌, Option, none, some, ltb, leb,
  ◌==◌, if◌then◌else◌,
}
use ghost_pages.Core.Pressure.{Float, PressureState, max_pressure}
use ghost_pages.Core.Transfer.{TransferPriority, low, normal, high, critical}
use ghost_pages.Core.Trace.{TraceEvent, pressure_escalated}

pub data BackpressureAction : Type 0 where
  allow throttle reject critical_only : BackpressureAction

-- The discriminant, `action as u8`; `evaluate` writes the same table out for `action_byte`.
unfoldable pub severity : BackpressureAction → ℕ
severity allow = 0
severity throttle = 1
severity reject = 2
severity critical_only = 3

unfoldable pub allows : BackpressureAction → TransferPriority → Bool
allows allow _ = true
allows throttle critical = true
allows throttle high = true
allows reject critical = true
allows critical_only critical = true
allows _ _ = false

pub record BackpressureConfig (F : Type 0) : Type 0 where
  pub throttle_threshold : F
  pub reject_threshold : F
  pub critical_threshold : F
  pub cooldown_secs : ℕ
  pub io_pressure_soft_limit : F
  pub io_pressure_hard_limit : F
  pub queue_depth_threshold : ℕ
  pub disk_queue_soft_limit : ℕ
  pub disk_queue_hard_limit : ℕ
  pub disk_latency_threshold_us : ℕ

pub record BackpressureStats : Type 0 where
  pub evaluations : ℕ
  pub allow_count : ℕ
  pub throttle_count : ℕ
  pub reject_count : ℕ
  pub critical_only_count : ℕ
  pub transfers_rejected : ℕ
  pub transfers_throttled : ℕ
  pub last_action_change : ℕ
  pub consecutive_same_action : ℕ
  pub disk_congestion_escalations : ℕ

pub record BackpressureController : Type 0 where
  pub current_byte : ℕ
  pub stats : BackpressureStats
  pub last_evaluation : ℕ
  pub pressure_since : Option ℕ

-- `get_queue_depth` and `get_rolling_latency` of the I/O metrics, when there are any.
pub record DiskReading : Type 0 where
  pub queue_depth : ℕ
  pub rolling_latency : ℕ

pub data Emitted : Type 0 where
  activated : String → Emitted
  deactivated : Emitted

unfoldable pub evaluate_disk_congestion :
    {F : Type 0} → BackpressureConfig F → Option DiskReading → Option BackpressureAction
evaluate_disk_congestion cfg none = none
evaluate_disk_congestion cfg (some d) =
    if leb cfg.disk_queue_hard_limit d.queue_depth
    then some reject
    else if leb cfg.disk_queue_soft_limit d.queue_depth
        || leb cfg.disk_latency_threshold_us d.rolling_latency
    then some throttle
    else none

-- The more restrictive of two escalations.
unfoldable pub combine :
    Option BackpressureAction → Option BackpressureAction → Option BackpressureAction
unfolding severity
combine (some disk) (some io) = if ltb (severity io) (severity disk) then some disk else some io
combine (some disk) none = some disk
combine none io = io

-- The `match` on the byte that is stored.
unfoldable pub current_action : BackpressureController → BackpressureAction
current_action c =
    if c.current_byte == 0
    then allow
    else if c.current_byte == 1
    then throttle
    else if c.current_byte == 2
    then reject
    else if c.current_byte == 3
    then critical_only
    else allow

abbrev pub bump : ℕ → ℕ
bump n = (n + 1) % 2 ^ 64

unfoldable pub count_action : BackpressureAction → BackpressureStats → BackpressureStats
count_action allow s = record s { allow_count = bump s.allow_count }
count_action throttle s = record s { throttle_count = bump s.throttle_count }
count_action reject s = record s { reject_count = bump s.reject_count }
count_action critical_only s = record s { critical_only_count = bump s.critical_only_count }

unfoldable pub count_change : Bool → ℕ → BackpressureStats → BackpressureStats
count_change changed wall s =
    if changed
    then record s { last_action_change = wall; consecutive_same_action = 0 }
    else record s { consecutive_same_action = bump s.consecutive_same_action }

unfoldable pub count_disk : Option BackpressureAction → BackpressureStats → BackpressureStats
unfolding severity
count_disk none s = s
count_disk (some a) s =
    if ltb 0 (severity a)
    then record s { disk_congestion_escalations = bump s.disk_congestion_escalations }
    else s

unfoldable pub level : BackpressureAction → String
level throttle = "throttle"
level reject = "reject"
level critical_only = "critical-only"
level allow = "allow"

unfoldable pub is_allow : BackpressureAction → Bool
is_allow allow = true
is_allow _ = false

-- `duration_since` saturates at zero; a second is 10^9 nanoseconds.
unfoldable pub in_cooldown : {F : Type 0} → BackpressureConfig F → ℕ → Option ℕ → Bool
in_cooldown cfg now none = false
in_cooldown cfg now (some start) = ltb (now - start) (cfg.cooldown_secs * 1_000_000_000)

abbrev pub start_pressure : ℕ → BackpressureAction × Option ℕ → Option ℕ
start_pressure now (allow, since) = since
start_pressure now (_, none) = some now
start_pressure now (_, some t) = some t

unfoldable pub emitted : BackpressureAction → ℕ → List Emitted
unfolding severity is_allow level
emitted action prev =
    if prev == severity action
    then (if is_allow action then (if prev == 0 then [] else deactivated ∷ []) else [])
    else activated (level action) ∷ []

module _ (fl : Float) where
  open fl use {F, fle}

  unfoldable pub overall_action : BackpressureConfig F → F → BackpressureAction
  overall_action cfg p =
      if fle cfg.critical_threshold p
      then critical_only
      else if fle cfg.reject_threshold p
      then reject
      else if fle cfg.throttle_threshold p
      then throttle
      else allow

  unfoldable pub io_escalation : BackpressureConfig F → PressureState F → Option BackpressureAction
  io_escalation cfg p =
      if fle cfg.io_pressure_hard_limit p.io_pressure
        || ltb (cfg.queue_depth_threshold * 2 % 2 ^ 32) p.queue_depth
      then some reject
      else if fle cfg.io_pressure_soft_limit p.io_pressure
          || ltb cfg.queue_depth_threshold p.queue_depth
      then some throttle
      else none

  -- The action, and `pressure_since` as the branch taken leaves it.
  unfoldable pub choose :
      BackpressureConfig F
      → ℕ
      → Option ℕ
      → Option BackpressureAction
      → F
      → BackpressureAction × Option ℕ
  unfolding overall_action severity in_cooldown is_allow
  choose cfg now since (some io) p =
      let overall = overall_action cfg p in
      (if ltb (severity overall) (severity io) then io else overall, since)
  choose cfg now since none p =
      let overall = overall_action cfg p in
      if is_allow overall
      then (if in_cooldown cfg now since then (throttle, since) else (allow, none))
      else (overall, since)

  unfoldable pub traced : PressureState F → ℕ → Bool → List (TraceEvent F)
  traced p wall changed =
      if changed
      then pressure_escalated p.memory_pressure p.vram_pressure p.io_pressure wall ∷ []
      else []

  pub record Evaluation : Type 0 where
    pub action : BackpressureAction
    pub controller : BackpressureController
    pub trace : List (TraceEvent F)
    pub events : List Emitted

  -- The part of `evaluate` after the action is chosen.
  unfoldable pub commit :
      (now wall : ℕ)
      → PressureState F
      → Option BackpressureAction
      → BackpressureController
      → BackpressureAction × Option ℕ
      → Evaluation
  unfolding severity count_action count_change count_disk
  commit now wall p disk c (action, since) =
      let changed = if c.current_byte == severity action then false else true in
      let s = record c.stats { evaluations = bump c.stats.evaluations } in
      record {
        action = action;
        controller = record {
          current_byte = severity action;
          stats = count_disk disk (count_change changed wall (count_action action s));
          last_evaluation = now;
          pressure_since = start_pressure now (action, since);
        };
        trace = traced p wall changed;
        events = emitted action c.current_byte;
      }

  unfoldable pub evaluate :
      BackpressureConfig F
      → (now wall : ℕ) → Option DiskReading
      → PressureState F
      → BackpressureController
      → Evaluation
  unfolding choose commit
  evaluate cfg now wall d p c =
      let disk = evaluate_disk_congestion cfg d in
      let escalation = combine disk (io_escalation cfg p) in
      commit now wall p disk c (choose cfg now c.pressure_since escalation (max_pressure fl p))

-- `should_allow`.
unfoldable pub should_allow :
    BackpressureController → TransferPriority → BackpressureController × Bool
unfolding current_action
should_allow c p = if allows (current_action c) p then (c, true) else (
  record c { stats = record c.stats { transfers_rejected = bump c.stats.transfers_rejected } },
  false,
)
