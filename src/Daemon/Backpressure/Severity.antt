-- ===== src/Daemon/Backpressure/Severity.antt =====
-- How restrictive the chosen action is, and what it lets through.
use Prim.Native.String.{String}
use ghost_pages.Common.{
  ℕ, ◌≤◌, ◌≡◌, ◌≢◌, inl, inr, Bool, true, false, [], ◌∷◌, All, Option, none, some, if◌then◌else◌,
  arith, Bool-cases, ◌==◌,
}
use ghost_pages.Core.Pressure.{Float, PressureState}
use ghost_pages.Core.Transfer.{TransferPriority, value}
use ghost_pages.Daemon.Backpressure.{
  BackpressureAction, allow, throttle, reject, critical_only, severity, allows, BackpressureConfig,
  BackpressureController, DiskReading, activated, deactivated, current_action, is_allow, emitted,
  commit, evaluate,
}

-- The severity that an escalation asks for; none asks for nothing.
abbrev pub demand : Option BackpressureAction → ℕ
demand none = 0
demand (some a) = severity a

-- What an action lets through, a less severe one lets through too, with the same priority or with a
-- higher one.
pub allows_mono :
    (a b : BackpressureAction) (p q : TransferPriority)
    → severity a ≤ severity b
    → value p ≤ value q
    → allows b p ≡ true
    → allows a q ≡ true
unfolding severity allows value
allows_mono a b p q h l k = ground arith

activated_only :
    (b : Bool) (name : String) → All (λ e. e ≢ deactivated) (if b then [] else activated name ∷ [])
activated_only true name = tt
activated_only false name = ((λ h. cc), tt)

emitted-activated :
    (a : BackpressureAction) (prev : ℕ) → All (λ e. e ≢ deactivated) (emitted a prev)
unfolding emitted is_allow severity
emitted-activated allow prev = elim (Bool-cases (prev == 0)) [
  | inl e ↦ rw e tt
  | inr e ↦ rw e ((λ h. cc), tt)
]
emitted-activated throttle prev = activated_only (prev == 1) _
emitted-activated reject prev = activated_only (prev == 2) _
emitted-activated critical_only prev = activated_only (prev == 3) _

module _ (fl : Float) where
  open fl use {F}

  -- Nothing asks for a restriction now.
  abbrev pub calm : Option BackpressureAction → BackpressureAction → Bool
  calm none allow = true
  calm _ _ = false

  -- The action that is stored is the one that was returned.
  pub current_action-evaluate :
      (cfg : BackpressureConfig F) (now wall : ℕ) (d : Option DiskReading) (p : PressureState F)
      (c : BackpressureController)
      → let r = evaluate fl cfg now wall d p c in current_action r.controller ≡ r.action
  unfolding evaluate commit current_action severity
  current_action-evaluate cfg now wall d p c = ground arith

  -- No evaluation ever reports that back-pressure was released.
  pub evaluate-never_released :
      (cfg : BackpressureConfig F) (now wall : ℕ) (d : Option DiskReading) (p : PressureState F)
      (c : BackpressureController)
      → All (λ e. e ≢ deactivated) (evaluate fl cfg now wall d p c).events
  unfolding evaluate commit
  evaluate-never_released cfg now wall d p c = emitted-activated _ c.current_byte
