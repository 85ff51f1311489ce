-- ===== src/Core/Pressure.antt =====
-- The pressure model of crates/ghost-core/src/state.rs. A floating-point type is a parameter:
-- its comparison and its literals are those of the hardware, of which only the type is used here.
use ghost_pages.Common.{ℕ, Bool, ◌||◌, ltb, if◌then◌else◌}
use ghost_pages.Core.Types.{TierId, ram, gpu_vram, disk}

-- What the code uses of `f32` and `f64`: `a < b`, `a <= b`, the literal n / 100, the conversion
-- of an integer, `max`, `min` and the four operations.
pub record Float : Type 1 where
  pub F : Type 0
  pub flt : F → F → Bool
  pub fle : F → F → Bool
  pub hundredths : ℕ → F
  pub of_ℕ : ℕ → F
  pub fmax : F → F → F
  pub fmin : F → F → F
  pub fadd : F → F → F
  pub fsub : F → F → F
  pub fmul : F → F → F
  pub fdiv : F → F → F

pub record PressureState (F : Type 0) : Type 0 where
  pub memory_pressure : F
  pub vram_pressure : F
  pub io_pressure : F
  pub queue_depth : ℕ
  pub throughput_bps : ℕ

module _ (fl : Float) where
  open fl use {F, flt, hundredths, fmax}

  unfoldable pub is_under_pressure : PressureState F → Bool
  is_under_pressure p =
      flt (hundredths 70) p.memory_pressure
      || flt (hundredths 70) p.vram_pressure
      || flt (hundredths 70) p.io_pressure

  unfoldable pub is_critical : PressureState F → Bool
  is_critical p =
      flt (hundredths 90) p.memory_pressure
      || flt (hundredths 90) p.vram_pressure
      || flt (hundredths 90) p.io_pressure

  unfoldable pub max_pressure : PressureState F → F
  max_pressure p = fmax (fmax p.memory_pressure p.vram_pressure) p.io_pressure

  -- The running maximum and the tier that it belongs to, after the first `if`.
  unfoldable pub worst_tier : PressureState F → TierId
  worst_tier p =
      let vram_worse = flt p.memory_pressure p.vram_pressure in
      let max_so_far = if vram_worse then p.vram_pressure else p.memory_pressure in
      let worst = if vram_worse then gpu_vram else ram in
      if flt max_so_far p.io_pressure then disk else worst

pub record PhysicalCost (F32 F64 : Type 0) : Type 0 where
  pub latency_ms : F64
  pub bandwidth_bps : F64
  pub reliability : F64
  pub io_pressure : F32
  pub queue_depth : ℕ

module _ (fl : Float) {F64 : Type 0} where
  unfoldable pub is_too_pressured : PhysicalCost fl.F F64 → Bool
  is_too_pressured c = fl.flt (fl.hundredths 85) c.io_pressure || ltb 64 c.queue_depth

-- `widen` is the cast of an `f32` to an `f64`.
module _ {F32 : Type 0} (fl : Float) (widen : F32 → fl.F) where
  open fl use {F, flt, of_ℕ, hundredths, fmax, fmin, fadd, fsub, fmul, fdiv}

  unfoldable pub cost_score : PhysicalCost F32 F → F
  cost_score c =
      let latency_factor = fmax c.latency_ms (of_ℕ 1) in
      let bandwidth_factor =
        if flt (of_ℕ 0) c.bandwidth_bps
        then fdiv (of_ℕ 1) (fmin (fdiv c.bandwidth_bps (of_ℕ 1_000_000)) (of_ℕ 100))
        else of_ℕ 100 in
      let reliability_penalty = fmul (fsub (of_ℕ 1) c.reliability) (of_ℕ 10) in
      let pressure_penalty = fmul (widen c.io_pressure) (of_ℕ 5) in
      let queue_penalty = fmul (fmin (of_ℕ c.queue_depth) (of_ℕ 100)) (hundredths 10) in
      fadd (fadd (fadd (fadd latency_factor bandwidth_factor) reliability_penalty) pressure_penalty)
        queue_penalty
