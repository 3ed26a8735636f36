-- ===== src/Timers/State.antt =====
-- timers.h and timers.c: a timer, its clock and its period.
-- `inter` is always set here, as timers_init leaves it. The fields `counter_state`, `irq_state`,
-- `cycle` and `fractional_ticks`, which are only ever given their first value, are left out.
use zonistation_one.Base.{
  ◌==◌, ◌!=◌, if◌then◌else◌, bit, set_bit, clear_bit, ℕ, max, Bool, true, not, ◌&&◌, ◌||◌,
}
use zonistation_one.Bus.Irq.{interconnect_request_irq}
use zonistation_one.Machine.{Interconnect}

pub record Timer : Type 0 where
  pub counter : ℕ  -- uint16_t
  pub mode : ℕ  -- uint16_t
  pub target : ℕ  -- uint16_t
  pub sync_enable : Bool
  pub sync_mode : ℕ
  pub reset_on_target : Bool
  pub irq_on_target : Bool
  pub irq_on_ffff : Bool
  pub irq_repeat : Bool
  pub irq_pulse : Bool
  pub clock_source : ℕ
  pub interrupt_requested : Bool
  pub reached_target_flag : Bool
  pub reached_ffff_flag : Bool
  pub gate : Bool
  pub counting_enabled : Bool
  pub rate : ℕ
  pub irq : ℕ
  pub cycle_start : ℕ

-- `struct Timers`, and the Interconnect that its `inter` points to.
pub record System (D : Type 0) : Type 0 where
  pub timers : ℕ → Timer
  pub inter : Interconnect D

-- `timer_index` 2 has no gate: sync modes 0 and 3 stop it.
unfoldable pub timer_update_counting_enabled : Timer → ℕ → Timer
timer_update_counting_enabled t timer_index = record t {
  counting_enabled =
      if timer_index != 2
      then (if t.sync_enable
          then (if t.sync_mode == 0
              then not t.gate
              else if t.sync_mode == 1
              then true
              else if t.sync_mode == 2 || t.sync_mode == 3
              then t.gate
              else t.counting_enabled)
          else true)
      else not t.sync_enable || t.sync_mode == 1 || t.sync_mode == 2;
}

-- Ticks from 0 back to 0.
unfoldable pub timer_period_ticks : Timer → ℕ
timer_period_ticks t = if t.reset_on_target && t.target != 0 then t.target else 0x1_0000

module _ {D : Type 0} (video_rate : D → ℕ → ℕ) where
  -- CPU cycles of a tick. `video_rate` is the CPU's clock over the dot clock or over the scanline
  -- rate of the GPU's video mode, rounded, which the source computes in `double`.
  unfoldable pub timer_rate_cycles : Interconnect D → Timer → ℕ → ℕ
  timer_rate_cycles inter t i =
      if i == 0 || i == 1
      then (if bit t.clock_source 0 then max 1 (video_rate inter.devices i) else 1)
      else if bit t.clock_source 1
      then 8
      else 1

-- Setting a timer's request bit 10, and lowering it.
abbrev pub request_bit : ℕ
request_bit = 10

-- The interrupt line, unless I_STAT shows it already.
unfoldable pub raise : {D : Type 0} → Interconnect D → ℕ → Interconnect D
raise inter irq = if bit inter.irq_status irq then inter else interconnect_request_irq inter irq

-- In toggle mode the request bit flips, and the line rises only with it. A one-shot timer is
-- disarmed.
unfoldable pub timer_fire_irq : {D : Type 0} → Timer → Interconnect D → Timer × Interconnect D
timer_fire_irq t inter =
    let lowers = t.irq_pulse && bit t.mode request_bit in
    let mode = if lowers then clear_bit t.mode request_bit else set_bit t.mode request_bit in
    (
      record t {
        mode = if t.irq_repeat then mode else clear_bit (clear_bit mode 4) 5;
        irq_on_target = t.irq_repeat && t.irq_on_target;
        irq_on_ffff = t.irq_repeat && t.irq_on_ffff;
      },
      if lowers then inter else raise inter t.irq,
    )
