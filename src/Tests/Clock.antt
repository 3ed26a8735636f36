-- ===== src/Tests/Clock.antt =====
-- Timer 1 of src/core/timers.c at the system clock, 100 cycles after its anchor, with a target of 7
-- and a toggled interrupt.
use zonistation_one.Base.{add32, bit, ℕ, ◌*◌, ◌≡◌, refl, true, false, some, arith}
use zonistation_one.Tests.{bus}
use zonistation_one.Timers.Boundary.{rebase_and_reschedule_lem}
use zonistation_one.Timers.CatchUp.{step_periods}
use zonistation_one.Timers.Counter.{
  later_crossings, cross_boundaries, catch_up_with, catch_up_at, timers_catch_up_one, timer_rebase,
}
use zonistation_one.Timers.Registers.{rebase_and_reschedule}
use zonistation_one.Timers.Settled.{
  timers_catch_up_one-step_periods, timers_catch_up_one-timers_catch_up_one,
  timers_catch_up_one-timer_rebase,
}
use zonistation_one.Timers.State.{Timer, timer_period_ticks, timer_rate_cycles, timer_fire_irq}

abbrev timer : Timer
timer = record {
  counter = 0;
  mode = 0xD8;
  target = 7;
  sync_enable = false;
  sync_mode = 0;
  reset_on_target = true;
  irq_on_target = true;
  irq_on_ffff = false;
  irq_repeat = true;
  irq_pulse = true;
  clock_source = 0;
  interrupt_requested = false;
  reached_target_flag = false;
  reached_ffff_flag = false;
  gate = false;
  counting_enabled = true;
  rate = 1;
  irq = 5;
  cycle_start = 0;
}

abbrev scanline : Unit {0} → ℕ → ℕ
scanline d i = 2172

timers_catch_up_one-step_periods_example :
    step_periods 15 (record timer { rate = timer_rate_cycles scanline bus timer 1 }) bus
    ≡ some (timers_catch_up_one scanline timer bus 1)
unfolding timer_period_ticks timer_rate_cycles
timers_catch_up_one-step_periods_example =
    timers_catch_up_one-step_periods scanline timer bus 1 15 refl (omega arith) (omega arith)
      (omega arith)

-- 14 boundaries in 100 cycles leave the counter at 2 and the request bit, which 14 flips restore, at
-- 0; the line has risen.
caught : Timer → ℕ
caught t = t.counter

counter_after : caught (timers_catch_up_one scanline timer bus 1).0 ≡ 2
unfolding caught timers_catch_up_one catch_up_at catch_up_with timer_rate_cycles timer_period_ticks
    cross_boundaries later_crossings timer_fire_irq
counter_after = refl

timers_catch_up_one-timers_catch_up_one_example :
    timers_catch_up_one scanline
      (timers_catch_up_one scanline timer bus 1).0
      (timers_catch_up_one scanline timer bus 1).1
      1
    ≡ timers_catch_up_one scanline timer bus 1
timers_catch_up_one-timers_catch_up_one_example =
    timers_catch_up_one-timers_catch_up_one scanline timer bus 1 (omega arith) (omega arith)

timers_catch_up_one-timer_rebase_example :
    timers_catch_up_one scanline (timer_rebase scanline timer bus 1) bus 1
    ≡ (timer_rebase scanline timer bus 1, bus)
unfolding timer_period_ticks timer_rate_cycles
timers_catch_up_one-timer_rebase_example =
    timers_catch_up_one-timer_rebase scanline timer bus 1 (omega arith) (omega arith) (omega arith)
      (omega arith)

rebase_and_reschedule_lem_example :
    (rebase_and_reschedule scanline (timer, bus) 1).1.evq_target_cycle 2
      ≡ add32
          (rebase_and_reschedule scanline (timer, bus) 1).0.cycle_start
          (timer_period_ticks timer * timer_rate_cycles scanline bus timer 1)
    × bit (rebase_and_reschedule scanline (timer, bus) 1).1.evq_pending 2 ≡ true
unfolding timer_period_ticks timer_rate_cycles
rebase_and_reschedule_lem_example =
    rebase_and_reschedule_lem scanline timer bus 1 refl (omega arith) (omega arith) (omega arith)
