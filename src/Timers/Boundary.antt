-- ===== src/Timers/Boundary.antt =====
-- The event that timers.c arms for a timer's next boundary.
use zonistation_one.Base.{
  lt→ltb, if-true, u32, add32, sub32, bit, ℕ, ◌+◌, ◌-◌, ◌*◌, ◌^◌, ◌<◌, ◌≡◌, ap, ◌∙◌, true, arith,
}
use zonistation_one.Base.Bits.{bit-set_bit}
use zonistation_one.Cpu.Arithmetic.{fits}
use zonistation_one.Events.Queue.{truncate_downcount, eventq_schedule}
use zonistation_one.Machine.{Interconnect}
use zonistation_one.Timers.Counter.{timer_rebase, remaining_ticks, timers_reschedule}
use zonistation_one.Timers.Registers.{rebase_and_reschedule}
use zonistation_one.Timers.State.{Timer, timer_period_ticks, timer_rate_cycles}

module _ {D : Type 0} where
  -- Where an event is placed.
  eventq_schedule-placed :
      (sys : Interconnect D) (event cycles : ℕ)
      → (eventq_schedule sys event cycles).evq_target_cycle event
          ≡ add32 sys.cpu_cycle_counter cycles
        × bit (eventq_schedule sys event cycles).evq_pending event ≡ true
  unfolding eventq_schedule truncate_downcount
  eventq_schedule-placed sys event cycles =
      (ground arith, ground (arith, bit-set_bit sys.evq_pending event))

boundary :
    (now c r p : ℕ)
    → now < 2 ^ 32
    → c < p
    → p * r < 2 ^ 32
    → add32 now (u32 ((p - c) * r)) ≡ add32 (sub32 now (c * r)) (p * r)
boundary now c r p h below fits =
    let whole : p - c + c ≡ p = omega (arith, below) in
    let split : (p - c) * r + c * r ≡ (p - c + c) * r = grind arith in
    let total : (p - c) * r + c * r ≡ p * r = split ∙ ap (λ n. n * r) whole in
    omega (arith, total, fits, h)

module _ {D : Type 0} (video_rate : D → ℕ → ℕ) where
  -- Anchoring and re-arming a timer that counts leaves its event pending, at the cycle in which the
  -- counter derived from the new anchor reaches the period, if a period is shorter than 2^32 cycles.
  pub rebase_and_reschedule_lem :
      (t : Timer) (inter : Interconnect D) (i : ℕ)
      → t.counting_enabled ≡ true
      → inter.cpu_cycle_counter < 2 ^ 32
      → t.counter < timer_period_ticks t
      → timer_period_ticks t * timer_rate_cycles video_rate inter t i < 2 ^ 32
      → (rebase_and_reschedule video_rate (t, inter) i).1.evq_target_cycle (1 + i)
          ≡ add32
              (rebase_and_reschedule video_rate (t, inter) i).0.cycle_start
              (timer_period_ticks t * timer_rate_cycles video_rate inter t i)
        × bit (rebase_and_reschedule video_rate (t, inter) i).1.evq_pending (1 + i) ≡ true
  unfolding timers_reschedule timer_rebase timer_period_ticks timer_rate_cycles
  rebase_and_reschedule_lem t inter i e now below short =
      let p = timer_period_ticks t in
      let r = timer_rate_cycles video_rate inter t i in
      let cycles = u32 (remaining_ticks t * r) in
      let placed = eventq_schedule-placed inter (1 + i) cycles in
      let remaining : remaining_ticks t ≡ p - t.counter = if-true _ (lt→ltb _ _ below) in
      rw e (
        placed.0
            ∙ ap (λ (n : ℕ). add32 inter.cpu_cycle_counter (u32 (n * r))) remaining
            ∙ boundary inter.cpu_cycle_counter t.counter r p now below short,
        placed.1,
      )
