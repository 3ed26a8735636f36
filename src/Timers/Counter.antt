-- ===== src/Timers/Counter.antt =====
-- timers.c: the counter derived from the cycle counter, and the event at the next boundary.
use zonistation_one.Base.{
  ltb, leb, ◌==◌, ◌!=◌, if◌then◌else◌, u16, u32, add32, sub32, bit, set_bit, ℕ, ◌+◌, ◌-◌, ◌*◌, ◌/◌,
  ◌%◌, ◌^◌, Bool, not, ◌&&◌, ◌||◌,
}
use zonistation_one.Events.Queue.{eventq_schedule}
use zonistation_one.Machine.{Interconnect}
use zonistation_one.Timers.State.{
  Timer, timer_period_ticks, timer_rate_cycles, request_bit, raise, timer_fire_irq,
}

-- Which boundary a period ends at.
abbrev pub hits_target : Timer → Bool
hits_target t = t.reset_on_target && t.target != 0

abbrev pub armed : Timer → Bool
armed t = if hits_target t then t.irq_on_target else t.irq_on_ffff

-- The sticky flag of the boundary.
abbrev pub flag_boundary : Timer → Timer
flag_boundary t = record t {
  reached_target_flag = t.reached_target_flag || hits_target t;
  reached_ffff_flag = t.reached_ffff_flag || not (hits_target t);
}

abbrev pub flip_bit : ℕ → ℕ → ℕ
flip_bit x k = if bit x k then x - 2 ^ k else x + 2 ^ k

-- Crossings 2 to N, `rest` of them: in toggle mode their parity and whether one of them rises.
unfoldable pub later_crossings : {D : Type 0} → Timer → Interconnect D → ℕ → Timer × Interconnect D
later_crossings t inter rest =
    if armed t && rest != 0
    then (if t.irq_pulse
        then (
          record t { mode = if rest % 2 == 1 then flip_bit t.mode request_bit else t.mode },
          if (if bit t.mode request_bit then leb 2 rest else leb 1 rest)
              then raise inter t.irq
              else inter,
        )
        else (record t { mode = set_bit t.mode request_bit }, inter))
    else (t, inter)

-- The flags and the interrupt of `crossings` boundaries.
unfoldable pub cross_boundaries : {D : Type 0} → Timer → Interconnect D → ℕ → Timer × Interconnect D
cross_boundaries t inter crossings =
    let flagged = flag_boundary t in
    if armed flagged
    then (let (fired, raised) = timer_fire_irq flagged inter in
        later_crossings fired raised (crossings - 1))
    else (flagged, inter)

-- Ticks since `cycle_start`.
abbrev pub ticks_since : {D : Type 0} → Timer → Interconnect D → ℕ → ℕ
ticks_since t inter rate = sub32 inter.cpu_cycle_counter t.cycle_start / rate

-- `timers_catch_up_one` from the count of the ticks on.
unfoldable pub catch_up_with :
    {D : Type 0} → Timer → Interconnect D → ℕ → ℕ → ℕ → Timer × Interconnect D
catch_up_with t inter rate elapsed period =
    if ltb elapsed period
    then (record t { counter = u16 elapsed }, inter)
    else (let crossings = elapsed / period in
        let (crossed, after) = cross_boundaries t inter crossings in
        (
          record crossed {
            cycle_start = add32 t.cycle_start (crossings * period * rate);
            counter = u16 (elapsed - crossings * period);
          },
          after,
        ))

-- For a timer that counts, at its rate.
unfoldable pub catch_up_at : {D : Type 0} → Timer → Interconnect D → Timer × Interconnect D
catch_up_at t inter =
    catch_up_with t inter t.rate (ticks_since t inter t.rate) (timer_period_ticks t)

-- Ticks to the next boundary.
abbrev pub remaining_ticks : Timer → ℕ
remaining_ticks t =
    if ltb t.counter (timer_period_ticks t) then timer_period_ticks t - t.counter else 1

module _ {D : Type 0} (video_rate : D → ℕ → ℕ) where
  unfoldable pub timers_catch_up_one : Timer → Interconnect D → ℕ → Timer × Interconnect D
  timers_catch_up_one t inter i =
      if t.counting_enabled
      then catch_up_at (record t { rate = timer_rate_cycles video_rate inter t i }) inter
      else (t, inter)

  -- `cycle_start` such that the counter derived now is `t.counter`.
  unfoldable pub timer_rebase : Timer → Interconnect D → ℕ → Timer
  timer_rebase t inter i =
      let rate = timer_rate_cycles video_rate inter t i in
      record t { rate = rate; cycle_start = sub32 inter.cpu_cycle_counter (t.counter * rate) }

  -- EVQ_TIMER0 is event 1.
  unfoldable pub timers_reschedule : Timer → Interconnect D → ℕ → Timer × Interconnect D
  timers_reschedule t inter i =
      if t.counting_enabled
      then (let rate = timer_rate_cycles video_rate inter t i in
          (
            record t { rate = rate },
            eventq_schedule inter (1 + i) (u32 (remaining_ticks t * rate)),
          ))
      else (t, inter)
