-- ===== src/Timers/Loop.antt =====
-- timers_catch_up_one of timers.c, which divides, against a loop over periods.
use mathlib.Core.Path.{subst}
use native.Mathlib.Decide.{dec_lt}
use zonistation_one.Base.{
  ltb, lt→ltb, if-true, if-false, u16, add32, sub32, ℕ, zero, suc, ◌-◌, ◌*◌, ◌/◌, ◌^◌, ◌≤◌, ◌<◌,
  ◌≡◌, refl, sym, ap, ap₂, ◌∙◌, false, some, arith,
}
use zonistation_one.Machine.{Interconnect}
use zonistation_one.Timers.CatchUp.{Counted, cross_once, moved_on, step_periods}
use zonistation_one.Timers.Counter.{ticks_since, catch_up_with, catch_up_at}
use zonistation_one.Timers.Periods.{
  fewer, ticks_less, timer_period_ticks-pos, cross_once-rate, cross_once-irq, cross_once-period,
  cross_once-cpu_cycle_counter, cross_once-irq_line_state-lt, catch_up_with-peel,
  catch_up_with-within, cross_once-counting_enabled, cross_once-clock_source, cross_once-devices,
}
use zonistation_one.Timers.State.{Timer, timer_period_ticks}

module _ {D : Type 0} where
  next_period : Timer → Interconnect D → Counted D
  next_period t inter = moved_on t (cross_once t inter)

  -- The ticks left after a period.
  next-ticks :
      (t : Timer) (inter : Interconnect D)
      → 0 < t.rate
      → timer_period_ticks t ≤ ticks_since t inter t.rate
      → ticks_since (next_period t inter).0 (next_period t inter).1 t.rate
        ≡ ticks_since t inter t.rate - timer_period_ticks t
  unfolding next_period
  next-ticks t inter positive h =
      let p = timer_period_ticks t in
      ap (λ (now : ℕ). sub32 now (add32 t.cycle_start (p * t.rate)) / t.rate)
        (cross_once-cpu_cycle_counter t inter)
      ∙ ticks_less inter.cpu_cycle_counter t.cycle_start t.rate p positive h

  next-period :
      (t : Timer) (inter : Interconnect D)
      → timer_period_ticks (next_period t inter).0 ≡ timer_period_ticks t
  unfolding next_period timer_period_ticks
  next-period t inter = cross_once-period t inter

  catch_up_at-next_period :
      (t : Timer) (inter : Interconnect D)
      → t.irq < 16
      → inter.irq_line_state < 2 ^ 16
      → 0 < t.rate
      → timer_period_ticks t ≤ ticks_since t inter t.rate
      → catch_up_at t inter ≡ catch_up_at (next_period t inter).0 (next_period t inter).1
  unfolding catch_up_at next_period
  catch_up_at-next_period t inter k line positive h =
      let next = next_period t inter in
      let e = ticks_since t inter t.rate in
      let p = timer_period_ticks t in
      catch_up_with-peel t inter t.rate e p (timer_period_ticks-pos t) h k line
      ∙ ap₂ (λ (e p : ℕ). catch_up_with next.0 next.1 t.rate e p)
          (sym (next-ticks t inter positive h)) (sym (next-period t inter))
      ∙ ap
          (λ (r : ℕ).
            catch_up_with next.0 next.1 r (ticks_since next.0 next.1 r) (timer_period_ticks next.0))
          (sym (cross_once-rate t inter))

  next-irq : (t : Timer) (inter : Interconnect D) → (next_period t inter).0.irq ≡ t.irq
  unfolding next_period
  next-irq t inter = cross_once-irq t inter

  next-rate : (t : Timer) (inter : Interconnect D) → (next_period t inter).0.rate ≡ t.rate
  unfolding next_period
  next-rate t inter = cross_once-rate t inter

  next-line :
      (t : Timer) (inter : Interconnect D)
      → inter.irq_line_state < 2 ^ 16
      → (next_period t inter).1.irq_line_state < 2 ^ 16
  unfolding next_period
  next-line t inter h = cross_once-irq_line_state-lt t inter h

  -- Ticks left, at the rate and the period that are left too.
  next-left :
      (t : Timer) (inter : Interconnect D) (fuel : ℕ)
      → 0 < t.rate
      → timer_period_ticks t ≤ ticks_since t inter t.rate
      → ticks_since t inter t.rate / timer_period_ticks t < suc fuel
      → ticks_since (next_period t inter).0 (next_period t inter).1 (next_period t inter).0.rate
          / timer_period_ticks (next_period t inter).0
        < fuel
  next-left t inter fuel positive h enough =
      let p = timer_period_ticks t in
      let e = ticks_since t inter t.rate in
      let less : e / p ≡ suc ((e - p) / p) = fewer e p (timer_period_ticks-pos t) h in
      let left : (e - p) / p < fuel = omega (arith, less, enough) in
      rw (next-rate t inter) (rw (next-period t inter) (rw (next-ticks t inter positive h) left))

  -- Induction on the periods: what is shown where less than a period is left, and carried over one
  -- period, holds of the division.
  module _ (P : ℕ → Timer → Interconnect D → Counted D → Type 0)
      (within : (fuel : ℕ) (t : Timer) (inter : Interconnect D)
        → ticks_since t inter t.rate < timer_period_ticks t
        → P (suc fuel) t inter (record t { counter = u16 (ticks_since t inter t.rate) }, inter))
      (beyond : (fuel : ℕ) (t : Timer) (inter : Interconnect D) (r : Counted D)
        → timer_period_ticks t ≤ ticks_since t inter t.rate
        → P fuel (next_period t inter).0 (next_period t inter).1 r
        → P (suc fuel) t inter r) where
    by_periods :
        (fuel : ℕ) (t : Timer) (inter : Interconnect D)
        → t.irq < 16
        → inter.irq_line_state < 2 ^ 16
        → 0 < t.rate
        → ticks_since t inter t.rate / timer_period_ticks t < fuel
        → P fuel t inter (catch_up_at t inter)
    unfolding catch_up_at
    by_periods zero t inter k line positive enough = absurd (omega (arith, enough))
    by_periods (suc fuel) t inter k line positive enough =
        elim (dec_lt (ticks_since t inter t.rate) (timer_period_ticks t)) [
          | yes last ↦
              subst (P (suc fuel) t inter)
                (sym (catch_up_with-within t inter t.rate _ (timer_period_ticks t) last))
                (within fuel t inter last)
          | no more ↦
              let h : timer_period_ticks t ≤ ticks_since t inter t.rate = omega (arith, more) in
              let rest : P fuel (next_period t inter).0 (next_period t inter).1
                  (catch_up_at (next_period t inter).0 (next_period t inter).1) =
                by_periods fuel (next_period t inter).0 (next_period t inter).1
                  (rw (next-irq t inter) k) (next-line t inter line)
                  (rw (next-rate t inter) positive) (next-left t inter fuel positive h enough) in
              subst (P (suc fuel) t inter) (sym (catch_up_at-next_period t inter k line positive h))
                (beyond fuel t inter _ h rest)
        ]

  -- The loop, given more steps than there are periods to take off, ends with what the division
  -- gives.
  pub step_periods-catch_up_at :
      (fuel : ℕ) (t : Timer) (inter : Interconnect D)
      → t.irq < 16
      → inter.irq_line_state < 2 ^ 16
      → 0 < t.rate
      → ticks_since t inter t.rate / timer_period_ticks t < fuel
      → step_periods fuel t inter ≡ some (catch_up_at t inter)
  unfolding step_periods next_period
  step_periods-catch_up_at fuel t inter k line positive enough =
      by_periods (λ fuel t inter r. step_periods fuel t inter ≡ some r)
        (λ fuel t inter last. if-true _ (lt→ltb _ _ last))
        (λ fuel t inter r more rest.
          let over : ltb (ticks_since t inter t.rate) (timer_period_ticks t) ≡ false =
            ground arith in
          if-false _ over ∙ rest)
        fuel t inter k line positive enough

  -- A timer whose counter is the ticks since `cycle_start`, less than a period.
  pub record IsSettled (r : Counted D) : Type 0 where
    pub below : ticks_since r.0 r.1 r.0.rate < timer_period_ticks r.0
    pub current : r.0.counter ≡ u16 (ticks_since r.0 r.1 r.0.rate)

  pub catch_up_at-IsSettled :
      (t : Timer) (inter : Interconnect D)
      → t.irq < 16
      → inter.irq_line_state < 2 ^ 16
      → 0 < t.rate
      → IsSettled (catch_up_at t inter)
  unfolding timer_period_ticks
  catch_up_at-IsSettled t inter k line positive =
      by_periods (λ fuel t inter r. IsSettled r)
        (λ fuel t inter last. record { below = last; current = refl })
        (λ fuel t inter r more rest. rest) (suc (ticks_since t inter t.rate / timer_period_ticks t))
        t inter k line positive (omega arith)

  pub IsSettled-catch_up_at : (r : Counted D) → IsSettled r → catch_up_at r.0 r.1 ≡ r
  unfolding catch_up_at
  IsSettled-catch_up_at r w =
      catch_up_with-within r.0 r.1 r.0.rate _ (timer_period_ticks r.0) w.below
      ∙ ap (λ (c : ℕ). (record (r.0) { counter = c }, r.1)) (sym w.current)

  -- What the rate of a timer depends on, besides its index.
  pub record KeepsClock (t : Timer) (inter : Interconnect D) (r : Counted D) : Type 0 where
    pub counting : r.0.counting_enabled ≡ t.counting_enabled
    pub source : r.0.clock_source ≡ t.clock_source
    pub devices : r.1.devices ≡ inter.devices
    pub rate : r.0.rate ≡ t.rate

  pub catch_up_at-KeepsClock :
      (t : Timer) (inter : Interconnect D)
      → t.irq < 16
      → inter.irq_line_state < 2 ^ 16
      → 0 < t.rate
      → KeepsClock t inter (catch_up_at t inter)
  unfolding next_period
  catch_up_at-KeepsClock t inter k line positive =
      by_periods (λ fuel t inter r. KeepsClock t inter r)
        (λ fuel t inter last. record {
          counting = refl;
          source = refl;
          devices = refl;
          rate = refl;
        })
        (λ fuel t inter r more rest. record {
          counting = rest.counting ∙ cross_once-counting_enabled t inter;
          source = rest.source ∙ cross_once-clock_source t inter;
          devices = rest.devices ∙ cross_once-devices t inter;
          rate = rest.rate ∙ cross_once-rate t inter;
        })
        (suc (ticks_since t inter t.rate / timer_period_ticks t)) t inter k line positive
        (omega arith)
