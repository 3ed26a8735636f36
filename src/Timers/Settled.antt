-- ===== src/Timers/Settled.antt =====
-- What catching a timer up guarantees, over timers.c.
use native.Mathlib.Nat.{mul-div_cancel}
use zonistation_one.Base.{
  ◌==◌, if◌then◌else◌, Bool-cases, if-true, if-false, sub32, bit, ℕ, ◌*◌, ◌/◌, ◌^◌, ◌<◌, max, ◌≡◌,
  refl, sym, ap, ap₂, ◌∙◌, inl, inr, true, false, ◌||◌, some, arith,
}
use zonistation_one.Cpu.Arithmetic.{fits}
use zonistation_one.Machine.{Interconnect}
use zonistation_one.Timers.CatchUp.{Counted, step_periods}
use zonistation_one.Timers.Counter.{ticks_since, catch_up_at, timers_catch_up_one, timer_rebase}
use zonistation_one.Timers.Loop.{
  step_periods-catch_up_at, catch_up_at-IsSettled, IsSettled-catch_up_at, catch_up_at-KeepsClock,
  IsSettled,
}
use zonistation_one.Timers.State.{Timer, timer_period_ticks, timer_rate_cycles}

back : (now n : ℕ) → now < 2 ^ 32 → n < 2 ^ 32 → sub32 now (sub32 now n) ≡ n
back now n h k = omega arith

module _ {D : Type 0} (video_rate : D → ℕ → ℕ) where
  timer_rate_cycles-pos :
      (inter : Interconnect D) (t : Timer) (i : ℕ) → 0 < timer_rate_cycles video_rate inter t i
  unfolding timer_rate_cycles
  timer_rate_cycles-pos inter t i = ground arith

  at_rate : Timer → Interconnect D → ℕ → Timer
  at_rate t inter i = record t { rate = timer_rate_cycles video_rate inter t i }

  caught_up :
      (t : Timer) (inter : Interconnect D) (i : ℕ)
      → t.counting_enabled ≡ true
      → timers_catch_up_one video_rate t inter i ≡ catch_up_at (at_rate t inter i) inter
  unfolding timers_catch_up_one at_rate
  caught_up t inter i e = if-true _ e

  -- Catching up a timer that counts does what a loop does that takes one period off at a time, with
  -- the flag and the interrupt of each boundary, until less than a period is left: the loop ends
  -- within one step more than there are periods, with the same timer and the same interconnect.
  pub timers_catch_up_one-step_periods :
      (t : Timer) (inter : Interconnect D) (i fuel : ℕ)
      → t.counting_enabled ≡ true
      → t.irq < 16
      → inter.irq_line_state < 2 ^ 16
      → ticks_since t inter (timer_rate_cycles video_rate inter t i) / timer_period_ticks t < fuel
      → step_periods fuel (record t { rate = timer_rate_cycles video_rate inter t i }) inter
        ≡ some (timers_catch_up_one video_rate t inter i)
  unfolding at_rate timer_period_ticks
  timers_catch_up_one-step_periods t inter i fuel e k line enough =
      step_periods-catch_up_at fuel (at_rate t inter i) inter k line
        (timer_rate_cycles-pos inter t i) enough
      ∙ ap (λ (r : Counted D). some r) (sym (caught_up t inter i e))

  same_rate :
      (t u : Timer) (inter after : Interconnect D) (i : ℕ)
      → u.clock_source ≡ t.clock_source
      → after.devices ≡ inter.devices
      → timer_rate_cycles video_rate after u i ≡ timer_rate_cycles video_rate inter t i
  unfolding timer_rate_cycles
  same_rate t u inter after i p q =
      ap₂
        (λ (s : ℕ) (d : D).
          if i == 0 || i == 1
          then (if bit s 0 then max 1 (video_rate d i) else 1)
          else if bit s 1
          then 8
          else 1)
        p q

  stopped :
      (t : Timer) (inter : Interconnect D) (i : ℕ)
      → t.counting_enabled ≡ false
      → timers_catch_up_one video_rate t inter i ≡ (t, inter)
  unfolding timers_catch_up_one
  stopped t inter i e = if-false _ e

  again :
      (t : Timer) (inter : Interconnect D) (i : ℕ)
      → t.counting_enabled ≡ true
      → t.irq < 16
      → inter.irq_line_state < 2 ^ 16
      → timers_catch_up_one video_rate
          (catch_up_at (at_rate t inter i) inter).0
          (catch_up_at (at_rate t inter i) inter).1
          i
        ≡ catch_up_at (at_rate t inter i) inter
  unfolding at_rate
  again t inter i e k line =
      let positive = timer_rate_cycles-pos inter t i in
      let r = catch_up_at (at_rate t inter i) inter in
      let clock = catch_up_at-KeepsClock (at_rate t inter i) inter k line positive in
      let rate : timer_rate_cycles video_rate r.1 r.0 i ≡ r.0.rate =
        same_rate t r.0 inter r.1 i clock.source clock.devices ∙ sym clock.rate in
      caught_up r.0 r.1 i (clock.counting ∙ e)
      ∙ ap (λ (n : ℕ). catch_up_at (record (r.0) { rate = n }) r.1) rate
      ∙ IsSettled-catch_up_at r (catch_up_at-IsSettled (at_rate t inter i) inter k line positive)

  -- Catching a timer up twice at one cycle is catching it up once: the second time changes neither
  -- the timer nor the interconnect.
  pub timers_catch_up_one-timers_catch_up_one :
      (t : Timer) (inter : Interconnect D) (i : ℕ)
      → t.irq < 16
      → inter.irq_line_state < 2 ^ 16
      → timers_catch_up_one video_rate
          (timers_catch_up_one video_rate t inter i).0
          (timers_catch_up_one video_rate t inter i).1
          i
        ≡ timers_catch_up_one video_rate t inter i
  timers_catch_up_one-timers_catch_up_one t inter i k line =
      let once = timers_catch_up_one video_rate t inter i in
      elim (Bool-cases t.counting_enabled) [
        | inl e ↦
            let r = catch_up_at (at_rate t inter i) inter in
            let eq : once ≡ r = caught_up t inter i e in
            ap (λ (c : Counted D). timers_catch_up_one video_rate c.0 c.1 i) eq
            ∙ again t inter i e k line
            ∙ sym eq
        | inr e ↦
            let eq : once ≡ (t, inter) = stopped t inter i e in
            ap (λ (c : Counted D). timers_catch_up_one video_rate c.0 c.1 i) eq
      ]

  rebased :
      (t : Timer) (inter : Interconnect D) (i : ℕ)
      → inter.cpu_cycle_counter < 2 ^ 32
      → t.counter < 2 ^ 16
      → t.counter < timer_period_ticks t
      → t.counter * timer_rate_cycles video_rate inter t i < 2 ^ 32
      → IsSettled (timer_rebase video_rate t inter i, inter)
  unfolding timer_rebase timer_period_ticks
  rebased t inter i now word below fits =
      let r = timer_rate_cycles video_rate inter t i in
      let ticks : sub32 inter.cpu_cycle_counter (sub32 inter.cpu_cycle_counter (t.counter * r)) / r
          ≡ t.counter =
        ap (λ n. n / r) (back inter.cpu_cycle_counter (t.counter * r) now fits)
        ∙ mul-div_cancel t.counter (timer_rate_cycles-pos inter t i) in
      record { below = rw ticks below; current = rw ticks (omega arith) }

  -- What timer_rebase anchors, the counter derived at that cycle gives back: the timer, and the
  -- interconnect, are as timer_rebase leaves them.
  pub timers_catch_up_one-timer_rebase :
      (t : Timer) (inter : Interconnect D) (i : ℕ)
      → inter.cpu_cycle_counter < 2 ^ 32
      → t.counter < 2 ^ 16
      → t.counter < timer_period_ticks t
      → t.counter * timer_rate_cycles video_rate inter t i < 2 ^ 32
      → timers_catch_up_one video_rate (timer_rebase video_rate t inter i) inter i
        ≡ (timer_rebase video_rate t inter i, inter)
  unfolding timer_rebase at_rate
  timers_catch_up_one-timer_rebase t inter i now word below fits =
      let b = timer_rebase video_rate t inter i in
      let settled : IsSettled (b, inter) = rebased t inter i now word below fits in
      elim (Bool-cases t.counting_enabled) [
        | inl e ↦
            caught_up b inter i e
            ∙ ap (λ (n : ℕ). catch_up_at (record b { rate = n }) inter)
                (same_rate t b inter inter i refl refl)
            ∙ IsSettled-catch_up_at (b, inter) settled
        | inr e ↦ stopped b inter i e
      ]
