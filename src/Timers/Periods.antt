-- ===== src/Timers/Periods.antt =====
-- Taking one period off what timers_catch_up_one divides.
use native.Mathlib.Decide.{dec_lt}
use native.Mathlib.Nat.{div-lt_iff_lt-mul, div-eq-sub-div, add-mul-div_right, le-div_iff_mul-le}
use zonistation_one.Base.{
  ltb, ◌==◌, ◌!=◌, lt→ltb, Bool-cases, if-true, if-false, if-same, if-holds, u16, add32, sub32, bit,
  set_bit, ℕ, suc, ◌+◌, ◌-◌, ◌*◌, ◌/◌, ◌^◌, ◌≤◌, ◌<◌, ◌≡◌, refl, sym, ap, ap₂, ◌∙◌, inl, inr, true,
  false, not, ◌&&◌, arith,
}
use zonistation_one.Bus.Irq.{interconnect_set_irq_line, interconnect_request_irq}
use zonistation_one.Machine.{Interconnect}
use zonistation_one.Timers.CatchUp.{Counted, cross_once, cross_boundaries-one, cross_boundaries-suc}
use zonistation_one.Timers.Counter.{
  armed, flag_boundary, later_crossings, cross_boundaries, catch_up_with,
}
use zonistation_one.Timers.Raise.{raise-cpu_cycle_counter, raise-devices}
use zonistation_one.Timers.State.{Timer, timer_period_ticks, request_bit, raise, timer_fire_irq}

-- A period taken off the ticks is one crossing less.
pub fewer : (e p : ℕ) → 0 < p → p ≤ e → e / p ≡ suc ((e - p) / p)
fewer e p positive h =
    let q : e / p ≡ (e - p) / p + 1 = div-eq-sub-div positive h in omega (arith, q)

-- Where `cycle_start` and the counter end, either way.
same_start :
    (start r p m : ℕ) → add32 (add32 start (p * r)) (m * p * r) ≡ add32 start (suc m * p * r)
same_start start r p m =
    let total : suc m * p * r ≡ p * r + m * p * r = grind arith in omega (arith, total)

same_count : (e p m : ℕ) → u16 (e - p - m * p) ≡ u16 (e - suc m * p)
same_count e p m = let total : suc m * p ≡ p + m * p = grind arith in omega (arith, total)

-- `p` ticks of `r` cycles taken off the time that has passed.
pub ticks_less :
    (now start r p : ℕ)
    → 0 < r
    → p ≤ sub32 now start / r
    → sub32 now (add32 start (p * r)) / r ≡ sub32 now start / r - p
ticks_less now start r p positive h =
    let d = sub32 now start in
    let fits : p * r ≤ d = (le-div_iff_mul-le positive).0 h in
    let left : sub32 now (add32 start (p * r)) ≡ d - p * r = omega (arith, fits) in
    let whole : d - p * r + p * r ≡ d = omega (arith, fits) in
    let q : (d - p * r + p * r) / r ≡ (d - p * r) / r + p =
      add-mul-div_right (d - p * r) p positive in
    let q' : d / r ≡ (d - p * r) / r + p = ap (λ n. n / r) (sym whole) ∙ q in
    ap (λ n. n / r) left ∙ omega (arith, q')

pub timer_period_ticks-pos : (t : Timer) → 0 < timer_period_ticks t
unfolding timer_period_ticks
timer_period_ticks-pos t = ground arith

module _ {D : Type 0} where
  -- What one boundary leaves alone.
  cross_once-keeps :
      {A : Type 0} (g : Timer → A) (t : Timer) (inter : Interconnect D)
      → g (flag_boundary t) ≡ g t
      → g (timer_fire_irq (flag_boundary t) inter).0 ≡ g t
      → g (cross_once t inter).0 ≡ g t
  cross_once-keeps g t inter p q = if-same (λ (r : Counted D). g r.0) (armed t) q p

  pub cross_once-rate : (t : Timer) (inter : Interconnect D) → (cross_once t inter).0.rate ≡ t.rate
  unfolding timer_fire_irq
  cross_once-rate t inter = cross_once-keeps (λ (x : Timer). x.rate) t inter refl refl

  pub cross_once-counting_enabled :
      (t : Timer) (inter : Interconnect D)
      → (cross_once t inter).0.counting_enabled ≡ t.counting_enabled
  unfolding timer_fire_irq
  cross_once-counting_enabled t inter =
      cross_once-keeps (λ (x : Timer). x.counting_enabled) t inter refl refl

  pub cross_once-clock_source :
      (t : Timer) (inter : Interconnect D) → (cross_once t inter).0.clock_source ≡ t.clock_source
  unfolding timer_fire_irq
  cross_once-clock_source t inter =
      cross_once-keeps (λ (x : Timer). x.clock_source) t inter refl refl

  pub cross_once-devices :
      (t : Timer) (inter : Interconnect D) → (cross_once t inter).1.devices ≡ inter.devices
  unfolding timer_fire_irq
  cross_once-devices t inter =
      let lowers = t.irq_pulse && bit t.mode request_bit in
      if-same (λ (r : Counted D). r.1.devices) (armed t)
        (if-same (λ (i : Interconnect D). i.devices) lowers refl (raise-devices inter t.irq)) refl

  pub cross_once-irq : (t : Timer) (inter : Interconnect D) → (cross_once t inter).0.irq ≡ t.irq
  unfolding timer_fire_irq
  cross_once-irq t inter = cross_once-keeps (λ (x : Timer). x.irq) t inter refl refl

  pub cross_once-period :
      (t : Timer) (inter : Interconnect D)
      → timer_period_ticks (cross_once t inter).0 ≡ timer_period_ticks t
  unfolding timer_fire_irq timer_period_ticks
  cross_once-period t inter = cross_once-keeps timer_period_ticks t inter refl refl

  pub cross_once-cpu_cycle_counter :
      (t : Timer) (inter : Interconnect D)
      → (cross_once t inter).1.cpu_cycle_counter ≡ inter.cpu_cycle_counter
  unfolding timer_fire_irq
  cross_once-cpu_cycle_counter t inter =
      let lowers = t.irq_pulse && bit t.mode request_bit in
      if-same (λ (r : Counted D). r.1.cpu_cycle_counter) (armed t)
        (if-same (λ (i : Interconnect D). i.cpu_cycle_counter) lowers refl
          (raise-cpu_cycle_counter inter t.irq))
        refl

  raise-irq_line_state-lt :
      (inter : Interconnect D) (irq : ℕ)
      → inter.irq_line_state < 2 ^ 16
      → (raise inter irq).irq_line_state < 2 ^ 16
  unfolding raise interconnect_request_irq interconnect_set_irq_line
  raise-irq_line_state-lt inter irq h =
      let line = u16 (set_bit inter.irq_line_state irq) in
      if-holds (λ (i : Interconnect D). i.irq_line_state < 2 ^ 16) (bit inter.irq_status irq) h
        (if-holds (λ (i : Interconnect D). i.irq_line_state < 2 ^ 16) (line == inter.irq_line_state)
          (omega arith)
          (if-holds (λ (i : Interconnect D). i.irq_line_state < 2 ^ 16)
            (not (bit inter.irq_line_state irq) && true) (omega arith) (omega arith)))

  pub cross_once-irq_line_state-lt :
      (t : Timer) (inter : Interconnect D)
      → inter.irq_line_state < 2 ^ 16
      → (cross_once t inter).1.irq_line_state < 2 ^ 16
  unfolding timer_fire_irq
  cross_once-irq_line_state-lt t inter h =
      if-holds (λ (r : Counted D). r.1.irq_line_state < 2 ^ 16) (armed t)
        (if-holds (λ (i : Interconnect D). i.irq_line_state < 2 ^ 16)
          (t.irq_pulse && bit t.mode request_bit) h (raise-irq_line_state-lt inter t.irq h))
        h

  later-anchored :
      (t : Timer) (inter : Interconnect D) (n x : ℕ)
      → ◌≡◌ {A = Counted D}
          (later_crossings (record t { cycle_start = x }) inter n)
          (record (later_crossings t inter n).0 { cycle_start = x }, (later_crossings t inter n).1)
  unfolding later_crossings
  later-anchored t inter n x = elim (Bool-cases (armed t && n != 0)) [
    | inr e ↦ rw e refl
    | inl e ↦ elim (Bool-cases t.irq_pulse) [ inl p ↦ rw e (rw p refl) | inr p ↦ rw e (rw p refl) ]
  ]

  cross_boundaries-anchored :
      (t : Timer) (inter : Interconnect D) (n x : ℕ)
      → ◌≡◌ {A = Counted D} (cross_boundaries (record t { cycle_start = x }) inter n) (
        record (cross_boundaries t inter n).0 { cycle_start = x },
        (cross_boundaries t inter n).1,
      )
  unfolding cross_boundaries timer_fire_irq
  cross_boundaries-anchored t inter n x = elim (Bool-cases (armed t)) [
    | inl e ↦ rw e (later-anchored (timer_fire_irq (flag_boundary t) inter).0 _ (n - 1) x)
    | inr e ↦ rw e refl
  ]

  -- The registers after the crossings.
  anchored : Counted D → ℕ → ℕ → Counted D
  anchored r start count = (record (r.0) { cycle_start = start; counter = count }, r.1)

  pub catch_up_with-within :
      (t : Timer) (inter : Interconnect D) (rate elapsed period : ℕ)
      → elapsed < period
      → catch_up_with t inter rate elapsed period ≡ (record t { counter = u16 elapsed }, inter)
  unfolding catch_up_with
  catch_up_with-within t inter rate elapsed period h = if-true _ (lt→ltb elapsed period h)

  catch_up_with-beyond :
      (t : Timer) (inter : Interconnect D) (rate elapsed period : ℕ)
      → period ≤ elapsed
      → catch_up_with t inter rate elapsed period
        ≡ anchored
            (cross_boundaries t inter (elapsed / period))
            (add32 t.cycle_start (elapsed / period * period * rate))
            (u16 (elapsed - elapsed / period * period))
  unfolding catch_up_with anchored
  catch_up_with-beyond t inter rate elapsed period h =
      let over : ltb elapsed period ≡ false = ground arith in if-false _ over

  -- A period further.
  abbrev pub later_start : Timer → Interconnect D → ℕ → ℕ → Timer
  later_start t inter rate period = record (cross_once t inter).0 {
    cycle_start = add32 t.cycle_start (period * rate);
  }

  module _ (t : Timer) (inter : Interconnect D) (rate e p : ℕ) (positive : 0 < p) (h : p ≤ e) where
    one_left :
        e - p < p
        → catch_up_with t inter rate e p
          ≡ catch_up_with (later_start t inter rate p) (cross_once t inter).1 rate (e - p) p
    unfolding anchored
    one_left last =
        let c = cross_once t inter in
        let start = add32 t.cycle_start (p * rate) in
        let none_left : (e - p) / p < 1 = (div-lt_iff_lt-mul positive).1 (omega (arith, last)) in
        let single : e / p ≡ 1 = omega (arith, none_left, fewer e p positive h) in
        let once : 1 * p ≡ p = omega arith in
        catch_up_with-beyond t inter rate e p h
        ∙ ap
            (λ (n : ℕ).
              anchored (cross_boundaries t inter n) (add32 t.cycle_start (n * p * rate))
                (u16 (e - n * p)))
            single
        ∙ ap
            (λ (q : ℕ).
              anchored (cross_boundaries t inter 1) (add32 t.cycle_start (q * rate)) (u16 (e - q)))
            once
        ∙ ap (λ (r : Counted D). anchored r start (u16 (e - p))) (cross_boundaries-one t inter)
        ∙ sym (catch_up_with-within (later_start t inter rate p) c.1 rate (e - p) p last)

    more_left :
        t.irq < 16
        → inter.irq_line_state < 2 ^ 16
        → p ≤ e - p
        → catch_up_with t inter rate e p
          ≡ catch_up_with (later_start t inter rate p) (cross_once t inter).1 rate (e - p) p
    unfolding anchored
    more_left k line more =
        let c = cross_once t inter in
        let start = add32 t.cycle_start (p * rate) in
        let m = (e - p - p) / p in
        let count : (e - p) / p ≡ suc m = fewer (e - p) p positive more in
        let total : e / p ≡ suc (suc m) = fewer e p positive h ∙ ap suc count in
        let crossed : cross_boundaries (later_start t inter rate p) c.1 (suc m) ≡ (
          record (cross_boundaries t inter (suc (suc m))).0 { cycle_start = start },
          (cross_boundaries t inter (suc (suc m))).1,
        ) =
          cross_boundaries-anchored c.0 c.1 (suc m) start
          ∙ ap (λ (r : Counted D). (record (r.0) { cycle_start = start }, r.1))
              (sym (cross_boundaries-suc t inter m k line)) in
        catch_up_with-beyond t inter rate e p h
        ∙ ap
            (λ (n : ℕ).
              anchored (cross_boundaries t inter n) (add32 t.cycle_start (n * p * rate))
                (u16 (e - n * p)))
            total
        ∙ ap₂ (λ (s n : ℕ). anchored (cross_boundaries t inter (suc (suc m))) s n)
            (sym (same_start t.cycle_start rate p (suc m))) (sym (same_count e p (suc m)))
        ∙ ap
            (λ (r : Counted D).
              anchored r (add32 start (suc m * p * rate)) (u16 (e - p - suc m * p)))
            (sym crossed)
        ∙ ap
            (λ (n : ℕ).
              anchored (cross_boundaries (later_start t inter rate p) c.1 n)
                (add32 start (n * p * rate)) (u16 (e - p - n * p)))
            (sym count)
        ∙ sym (catch_up_with-beyond (later_start t inter rate p) c.1 rate (e - p) p more)

    -- With one crossing taken off, the rest gives the same.
    pub catch_up_with-peel :
        t.irq < 16
        → inter.irq_line_state < 2 ^ 16
        → catch_up_with t inter rate e p
          ≡ catch_up_with (later_start t inter rate p) (cross_once t inter).1 rate (e - p) p
    catch_up_with-peel k line = elim (dec_lt (e - p) p) [
      | yes last ↦ one_left last
      | no more ↦ more_left k line (omega (arith, more))
    ]
