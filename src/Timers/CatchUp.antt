-- ===== src/Timers/CatchUp.antt =====
-- The division of timers_catch_up_one against the loop over periods that it stands for.
use zonistation_one.Base.{
  ltb, ◌!=◌, if◌then◌else◌, Bool-cases, if-true, if-false, u16, add32, bit, ℕ, zero, suc, ◌-◌, ◌*◌,
  ◌^◌, ◌<◌, ◌≡◌, refl, sym, ap, ap₂, ◌∙◌, inl, inr, Bool, true, false, not, ◌&&◌, ◌||◌, Option,
  none, some, arith,
}
use zonistation_one.Machine.{Interconnect}
use zonistation_one.Timers.Counter.{
  armed, flag_boundary, later_crossings, ticks_since, hits_target, cross_boundaries,
}
use zonistation_one.Timers.Crossing.{later_crossings-suc}
use zonistation_one.Timers.Raise.{raise-raise}
use zonistation_one.Timers.State.{Timer, timer_period_ticks, request_bit, raise, timer_fire_irq}

abbrev pub Counted : Type 0 → Type 0
Counted D = Timer × Interconnect D

-- One boundary: its flag, its interrupt, and `cycle_start` a period further.
abbrev pub cross_once : {D : Type 0} → Timer → Interconnect D → Counted D
cross_once t inter =
    let flagged = flag_boundary t in
    if armed flagged then timer_fire_irq flagged inter else (flagged, inter)

abbrev pub moved_on : {D : Type 0} → Timer → Counted D → Counted D
moved_on t r =
    (record (r.0) { cycle_start = add32 t.cycle_start (timer_period_ticks t * t.rate) }, r.1)

-- A period at a time, until less than a period is left.
unfoldable pub step_periods : {D : Type 0} → ℕ → Timer → Interconnect D → Option (Counted D)
step_periods zero t inter = none
step_periods (suc fuel) t inter =
    let elapsed = ticks_since t inter t.rate in
    let next = moved_on t (cross_once t inter) in
    let rest = step_periods fuel next.0 next.1 in
    if ltb elapsed (timer_period_ticks t)
    then some (record t { counter = u16 elapsed }, inter)
    else rest

or_absorb : (a b : Bool) → (a || b || b) ≡ (a || b)
or_absorb true b = refl
or_absorb false true = refl
or_absorb false false = refl

pred : (n : ℕ) → suc n - 1 ≡ n
pred n = omega arith

repeats : (h r a b : Bool) → (if h then r && a else r && b) ≡ true → r ≡ true
repeats h true a b e = refl
repeats true false a b e = e
repeats false false a b e = e

module _ {D : Type 0} where
  later_none : (t : Timer) (inter : Interconnect D) → later_crossings t inter 0 ≡ (t, inter)
  unfolding later_crossings
  later_none t inter = if-false _ (and_false (armed t))
    where
      and_false : (b : Bool) → (b && (0 != 0)) ≡ false
      and_false true = refl
      and_false false = refl

  -- A disarmed timer crosses without an interrupt.
  later_disarmed :
      (t : Timer) (inter : Interconnect D) (n : ℕ)
      → armed t ≡ false
      → later_crossings t inter n ≡ (t, inter)
  unfolding later_crossings
  later_disarmed t inter n e = rw e refl

  -- What firing leaves on the line.
  fired_twice :
      (t : Timer) (inter : Interconnect D)
      → t.irq < 16
      → inter.irq_line_state < 2 ^ 16
      → raise (raise (timer_fire_irq t inter).1 t.irq) t.irq
        ≡ raise (timer_fire_irq t inter).1 t.irq
  unfolding timer_fire_irq
  fired_twice t inter k h =
      let twice = raise-raise inter t.irq k h in
      elim (Bool-cases (t.irq_pulse && bit t.mode request_bit)) [
        | inl e ↦ rw e twice
        | inr e ↦ rw e (ap (λ (i : Interconnect D). raise i t.irq) twice)
      ]

  fired_once :
      (t : Timer) (inter : Interconnect D)
      → t.irq < 16
      → inter.irq_line_state < 2 ^ 16
      → t.irq_pulse ≡ false
      → raise (timer_fire_irq t inter).1 t.irq ≡ (timer_fire_irq t inter).1
  unfolding timer_fire_irq
  fired_once t inter k h p = rw p (raise-raise inter t.irq k h)

  -- A timer that is armed after it has fired is not one-shot.
  armed_again :
      (t : Timer) (inter : Interconnect D)
      → armed (timer_fire_irq t inter).0 ≡ true
      → t.irq_repeat ≡ true
  unfolding timer_fire_irq
  armed_again t inter e = repeats (hits_target t) t.irq_repeat t.irq_on_target t.irq_on_ffff e

  pub cross_boundaries-one :
      (t : Timer) (inter : Interconnect D) → cross_boundaries t inter 1 ≡ cross_once t inter
  unfolding cross_boundaries
  cross_boundaries-one t inter =
      let flagged = flag_boundary t in
      let fired = timer_fire_irq flagged inter in
      ap (λ (r : Counted D). if armed flagged then r else (flagged, inter))
        (later_none fired.0 fired.1)

  -- A boundary that is flagged already.
  flag_again :
      (t : Timer) (inter : Interconnect D)
      → flag_boundary (timer_fire_irq (flag_boundary t) inter).0
        ≡ (timer_fire_irq (flag_boundary t) inter).0
  unfolding timer_fire_irq
  flag_again t inter =
      let fired = (timer_fire_irq (flag_boundary t) inter).0 in
      ap₂ (λ (a b : Bool). record fired { reached_target_flag = a; reached_ffff_flag = b })
        (or_absorb t.reached_target_flag (hits_target t))
        (or_absorb t.reached_ffff_flag (not (hits_target t)))

  -- Firing once more, after firing.
  later_again :
      (t : Timer) (inter : Interconnect D) (n : ℕ)
      → t.irq < 16
      → inter.irq_line_state < 2 ^ 16
      → armed (timer_fire_irq t inter).0 ≡ true
      → later_crossings (timer_fire_irq t inter).0 (timer_fire_irq t inter).1 (suc n)
        ≡ later_crossings
            (timer_fire_irq (timer_fire_irq t inter).0 (timer_fire_irq t inter).1).0
            (timer_fire_irq (timer_fire_irq t inter).0 (timer_fire_irq t inter).1).1
            n
  unfolding timer_fire_irq
  later_again t inter n k h again =
      later_crossings-suc (timer_fire_irq t inter).0 (timer_fire_irq t inter).1 n again
        (armed_again t inter again) (fired_twice t inter k h) (fired_once t inter k h)

  armed_crossings :
      (t : Timer) (inter : Interconnect D) (n : ℕ)
      → armed t ≡ true
      → t.irq < 16
      → inter.irq_line_state < 2 ^ 16
      → cross_boundaries t inter (suc (suc n))
        ≡ cross_boundaries (cross_once t inter).0 (cross_once t inter).1 (suc n)
  unfolding cross_boundaries
  armed_crossings t inter n e k h =
      let f = flag_boundary t in
      let fired = timer_fire_irq f inter in
      let whole : cross_once t inter ≡ fired = if-true _ e in
      let after : Counted D =
        if armed fired.0
        then later_crossings (timer_fire_irq fired.0 fired.1).0 (timer_fire_irq fired.0 fired.1).1 n
        else (fired.0, fired.1) in
      let left : cross_boundaries t inter (suc (suc n)) ≡ later_crossings fired.0 fired.1 (suc n) =
        if-true _ e ∙ ap (λ (m : ℕ). later_crossings fired.0 fired.1 m) (pred (suc n)) in
      let right : cross_boundaries fired.0 fired.1 (suc n) ≡ after =
        ap
          (λ (x : Timer).
            if armed x
            then later_crossings (timer_fire_irq x fired.1).0 (timer_fire_irq x fired.1).1
                (suc n - 1)
            else (x, fired.1))
          (flag_again t inter)
        ∙ ap
            (λ (m : ℕ).
              if armed fired.0
              then later_crossings (timer_fire_irq fired.0 fired.1).0
                  (timer_fire_irq fired.0 fired.1).1 m
              else (fired.0, fired.1))
            (pred n) in
      let same : later_crossings fired.0 fired.1 (suc n) ≡ after =
        elim (Bool-cases (armed fired.0)) [
          | inl again ↦ later_again f inter n k h again ∙ sym (if-true _ again)
          | inr off ↦ later_disarmed fired.0 fired.1 (suc n) off ∙ sym (if-false _ off)
        ] in
      left ∙ same ∙ sym right ∙ ap (λ (r : Counted D). cross_boundaries r.0 r.1 (suc n)) (sym whole)

  disarmed_crossings :
      (t : Timer) (inter : Interconnect D) (n : ℕ)
      → armed t ≡ false
      → cross_boundaries t inter (suc (suc n))
        ≡ cross_boundaries (cross_once t inter).0 (cross_once t inter).1 (suc n)
  unfolding cross_boundaries
  disarmed_crossings t inter n e =
      let f = flag_boundary t in
      let flagged : Counted D = (f, inter) in
      let once : cross_once t inter ≡ flagged = if-false _ e in
      let left : cross_boundaries t inter (suc (suc n)) ≡ flagged = if-false _ e in
      let again : Counted D = (flag_boundary f, inter) in
      let right : cross_boundaries f inter (suc n) ≡ again = if-false _ e in
      let absorbed : again ≡ flagged =
        ap₂ (λ (a b : Bool). (record t { reached_target_flag = a; reached_ffff_flag = b }, inter))
          (or_absorb t.reached_target_flag (hits_target t))
          (or_absorb t.reached_ffff_flag (not (hits_target t))) in
      left
      ∙ sym (right ∙ absorbed)
      ∙ ap (λ (r : Counted D). cross_boundaries r.0 r.1 (suc n)) (sym once)

  -- Crossing n + 2 boundaries is crossing one, then n + 1.
  pub cross_boundaries-suc :
      (t : Timer) (inter : Interconnect D) (n : ℕ)
      → t.irq < 16
      → inter.irq_line_state < 2 ^ 16
      → cross_boundaries t inter (suc (suc n))
        ≡ cross_boundaries (cross_once t inter).0 (cross_once t inter).1 (suc n)
  unfolding cross_boundaries
  cross_boundaries-suc t inter n k h = elim (Bool-cases (armed t)) [
    | inl e ↦ armed_crossings t inter n e k h
    | inr e ↦ disarmed_crossings t inter n e
  ]
