-- ===== src/Timers/Crossing.antt =====
-- That later_crossings stands for firing once more, over timers.c.
use zonistation_one.Base.{
  leb, ◌==◌, ◌!=◌, if◌then◌else◌, Bool-cases, if-true, if-false, if-same, bit, set_bit, clear_bit,
  ℕ, zero, suc, ◌%◌, ◌≡◌, refl, sym, ap, ap₂, ◌∙◌, inl, inr, Bool, true, false, not, ◌&&◌, arith,
}
use zonistation_one.Machine.{Interconnect}
use zonistation_one.Timers.Counter.{flip_bit, armed, later_crossings}
use zonistation_one.Timers.State.{request_bit, Timer, raise, timer_fire_irq}

flip_set : (m k : ℕ) → bit m k ≡ true → flip_bit m k ≡ clear_bit m k
flip_set m k e = if-true _ e ∙ sym (if-true _ e)

flip_clear : (m k : ℕ) → bit m k ≡ false → flip_bit m k ≡ set_bit m k
flip_clear m k e = if-false _ e ∙ sym (if-false _ e)

flip_flip : (m : ℕ) → flip_bit (flip_bit m request_bit) request_bit ≡ m
flip_flip m = ground arith

bit-flip_bit : (m : ℕ) → bit (flip_bit m request_bit) request_bit ≡ not (bit m request_bit)
bit-flip_bit m = ground arith

set_bit-set_bit : (m : ℕ) → set_bit (set_bit m request_bit) request_bit ≡ set_bit m request_bit
set_bit-set_bit m = ground arith

-- Flipping once and then `n` times is flipping n + 1 times.
parity :
    (m n : ℕ)
    → (if n % 2 == 1 then flip_bit (flip_bit m request_bit) request_bit else flip_bit m request_bit)
      ≡ (if suc n % 2 == 1 then flip_bit m request_bit else m)
parity m n = elim (Bool-cases (n % 2 == 1)) [
  | inl e ↦
      let even : (suc n % 2 == 1) ≡ false = ground (arith, e) in
      rw (if-true {x = flip_bit (flip_bit m request_bit) request_bit} (flip_bit m request_bit) e)
        (rw (if-false (flip_bit m request_bit) {y = m} even) (flip_flip m))
  | inr e ↦
      let odd : (suc n % 2 == 1) ≡ true = ground (arith, e) in
      rw (if-false (flip_bit (flip_bit m request_bit) request_bit) {y = flip_bit m request_bit} e)
        (rw (if-true {x = flip_bit m request_bit} m odd) refl)
]

-- The condition on the line, by the request bit.
rises_later : Bool → ℕ → Bool
rises_later b n = if b then leb 2 n else leb 1 n

module _ {D : Type 0} where
  -- In toggle mode the formula holds for no crossing too.
  toggle_form :
      (t : Timer) (inter : Interconnect D) (n : ℕ)
      → armed t ≡ true
      → t.irq_pulse ≡ true
      → later_crossings t inter n ≡ (
        record t { mode = if n % 2 == 1 then flip_bit t.mode request_bit else t.mode },
        if (if bit t.mode request_bit then leb 2 n else leb 1 n) then raise inter t.irq else inter,
      )
  unfolding later_crossings
  toggle_form t inter zero a p =
      let never : (if bit t.mode request_bit then leb 2 0 else leb 1 0) ≡ false =
        if-same (λ (b : Bool). b) (bit t.mode request_bit) refl refl in
      rw a (ap (λ (i : Interconnect D). (t, i)) (sym (if-false (raise inter t.irq) never)))
  toggle_form t inter (suc n) a p =
      let some_left : (suc n != 0) ≡ true = ground arith in rw a (rw some_left (rw p refl))

  -- Outside toggle mode the request bit stays set.
  pulse_form :
      (t : Timer) (inter : Interconnect D) (n : ℕ)
      → armed t ≡ true
      → t.irq_pulse ≡ false
      → ◌≡◌ {A = Timer × Interconnect D}
          (later_crossings t inter n)
          (record t { mode = if n != 0 then set_bit t.mode request_bit else t.mode }, inter)
  unfolding later_crossings
  pulse_form t inter n a p = elim (Bool-cases (n != 0)) [
    | inl e ↦ rw a (rw e (rw p refl))
    | inr e ↦ rw a (rw e refl)
  ]

  -- A timer that is not one-shot stays armed when it fires.
  fire_repeat :
      (t : Timer) (inter : Interconnect D)
      → t.irq_repeat ≡ true
      → timer_fire_irq t inter ≡ (
        record t {
          mode =
              if t.irq_pulse && bit t.mode request_bit
              then clear_bit t.mode request_bit
              else set_bit t.mode request_bit;
        },
        if t.irq_pulse && bit t.mode request_bit then inter else raise inter t.irq,
      )
  unfolding timer_fire_irq
  fire_repeat t inter e =
      let lowers = t.irq_pulse && bit t.mode request_bit in
      let mode = if lowers then clear_bit t.mode request_bit else set_bit t.mode request_bit in
      ap
        (λ (r : Bool). (
          record t {
            mode = if r then mode else clear_bit (clear_bit mode 4) 5;
            irq_on_target = r && t.irq_on_target;
            irq_on_ffff = r && t.irq_on_ffff;
          },
          if lowers then inter else raise inter t.irq,
        ))
        e

  with_mode :
      (t : Timer) {m m' : ℕ} {i i' : Interconnect D}
      → m ≡ m'
      → i ≡ i'
      → ◌≡◌ {A = Timer × Interconnect D} (record t { mode = m }, i) (record t { mode = m' }, i')
  with_mode t p q = ap₂ (λ (m : ℕ) (i : Interconnect D). (record t { mode = m }, i)) p q

  module _ (t : Timer) (inter : Interconnect D) (n : ℕ) (a : armed t ≡ true)
      (again : t.irq_repeat ≡ true) where
    flipped : Timer
    flipped = record t { mode = flip_bit t.mode request_bit }

    after_flip :
        (i : Interconnect D)
        → t.irq_pulse ≡ true
        → later_crossings flipped i n ≡ (
          record t { mode = if suc n % 2 == 1 then flip_bit t.mode request_bit else t.mode },
          if rises_later (not (bit t.mode request_bit)) n then raise i t.irq else i,
        )
    unfolding flipped rises_later
    after_flip i p =
        toggle_form flipped i n a p
        ∙ with_mode t (parity t.mode n) (
            ap (λ (b : Bool). if (if b then leb 2 n else leb 1 n) then raise i t.irq else i)
              (bit-flip_bit t.mode))

    toggle_low :
        t.irq_pulse ≡ true
        → bit t.mode request_bit ≡ true
        → later_crossings t inter (suc n)
          ≡ later_crossings (timer_fire_irq t inter).0 (timer_fire_irq t inter).1 n
    unfolding flipped rises_later
    toggle_low p set =
        let lowers : (t.irq_pulse && bit t.mode request_bit) ≡ true = rw p set in
        let fired : timer_fire_irq t inter ≡ (flipped, inter) =
          fire_repeat t inter again
          ∙ with_mode t (if-true _ lowers ∙ sym (flip_set t.mode request_bit set))
              (if-true _ lowers) in
        let shorter : leb 2 (suc n) ≡ leb 1 n = ground arith in
        let before : rises_later (bit t.mode request_bit) (suc n)
            ≡ rises_later (not (bit t.mode request_bit)) n =
          rw set shorter in
        toggle_form t inter (suc n) a p
        ∙ with_mode t refl (ap (λ (b : Bool). if b then raise inter t.irq else inter) before)
        ∙ sym (
            ap (λ (r : Timer × Interconnect D). later_crossings r.0 r.1 n) fired
            ∙ after_flip inter p)

    toggle_high :
        t.irq_pulse ≡ true
        → bit t.mode request_bit ≡ false
        → raise (raise inter t.irq) t.irq ≡ raise inter t.irq
        → later_crossings t inter (suc n)
          ≡ later_crossings (timer_fire_irq t inter).0 (timer_fire_irq t inter).1 n
    unfolding flipped rises_later
    toggle_high p clear twice =
        let lowers : (t.irq_pulse && bit t.mode request_bit) ≡ false = rw p clear in
        let fired : timer_fire_irq t inter ≡ (flipped, raise inter t.irq) =
          fire_repeat t inter again
          ∙ with_mode t (if-false _ lowers ∙ sym (flip_clear t.mode request_bit clear))
              (if-false _ lowers) in
        let now : rises_later (bit t.mode request_bit) (suc n) ≡ true = rw clear (ground arith) in
        let raised : (if rises_later (not (bit t.mode request_bit)) n
              then raise (raise inter t.irq) t.irq
              else raise inter t.irq)
            ≡ raise inter t.irq =
          if-same (λ (i : Interconnect D). i) (rises_later (not (bit t.mode request_bit)) n) twice
            refl in
        toggle_form t inter (suc n) a p
        ∙ with_mode t refl (if-true inter now ∙ sym raised)
        ∙ sym (
            ap (λ (r : Timer × Interconnect D). later_crossings r.0 r.1 n) fired
            ∙ after_flip (raise inter t.irq) p)

    pulse :
        t.irq_pulse ≡ false
        → raise inter t.irq ≡ inter
        → later_crossings t inter (suc n)
          ≡ later_crossings (timer_fire_irq t inter).0 (timer_fire_irq t inter).1 n
    pulse p once =
        let lowers : (t.irq_pulse && bit t.mode request_bit) ≡ false = rw p refl in
        let fired : ◌≡◌ {A = Timer × Interconnect D} (timer_fire_irq t inter)
            (record t { mode = set_bit t.mode request_bit }, inter) =
          fire_repeat t inter again ∙ with_mode t (if-false _ lowers) (if-false _ lowers ∙ once) in
        let nonzero : (suc n != 0) ≡ true = ground arith in
        pulse_form t inter (suc n) a p
        ∙ with_mode t (if-true _ nonzero) refl
        ∙ sym (
            ap (λ (r : Timer × Interconnect D). later_crossings r.0 r.1 n) fired
            ∙ pulse_form (record t { mode = set_bit t.mode request_bit }) inter n a p
            ∙ with_mode t (if-same (λ (m : ℕ). m) (n != 0) (set_bit-set_bit t.mode) refl) refl)

  -- Firing once more, whatever the mode.
  pub later_crossings-suc :
      (t : Timer) (inter : Interconnect D) (n : ℕ)
      → armed t ≡ true
      → t.irq_repeat ≡ true
      → raise (raise inter t.irq) t.irq ≡ raise inter t.irq
      → (t.irq_pulse ≡ false → raise inter t.irq ≡ inter)
      → later_crossings t inter (suc n)
        ≡ later_crossings (timer_fire_irq t inter).0 (timer_fire_irq t inter).1 n
  later_crossings-suc t inter n a again twice once = elim (Bool-cases t.irq_pulse) [
    | inl p ↦ elim (Bool-cases (bit t.mode request_bit)) [
      | inl set ↦ toggle_low t inter n a again p set
      | inr clear ↦ toggle_high t inter n a again p clear twice
    ]
    | inr p ↦ pulse t inter n a again p (once p)
  ]
