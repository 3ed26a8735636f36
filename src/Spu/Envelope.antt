-- ===== src/Spu/Envelope.antt =====
-- The bounds of the envelope of src/spu/spu_adsr.c.
use zonistation_one.Base.{if◌then◌else◌, ℕ, ◌*◌, ◌≤◌, ◌≡◌, refl, Bool, true, false, arith}
use zonistation_one.Base.Int.{
  ℤ, pos_part, neg_part, ◌+ℤ◌, ◌*ℤ◌, leb_ℤ, ltb_ℤ, shift_right, pos, negsuc,
}
use zonistation_one.Spu.Adsr.{
  SpuVoice, adsr_numerator_inc, adsr_numerator_dec, clamp_rate, ticks_over, exponential_fall,
  store_envelope, rising_rate, adsr_attack, adsr_decay, adsr_sustain, adsr_release, spu_adsr_mix,
  AdsrState, mix_phase,
}

-- 0 to 32767.
pub record InRange (vol : ℤ) : Type 0 where
  pub below : pos_part vol ≤ 32767
  pub nonnegative : neg_part vol ≡ 0

record Below (vol : ℤ) : Type 0 where
  below : pos_part vol ≤ 32767

record NonNegative (vol : ℤ) : Type 0 where
  nonnegative : neg_part vol ≡ 0

if-InRange : (b : Bool) {x y : ℤ} → InRange x → InRange y → InRange (if b then x else y)
if-InRange true p q = p
if-InRange false p q = q

if-Below : (b : Bool) {x y : ℤ} → Below x → Below y → Below (if b then x else y)
if-Below true p q = p
if-Below false p q = q

if-NonNegative :
    (b : Bool) {x y : ℤ} → NonNegative x → NonNegative y → NonNegative (if b then x else y)
if-NonNegative true p q = p
if-NonNegative false p q = q

-- The numbers of the tables, by their signs.
adsr_numerator_dec-sign : (rate : ℕ) → pos_part (adsr_numerator_dec rate) ≡ 0
unfolding adsr_numerator_dec
adsr_numerator_dec-sign rate = ground arith

adsr_numerator_inc-sign : (rate : ℕ) → neg_part (adsr_numerator_inc rate) ≡ 0
unfolding adsr_numerator_inc
adsr_numerator_inc-sign rate = ground arith

product_sign : (d v : ℤ) → pos_part d ≡ 0 → neg_part v ≡ 0 → pos_part (d *ℤ v) ≡ 0
unfolding ◌*ℤ◌
product_sign d v p q = rw p (rw q (ground arith))

shift_sign : (x : ℤ) → pos_part x ≡ 0 → pos_part (shift_right x 15) ≡ 0
shift_sign (pos n) h = omega arith
shift_sign (negsuc n) h = refl

lowered-Below : (v d : ℤ) → InRange v → pos_part d ≡ 0 → Below (v +ℤ d)
unfolding ◌+ℤ◌
lowered-Below v d r h = record { below = ground (arith, r.below, r.nonnegative, h) }

raised-NonNegative : (v d : ℤ) → InRange v → neg_part d ≡ 0 → NonNegative (v +ℤ d)
unfolding ◌+ℤ◌
raised-NonNegative v d r h = record { nonnegative = ground (arith, r.nonnegative, h) }

exponential_fall-Below : (v : ℤ) (rate : ℕ) → InRange v → Below (exponential_fall v rate)
unfolding exponential_fall
exponential_fall-Below v rate r =
    let sign = adsr_numerator_dec-sign rate in
    lowered-Below v (shift_right (adsr_numerator_dec rate *ℤ v) 15) r (
      shift_sign (adsr_numerator_dec rate *ℤ v)
        (product_sign (adsr_numerator_dec rate) v sign r.nonnegative))

-- The two clamps.
floor-InRange : (x : ℤ) → Below x → InRange (if ltb_ℤ x (pos 0) then pos 0 else x)
floor-InRange x b = record {
  below = ground (arith, b.below);
  nonnegative = ground (arith, b.below);
}

ceiling-InRange : (x : ℤ) → NonNegative x → InRange (if ltb_ℤ (pos 32767) x then pos 32767 else x)
ceiling-InRange x n = record {
  below = ground (arith, n.nonnegative);
  nonnegative = ground (arith, n.nonnegative);
}

-- What a phase gives: the volume in range, returned and stored.
pub record MixIsBounded (r : ℤ × SpuVoice) : Type 0 where
  pub value : InRange r.0
  pub stored : r.1.envelope_vol ≡ r.0

if-MixIsBounded :
    (b : Bool) {x y : ℤ × SpuVoice}
    → (b ≡ true → MixIsBounded x)
    → (b ≡ false → MixIsBounded y)
    → MixIsBounded (if b then x else y)
if-MixIsBounded true p q = p refl
if-MixIsBounded false p q = q refl

InRange-Below : (v : ℤ) → InRange v → Below v
InRange-Below v r = record { below = r.below }

InRange-NonNegative : (v : ℤ) → InRange v → NonNegative v
InRange-NonNegative v r = record { nonnegative = r.nonnegative }

under-InRange : (x : ℤ) → NonNegative x → leb_ℤ (pos 32767) x ≡ false → InRange x
under-InRange x n h = record {
  below = ground (arith, n.nonnegative, h);
  nonnegative = n.nonnegative;
}

above-InRange : (x : ℤ) → Below x → ltb_ℤ x (pos 0) ≡ false → InRange x
above-InRange x b h = record { below = b.below; nonnegative = ground (arith, b.below, h) }

top-InRange : InRange (pos 32767)
top-InRange = record { below = omega arith; nonnegative = refl }

zero-InRange : InRange (pos 0)
zero-InRange = record { below = omega arith; nonnegative = refl }

attack_phase-MixIsBounded :
    (voice : SpuVoice) → InRange voice.envelope_vol → MixIsBounded (adsr_attack voice)
unfolding adsr_attack store_envelope
attack_phase-MixIsBounded voice r =
    let v = voice.envelope_vol in
    let rate = rising_rate voice.attack_rate voice.attack_mode_exp v in
    let raised = if ticks_over voice rate then v +ℤ adsr_numerator_inc rate else v in
    let up : NonNegative raised =
      if-NonNegative (ticks_over voice rate)
        (raised-NonNegative v (adsr_numerator_inc rate) r (adsr_numerator_inc-sign rate))
        (InRange-NonNegative v r) in
    if-MixIsBounded (leb_ℤ (pos 32767) raised) (λ e. record { value = top-InRange; stored = refl })
      (λ e. record { value = under-InRange raised up e; stored = refl })

decay_phase-MixIsBounded :
    (voice : SpuVoice) → InRange voice.envelope_vol → MixIsBounded (adsr_decay voice)
unfolding adsr_decay store_envelope
decay_phase-MixIsBounded voice r =
    let v = voice.envelope_vol in
    let rate = clamp_rate (voice.decay_rate * 4) in
    let down =
      if-Below (ticks_over voice rate) (exponential_fall-Below v rate r) (InRange-Below v r) in
    record { value = floor-InRange _ down; stored = refl }

-- The fall of Sustain and Release, in either mode.
fallen-Below :
    (voice : SpuVoice) (exponential : Bool) (rate : ℕ)
    → InRange voice.envelope_vol
    → Below (
        if ticks_over voice rate
        then (if exponential
            then exponential_fall voice.envelope_vol rate
            else voice.envelope_vol +ℤ adsr_numerator_dec rate)
        else voice.envelope_vol)
fallen-Below voice exponential rate r =
    let v = voice.envelope_vol in
    if-Below (ticks_over voice rate)
      (if-Below exponential (exponential_fall-Below v rate r)
        (lowered-Below v (adsr_numerator_dec rate) r (adsr_numerator_dec-sign rate)))
      (InRange-Below v r)

sustain_phase-MixIsBounded :
    (voice : SpuVoice) → InRange voice.envelope_vol → MixIsBounded (adsr_sustain voice)
unfolding adsr_sustain store_envelope
sustain_phase-MixIsBounded voice r =
    let v = voice.envelope_vol in
    let up = rising_rate voice.sustain_rate voice.sustain_mode_exp v in
    let rate = if voice.sustain_increase then up else clamp_rate voice.sustain_rate in
    let rise =
      if-NonNegative (ticks_over voice rate)
        (raised-NonNegative v (adsr_numerator_inc rate) r (adsr_numerator_inc-sign rate))
        (InRange-NonNegative v r) in
    record {
      value =
          if-InRange voice.sustain_increase (ceiling-InRange _ rise)
            (floor-InRange _ (fallen-Below voice voice.sustain_mode_exp rate r));
      stored = refl;
    }

release_phase-MixIsBounded :
    (voice : SpuVoice) → InRange voice.envelope_vol → MixIsBounded (adsr_release voice)
unfolding adsr_release store_envelope
release_phase-MixIsBounded voice r =
    let rate = clamp_rate (voice.release_rate * 4) in
    let down = fallen-Below voice voice.release_mode_exp rate r in
    if-MixIsBounded _ (λ e. record { value = zero-InRange; stored = refl })
      (λ e. record { value = above-InRange _ down e; stored = refl })

bounded_parts : (r : ℤ × SpuVoice) → MixIsBounded r → InRange r.0 × InRange r.1.envelope_vol
bounded_parts r m = (m.value, rw m.stored m.value)

phase-InRange :
    (phase : AdsrState) (voice : SpuVoice)
    → InRange voice.envelope_vol
    → InRange (mix_phase phase voice).0 × InRange (mix_phase phase voice).1.envelope_vol
unfolding mix_phase
phase-InRange AdsrState.attack voice r =
    bounded_parts (adsr_attack voice) (attack_phase-MixIsBounded voice r)
phase-InRange AdsrState.decay voice r =
    bounded_parts (adsr_decay voice) (decay_phase-MixIsBounded voice r)
phase-InRange AdsrState.sustain voice r =
    bounded_parts (adsr_sustain voice) (sustain_phase-MixIsBounded voice r)
phase-InRange AdsrState.release voice r =
    bounded_parts (adsr_release voice) (release_phase-MixIsBounded voice r)
phase-InRange AdsrState.stopped voice r = (zero-InRange, r)

-- From a volume of 0 to 32767 a sample of the envelope gives, in every phase, mode and rate, a
-- volume of 0 to 32767, and leaves such a volume in the voice.
pub spu_adsr_mix_lem :
    (voice : SpuVoice)
    → InRange voice.envelope_vol
    → InRange (spu_adsr_mix voice).0 × InRange (spu_adsr_mix voice).1.envelope_vol
unfolding spu_adsr_mix
spu_adsr_mix_lem voice r = phase-InRange voice.adsr_state voice r
