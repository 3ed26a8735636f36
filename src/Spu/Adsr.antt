-- ===== src/Spu/Adsr.antt =====
-- src/spu/spu_adsr.c: the envelope of a voice. `EnvelopeVol` is an `int32_t`, here the integer; the
-- rates and the fraction counter are never negative.
use zonistation_one.Base.{
  ltb, leb, if◌then◌else◌, ℕ, ◌+◌, ◌-◌, ◌*◌, ◌/◌, ◌%◌, ◌^◌, Bool, false, ◌&&◌,
}
use zonistation_one.Base.Int.{
  ℤ, pos_part, ◌+ℤ◌, ◌*ℤ◌, leb_ℤ, ltb_ℤ, to_word, shift_right, pos, negsuc,
}

pub data AdsrState : Type 0 where
  attack decay sustain release stopped : AdsrState

-- The fields of `SpuVoice` (include/spu.h) that the envelope uses.
pub record SpuVoice : Type 0 where
  pub on : Bool
  pub attack_rate : ℕ
  pub attack_mode_exp : Bool
  pub decay_rate : ℕ
  pub sustain_level : ℕ
  pub sustain_rate : ℕ
  pub sustain_increase : Bool
  pub sustain_mode_exp : Bool
  pub release_rate : ℕ
  pub release_mode_exp : Bool
  pub adsr_state : AdsrState
  pub envelope_vol : ℤ
  pub envelope_vol_f : ℕ
  pub adsr_volume : ℕ  -- int16_t

-- The three tables of `adsr_init_tables`.
unfoldable pub adsr_denominator : ℕ → ℕ
adsr_denominator n = if ltb n 48 then 1 else 2 ^ (n / 4 - 11)

unfoldable pub adsr_numerator_inc : ℕ → ℤ
adsr_numerator_inc n = if ltb n 48 then pos ((7 - n % 4) * 2 ^ (11 - n / 4)) else pos (7 - n % 4)

unfoldable pub adsr_numerator_dec : ℕ → ℤ
adsr_numerator_dec n =
    if ltb n 48 then negsuc ((8 - n % 4) * 2 ^ (11 - n / 4) - 1) else negsuc (8 - n % 4 - 1)

abbrev pub clamp_rate : ℕ → ℕ
clamp_rate rate = if ltb 127 rate then 127 else rate

-- `EnvelopeVolF++`, which reaches the denominator or not.
abbrev pub ticks_over : SpuVoice → ℕ → Bool
ticks_over voice rate = leb (adsr_denominator rate) (voice.envelope_vol_f + 1)

unfoldable pub exponential_fall : ℤ → ℕ → ℤ
exponential_fall vol rate = vol +ℤ shift_right (adsr_numerator_dec rate *ℤ vol) 15

-- The write back that ends each phase.
unfoldable pub store_envelope : SpuVoice → ℤ → ℕ → SpuVoice
store_envelope voice vol fraction = record voice {
  envelope_vol = vol;
  envelope_vol_f = fraction;
  adsr_volume = to_word 16 vol;
}

-- The faster rate above three quarters of the range, in exponential mode.
abbrev pub rising_rate : ℕ → Bool → ℤ → ℕ
rising_rate rate exponential vol =
    clamp_rate (if exponential && leb_ℤ (pos 0x6000) vol then rate + 8 else rate)

unfoldable pub adsr_attack : SpuVoice → ℤ × SpuVoice
adsr_attack voice =
    let rate = rising_rate voice.attack_rate voice.attack_mode_exp voice.envelope_vol in
    let over = ticks_over voice rate in
    let fraction = if over then 0 else voice.envelope_vol_f + 1 in
    let raised =
      if over then voice.envelope_vol +ℤ adsr_numerator_inc rate else voice.envelope_vol in
    if leb_ℤ (pos 32767) raised
    then (
      pos 32767,
      store_envelope (record voice { adsr_state = AdsrState.decay }) (pos 32767) fraction,
    )
    else (raised, store_envelope voice raised fraction)

unfoldable pub adsr_decay : SpuVoice → ℤ × SpuVoice
adsr_decay voice =
    let rate = clamp_rate (voice.decay_rate * 4) in
    let over = ticks_over voice rate in
    let fraction = if over then 0 else voice.envelope_vol_f + 1 in
    let fallen = if over then exponential_fall voice.envelope_vol rate else voice.envelope_vol in
    let vol = if ltb_ℤ fallen (pos 0) then pos 0 else fallen in
    let reached = leb (pos_part vol / 2 ^ 11 % 16) voice.sustain_level in
    (
      vol,
      store_envelope
          (record voice { adsr_state = if reached then AdsrState.sustain else voice.adsr_state })
          vol fraction,
    )

unfoldable pub adsr_sustain : SpuVoice → ℤ × SpuVoice
adsr_sustain voice =
    let up = rising_rate voice.sustain_rate voice.sustain_mode_exp voice.envelope_vol in
    let down = clamp_rate voice.sustain_rate in
    let rate = if voice.sustain_increase then up else down in
    let over = ticks_over voice rate in
    let fraction = if over then 0 else voice.envelope_vol_f + 1 in
    let raised =
      if over then voice.envelope_vol +ℤ adsr_numerator_inc rate else voice.envelope_vol in
    let lowered =
      if voice.sustain_mode_exp
      then exponential_fall voice.envelope_vol rate
      else voice.envelope_vol +ℤ adsr_numerator_dec rate in
    let fallen = if over then lowered else voice.envelope_vol in
    let vol =
      if voice.sustain_increase
      then (if ltb_ℤ (pos 32767) raised then pos 32767 else raised)
      else (if ltb_ℤ fallen (pos 0) then pos 0 else fallen) in
    (vol, store_envelope voice vol fraction)

unfoldable pub adsr_release : SpuVoice → ℤ × SpuVoice
adsr_release voice =
    let rate = clamp_rate (voice.release_rate * 4) in
    let over = ticks_over voice rate in
    let fraction = if over then 0 else voice.envelope_vol_f + 1 in
    let lowered =
      if voice.release_mode_exp
      then exponential_fall voice.envelope_vol rate
      else voice.envelope_vol +ℤ adsr_numerator_dec rate in
    let fallen = if over then lowered else voice.envelope_vol in
    if ltb_ℤ fallen (pos 0)
    then (
      pos 0,
      store_envelope (record voice { adsr_state = AdsrState.stopped; on = false }) (pos 0) fraction,
    )
    else (fallen, store_envelope voice fallen fraction)

-- The switch of `spu_adsr_mix`.
unfoldable pub mix_phase : AdsrState → SpuVoice → ℤ × SpuVoice
mix_phase AdsrState.attack voice = adsr_attack voice
mix_phase AdsrState.decay voice = adsr_decay voice
mix_phase AdsrState.sustain voice = adsr_sustain voice
mix_phase AdsrState.release voice = adsr_release voice
mix_phase AdsrState.stopped voice = (pos 0, voice)

unfoldable pub spu_adsr_mix : SpuVoice → ℤ × SpuVoice
spu_adsr_mix voice = mix_phase voice.adsr_state voice
