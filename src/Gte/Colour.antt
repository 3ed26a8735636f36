-- ===== src/Gte/Colour.antt =====
-- gte_ops.c: the commands that compute colours.
use zonistation_one.Gte.Reg
use zonistation_one.Base.{◌!=◌, if◌then◌else◌, ℕ, Bool}
use zonistation_one.Base.Int.{ℤ, ◌+ℤ◌, ◌*ℤ◌}
use zonistation_one.Gte.Pipeline.{
  set_macs_and_irs, gte_light_step, gte_color_matrix_step, colour_byte, gte_color_apply_step,
  gte_depth_cue_step, gte_depth_cue_color_step,
}
use zonistation_one.Gte.Saturate.{sign_extend_44, mac, push_rgb_from_mac}
use zonistation_one.Gte.State.{Gte, shift_left, reset_flag, shift_of, lm_of, vector, ir, ir_vector}

unfoldable pub gte_color_calc_step : Gte → (ℕ → ℤ) → ℕ → Bool → Gte
gte_color_calc_step gte v shift lm =
    push_rgb_from_mac (gte_color_matrix_step (gte_light_step gte v shift lm) shift lm)

unfoldable pub gte_nccs_core : Gte → (ℕ → ℤ) → ℕ → Bool → Gte
gte_nccs_core gte v shift lm =
    push_rgb_from_mac (
      gte_color_apply_step (gte_color_matrix_step (gte_light_step gte v shift lm) shift lm) shift
        lm)

-- The body of NCDS, and of the loop of NCDT.
unfoldable pub ncds_core : Gte → (ℕ → ℤ) → ℕ → Bool → Gte
ncds_core gte v shift lm = push_rgb_from_mac (
    gte_depth_cue_color_step (gte_color_matrix_step (gte_light_step gte v shift lm) shift lm) shift
      lm)

-- The loop over V0, V1 and V2.
abbrev pub for_vectors : (Gte → (ℕ → ℤ) → ℕ → Bool → Gte) → Gte → ℕ → Bool → Gte
for_vectors core gte shift lm =
    let gte1 = core gte (vector gte 0) shift lm in
    let gte2 = core gte1 (vector gte1 1) shift lm in core gte2 (vector gte2 2) shift lm

unfoldable pub gte_ncs : Gte → ℕ → Gte
gte_ncs gte i =
    let start = reset_flag gte in gte_color_calc_step start (vector start 0) (shift_of i) (lm_of i)

unfoldable pub gte_nct : Gte → ℕ → Gte
gte_nct gte i = for_vectors gte_color_calc_step (reset_flag gte) (shift_of i) (lm_of i)

unfoldable pub gte_nccs : Gte → ℕ → Gte
gte_nccs gte i =
    let start = reset_flag gte in gte_nccs_core start (vector start 0) (shift_of i) (lm_of i)

unfoldable pub gte_ncct : Gte → ℕ → Gte
gte_ncct gte i = for_vectors gte_nccs_core (reset_flag gte) (shift_of i) (lm_of i)

unfoldable pub gte_cc : Gte → ℕ → Gte
gte_cc gte i =
    let shift = shift_of i in
    let lm = lm_of i in
    push_rgb_from_mac
      (gte_color_apply_step (gte_color_matrix_step (reset_flag gte) shift lm) shift lm)

unfoldable pub gte_cdp : Gte → ℕ → Gte
gte_cdp gte i =
    let shift = shift_of i in
    let lm = lm_of i in
    push_rgb_from_mac
      (gte_depth_cue_color_step (gte_color_matrix_step (reset_flag gte) shift lm) shift lm)

unfoldable pub gte_ncds : Gte → ℕ → Gte
gte_ncds gte i =
    let start = reset_flag gte in ncds_core start (vector start 0) (shift_of i) (lm_of i)

unfoldable pub gte_ncdt : Gte → ℕ → Gte
gte_ncdt gte i = for_vectors ncds_core (reset_flag gte) (shift_of i) (lm_of i)

-- The colour in a register, moved towards the far colour and pushed.
unfoldable pub cue_register : Gte → ℕ → ℕ → Bool → Gte
cue_register gte r shift lm =
    let c = λ (i : ℕ). shift_left (colour_byte (gte.data_reg r) i) 16 in
    push_rgb_from_mac (gte_depth_cue_step gte (c 0) (c 1) (c 2) shift lm)

unfoldable pub gte_dpcs : Gte → ℕ → Gte
gte_dpcs gte i = cue_register (reset_flag gte) Reg.rgbc (shift_of i) (lm_of i)

-- Three times RGB0, while the FIFO moves on.
unfoldable pub gte_dpct : Gte → ℕ → Gte
gte_dpct gte i =
    let shift = shift_of i in
    let lm = lm_of i in
    let gte1 = cue_register (reset_flag gte) Reg.rgb0 shift lm in
    cue_register (cue_register gte1 Reg.rgb0 shift lm) Reg.rgb0 shift lm

unfoldable pub gte_dcpl : Gte → ℕ → Gte
gte_dcpl gte i =
    push_rgb_from_mac (gte_depth_cue_color_step (reset_flag gte) (shift_of i) (lm_of i))

unfoldable pub gte_intpl : Gte → ℕ → Gte
gte_intpl gte i =
    let start = reset_flag gte in
    let input = λ (k : ℕ). shift_left (ir_vector start k) 12 in
    push_rgb_from_mac
      (gte_depth_cue_step start (input 0) (input 1) (input 2) (shift_of i) (lm_of i))

unfoldable pub gte_gpf : Gte → ℕ → Gte
gte_gpf gte i =
    let start = reset_flag gte in
    let sum = λ (k : ℕ). sign_extend_44 (ir start 0 *ℤ ir start k) in
    push_rgb_from_mac (set_macs_and_irs start (sum 1) (sum 2) (sum 3) (shift_of i) (lm_of i))

-- `shift ? MAC << 12 : MAC`.
abbrev pub previous_mac : Gte → ℕ → ℕ → ℤ
previous_mac gte shift k = if shift != 0 then shift_left (mac gte k) 12 else mac gte k

unfoldable pub gte_gpl : Gte → ℕ → Gte
gte_gpl gte i =
    let start = reset_flag gte in
    let shift = shift_of i in
    let sum = λ (k : ℕ). sign_extend_44 (previous_mac start shift k +ℤ ir start 0 *ℤ ir start k) in
    push_rgb_from_mac (set_macs_and_irs start (sum 1) (sum 2) (sum 3) shift (lm_of i))
