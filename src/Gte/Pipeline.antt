-- ===== src/Gte/Pipeline.antt =====
-- gte_internal.h: the stages that the commands are made of.
use zonistation_one.Gte.Ctl
use zonistation_one.Gte.Reg
use zonistation_one.Base.{u8, ◌>>>◌, ℕ, ◌+◌, ◌*◌, Bool, false}
use zonistation_one.Base.Int.{ℤ, ◌+ℤ◌, ◌-ℤ◌, ◌*ℤ◌, shift_right, pos}
use zonistation_one.Gte.Saturate.{
  sign_extend_44, check_mac_overflow, truncate_and_set_mac, truncate_and_set_ir, gte_clamp_ir_nolm,
  mac,
}
use zonistation_one.Gte.State.{Gte, cast_int32, shift_left, ir, ir_vector, matrix, triple, row_dot}

-- The end of every stage: three sums into MAC1 to MAC3, then into IR1 to IR3.
unfoldable pub set_macs : Gte → ℤ → ℤ → ℤ → ℕ → Gte
set_macs gte mac1 mac2 mac3 shift =
    truncate_and_set_mac (truncate_and_set_mac (truncate_and_set_mac gte 1 mac1 shift) 2 mac2 shift)
      3 mac3 shift

-- `truncate_and_set_ir(gte, i, gte->data[MACi], lm)`.
unfoldable pub ir_from_mac : Gte → ℕ → Bool → Gte
ir_from_mac gte index lm = truncate_and_set_ir gte index (mac gte index) lm

unfoldable pub set_macs_and_irs : Gte → ℤ → ℤ → ℤ → ℕ → Bool → Gte
set_macs_and_irs gte mac1 mac2 mac3 shift lm =
    ir_from_mac (ir_from_mac (ir_from_mac (set_macs gte mac1 mac2 mac3 shift) 1 lm) 2 lm) 3 lm

-- `t << 12` plus a row of the matrix times the vector, in 44 bits.
abbrev pub mac_sum : (ℕ → ℤ) → (ℕ → ℤ) → (ℕ → ℤ) → ℕ → ℤ
mac_sum m t v r = sign_extend_44 (shift_left (t r) 12 +ℤ row_dot m v r)

unfoldable pub gte_mul_mat_vec : Gte → (ℕ → ℤ) → (ℕ → ℤ) → (ℕ → ℤ) → ℕ → Bool → Gte
gte_mul_mat_vec gte m t v shift lm =
    set_macs_and_irs gte (mac_sum m t v 0) (mac_sum m t v 1) (mac_sum m t v 2) shift lm

-- A row in which the first column only sets a flag.
unfoldable pub buggy_row : Gte → ℕ → (ℕ → ℤ) → (ℕ → ℤ) → (ℕ → ℤ) → ℕ → Bool → Gte
buggy_row gte r m t v shift lm =
    let temp = sign_extend_44 (shift_left (t r) 12 +ℤ m (3 * r) *ℤ v 0) in
    let gte1 = truncate_and_set_ir gte (r + 1) (cast_int32 (shift_right temp shift)) false in
    let sum = sign_extend_44 (m (3 * r + 1) *ℤ v 1 +ℤ m (3 * r + 2) *ℤ v 2) in
    ir_from_mac (truncate_and_set_mac gte1 (r + 1) sum shift) (r + 1) lm

unfoldable pub gte_mul_mat_vec_buggy : Gte → (ℕ → ℤ) → (ℕ → ℤ) → (ℕ → ℤ) → ℕ → Bool → Gte
gte_mul_mat_vec_buggy gte m t v shift lm =
    buggy_row (buggy_row (buggy_row gte 0 m t v shift lm) 1 m t v shift lm) 2 m t v shift lm

-- L * V.
unfoldable pub gte_light_step : Gte → (ℕ → ℤ) → ℕ → Bool → Gte
gte_light_step gte v shift lm =
    let l = matrix gte Ctl.light in
    set_macs_and_irs gte (sign_extend_44 (row_dot l v 0)) (sign_extend_44 (row_dot l v 1))
      (sign_extend_44 (row_dot l v 2)) shift lm

-- BK * 4096 + LC * IR.
unfoldable pub gte_color_matrix_step : Gte → ℕ → Bool → Gte
gte_color_matrix_step gte shift lm =
    let lc = matrix gte Ctl.colour in
    let bk = triple gte Ctl.background in
    let v = ir_vector gte in
    set_macs_and_irs gte (mac_sum lc bk v 0) (mac_sum lc bk v 1) (mac_sum lc bk v 2) shift lm

-- A colour byte of a register.
abbrev pub colour_byte : ℕ → ℕ → ℤ
colour_byte word i = pos (u8 (word >>> (8 * i)))

-- `(c * ir) << 4` for a colour of RGBC.
unfoldable pub lit_colour : Gte → ℕ → ℤ
lit_colour gte i = shift_left (colour_byte (gte.data_reg Reg.rgbc) i *ℤ ir_vector gte i) 4

unfoldable pub gte_color_apply_step : Gte → ℕ → Bool → Gte
gte_color_apply_step gte shift lm =
    set_macs_and_irs gte (sign_extend_44 (lit_colour gte 0)) (sign_extend_44 (lit_colour gte 1))
      (sign_extend_44 (lit_colour gte 2)) shift lm

-- The way to the far colour, saturated to 16 bits.
unfoldable pub far_distance : Gte → ℕ → ℤ → ℕ → ℤ × Gte
far_distance gte i input shift =
    let temp = sign_extend_44 (shift_left (triple gte Ctl.far_colour i) 12 -ℤ input) in
    gte_clamp_ir_nolm (check_mac_overflow gte (i + 1) temp) (i + 1)
      (cast_int32 (shift_right temp shift))

unfoldable pub gte_depth_cue_step : Gte → ℤ → ℤ → ℤ → ℕ → Bool → Gte
gte_depth_cue_step gte in_r in_g in_b shift lm =
    let ir0 = ir gte 0 in
    let (int_r, gte1) = far_distance gte 0 in_r shift in
    let (int_g, gte2) = far_distance gte1 1 in_g shift in
    let (int_b, gte3) = far_distance gte2 2 in_b shift in
    set_macs_and_irs gte3 (sign_extend_44 (in_r +ℤ ir0 *ℤ int_r))
      (sign_extend_44 (in_g +ℤ ir0 *ℤ int_g)) (sign_extend_44 (in_b +ℤ ir0 *ℤ int_b)) shift lm

unfoldable pub gte_depth_cue_color_step : Gte → ℕ → Bool → Gte
gte_depth_cue_color_step gte shift lm =
    gte_depth_cue_step gte (lit_colour gte 0) (lit_colour gte 1) (lit_colour gte 2) shift lm
