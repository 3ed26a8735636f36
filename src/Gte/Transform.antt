-- ===== src/Gte/Transform.antt =====
-- gte_ops.c: the perspective transform, matrix products, and the averages of Z.
use zonistation_one.Gte.Ctl
use zonistation_one.Gte.Reg
use zonistation_one.Base.{
  ltb, ◌==◌, if◌then◌else◌, u8, u16, ◌<<<◌, ◌>>>◌, ℕ, ◌+◌, ◌*◌, ◌%◌, Bool, true, false,
}
use zonistation_one.Base.Int.{ℤ, ◌+ℤ◌, ◌-ℤ◌, ◌*ℤ◌, signed32, to_word, shift_right, pos}
use zonistation_one.Gte.Divide.{gte_unr_divide}
use zonistation_one.Gte.Pipeline.{
  set_macs, ir_from_mac, set_macs_and_irs, mac_sum, gte_mul_mat_vec, gte_mul_mat_vec_buggy,
}
use zonistation_one.Gte.Saturate.{
  saturate, check_mac_overflow, truncate_and_set_mac, ir_min, truncate_and_set_ir, mac, push_sz,
  push_sxy,
}
use zonistation_one.Gte.State.{
  Gte, set_data, int16, high16, cast_int32, cast_int16, reset_flag, shift_of, lm_of, vector, ir,
  ir_vector, matrix, triple,
}

-- IR3: the flag looks at MAC3 >> 12 whatever the shift, the value is MAC3.
unfoldable pub set_ir3 : Gte → ℤ → Bool → Gte
set_ir3 gte mac3 lm =
    let (_, gte1) = saturate gte 22 (ir_min lm) (pos 32767) (cast_int32 (shift_right mac3 12)) in
    let (v, _) = saturate gte1 22 (ir_min lm) (pos 32767) (mac gte1 3) in
    set_data gte1 (Reg.ir0 + 3) (to_word 32 (cast_int16 v))

-- The depth cue of the last vertex.
unfoldable pub set_depth : Gte → ℕ → Gte
set_depth gte result =
    let sum = pos result *ℤ int16 (gte.control Ctl.dqa) +ℤ signed32 (gte.control Ctl.dqb) in
    truncate_and_set_ir (truncate_and_set_mac gte 0 sum 0) 0 (cast_int32 (shift_right sum 12)) true

-- A coordinate on the screen, before the shift by 16.
abbrev pub screen_sum : Gte → ℕ → ℕ → ℕ → ℤ
screen_sum gte result index offset = pos result *ℤ ir gte index +ℤ signed32 (gte.control offset)

-- MAC1 to MAC3, IR1 to IR3 and SZ of a vertex.
unfoldable pub rotate_vertex : Gte → (ℕ → ℤ) → ℕ → Bool → Gte
rotate_vertex gte v shift lm =
    let rt = matrix gte Ctl.rotation in
    let tr = triple gte Ctl.translation in
    let mac3 = mac_sum rt tr v 2 in
    let gte1 = set_macs gte (mac_sum rt tr v 0) (mac_sum rt tr v 1) mac3 shift in
    let gte2 = ir_from_mac (ir_from_mac gte1 1 lm) 2 lm in
    push_sz (set_ir3 gte2 mac3 lm) (cast_int32 (shift_right mac3 12))

-- H / SZ3, and SXY.
unfoldable pub project_vertex : Gte → ℕ × Gte
project_vertex gte =
    let (result, gte1) =
      gte_unr_divide gte (u16 (gte.control Ctl.h)) (u16 (gte.data_reg Reg.sz3)) in
    let sx = screen_sum gte1 result 1 Ctl.ofx in
    let sy = screen_sum gte1 result 2 Ctl.ofy in
    let gte2 = check_mac_overflow (check_mac_overflow gte1 0 sx) 0 sy in
    (result, push_sxy gte2 (cast_int32 (shift_right sx 16)) (cast_int32 (shift_right sy 16)))

unfoldable pub gte_rtps_core : Gte → (ℕ → ℤ) → ℕ → Bool → Bool → Gte
gte_rtps_core gte v shift lm last =
    let (result, after) = project_vertex (rotate_vertex gte v shift lm) in
    if last then set_depth after result else after

unfoldable pub gte_rtps : Gte → ℕ → Gte
gte_rtps gte instruction =
    let start = reset_flag gte in
    gte_rtps_core start (vector start 0) (shift_of instruction) (lm_of instruction) true

unfoldable pub gte_rtpt : Gte → ℕ → Gte
gte_rtpt gte instruction =
    let shift = shift_of instruction in
    let lm = lm_of instruction in
    let start = reset_flag gte in
    let gte1 = gte_rtps_core start (vector start 0) shift lm false in
    let gte2 = gte_rtps_core gte1 (vector start 1) shift lm false in
    gte_rtps_core gte2 (vector start 2) shift lm true

unfoldable pub nclip_sum : Gte → ℤ
nclip_sum gte =
    let sx = λ (i : ℕ). int16 (gte.data_reg (Reg.sxy0 + i)) in
    let sy = λ (i : ℕ). high16 (gte.data_reg (Reg.sxy0 + i)) in
    sx 0 *ℤ sy 1 +ℤ sx 1 *ℤ sy 2 +ℤ sx 2 *ℤ sy 0 -ℤ sx 0 *ℤ sy 2 -ℤ sx 1 *ℤ sy 0 -ℤ sx 2 *ℤ sy 1

unfoldable pub gte_nclip : Gte → Gte
gte_nclip gte = truncate_and_set_mac (reset_flag gte) 0 (nclip_sum gte) 0

-- Matrix 3 is made of what the decoder happens to select.
unfoldable pub garbage_matrix : Gte → ℕ → ℤ
garbage_matrix gte i =
    let r = u8 (gte.data_reg Reg.rgbc) in
    if i == 0
    then cast_int16 (pos 0 -ℤ pos (r <<< 4))
    else if i == 1
    then pos (r <<< 4)
    else if i == 2
    then ir gte 0
    else if ltb i 6
    then int16 (gte.control 1)
    else int16 (gte.control 2)

abbrev pub mvmva_matrix : Gte → ℕ → ℕ → ℤ
mvmva_matrix gte index = if index == 3 then garbage_matrix gte else matrix gte (8 * index)

abbrev pub mvmva_vector : Gte → ℕ → ℕ → ℤ
mvmva_vector gte index = if index == 3 then ir_vector gte else vector gte index

abbrev pub mvmva_translation : Gte → ℕ → ℕ → ℤ
mvmva_translation gte index = if index == 3 then (λ i. pos 0) else triple gte (5 + 8 * index)

-- With FC as the translation, the product is wrong on hardware and here.
unfoldable pub gte_mvmva : Gte → ℕ → Gte
gte_mvmva gte instruction =
    let start = reset_flag gte in
    let tr = (instruction >>> 13) % 4 in
    let m = mvmva_matrix start ((instruction >>> 17) % 4) in
    let v = mvmva_vector start ((instruction >>> 15) % 4) in
    let t = mvmva_translation start tr in
    if tr == 2
    then gte_mul_mat_vec_buggy start m t v (shift_of instruction) (lm_of instruction)
    else gte_mul_mat_vec start m t v (shift_of instruction) (lm_of instruction)

unfoldable pub gte_sqr : Gte → ℕ → Gte
gte_sqr gte instruction =
    let start = reset_flag gte in
    set_macs_and_irs start (ir start 1 *ℤ ir start 1) (ir start 2 *ℤ ir start 2)
      (ir start 3 *ℤ ir start 3) (shift_of instruction) (lm_of instruction)

unfoldable pub gte_op : Gte → ℕ → Gte
gte_op gte instruction =
    let start = reset_flag gte in
    let d1 = int16 (start.control 0) in
    let d2 = int16 (start.control 2) in
    let d3 = int16 (start.control 4) in
    set_macs_and_irs start (ir start 3 *ℤ d2 -ℤ ir start 2 *ℤ d3)
      (ir start 1 *ℤ d3 -ℤ ir start 3 *ℤ d1) (ir start 2 *ℤ d1 -ℤ ir start 1 *ℤ d2)
      (shift_of instruction) (lm_of instruction)

-- MAC0 and OTZ of a scaled sum of depths.
unfoldable pub set_otz : Gte → ℤ → Gte
set_otz gte result =
    let gte1 = truncate_and_set_mac gte 0 result 0 in
    let (v, gte2) = saturate gte1 18 (pos 0) (pos 65535) (cast_int32 (shift_right result 12)) in
    set_data gte2 Reg.otz (u16 (to_word 32 v))

abbrev pub depth : Gte → ℕ → ℕ
depth gte i = u16 (gte.data_reg (Reg.sz0 + i))

unfoldable pub gte_avsz3 : Gte → Gte
gte_avsz3 gte =
    let start = reset_flag gte in
    set_otz start
      (int16 (start.control Ctl.zsf3) *ℤ pos (depth start 1 + depth start 2 + depth start 3))

unfoldable pub gte_avsz4 : Gte → Gte
gte_avsz4 gte =
    let start = reset_flag gte in
    set_otz start (
      int16 (start.control Ctl.zsf4)
      *ℤ pos (depth start 0 + depth start 1 + depth start 2 + depth start 3))
