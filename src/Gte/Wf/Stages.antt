-- ===== src/Gte/Wf/Stages.antt =====
-- The invariant over the stages of gte_internal.h, and over the core of RTPS.
use zonistation_one.Gte.Reg
use zonistation_one.Base.{ℕ, ◌+◌, ◌<◌, Bool, true, false, arith}
use zonistation_one.Base.Int.{ℤ, pos}
use zonistation_one.Gte.Pipeline.{
  set_macs, ir_from_mac, set_macs_and_irs, gte_mul_mat_vec, buggy_row, gte_mul_mat_vec_buggy,
  gte_light_step, gte_color_matrix_step, gte_color_apply_step, far_distance, gte_depth_cue_step,
  gte_depth_cue_color_step,
}
use zonistation_one.Gte.Saturate.{ir_min}
use zonistation_one.Gte.State.{Gte}
use zonistation_one.Gte.Transform.{
  set_ir3, set_depth, rotate_vertex, project_vertex, gte_rtps_core, set_otz,
}
use zonistation_one.Gte.Wf.Core.{
  GteIsMid, to_word32-lt, set_data-GteIsMid, if-GteIsMid, saturate-GteIsMid,
  check_mac_overflow-GteIsMid, truncate_and_set_mac-GteIsMid, truncate_and_set_ir-GteIsMid,
  gte_clamp_ir_nolm-GteIsMid, push_sz-GteIsMid, push_sxy-GteIsMid, gte_unr_divide-GteIsMid,
}

ir_from_mac-GteIsMid :
    {gte : Gte} (index : ℕ) (lm : Bool)
    → index < 4
    → GteIsMid gte
    → GteIsMid (ir_from_mac gte index lm)
unfolding ir_from_mac
ir_from_mac-GteIsMid index lm h w = truncate_and_set_ir-GteIsMid index _ lm h w

set_macs-GteIsMid :
    {gte : Gte} (a b c : ℤ) (shift : ℕ) → GteIsMid gte → GteIsMid (set_macs gte a b c shift)
unfolding set_macs
set_macs-GteIsMid a b c shift w = truncate_and_set_mac-GteIsMid 3 c shift (omega arith) (
    truncate_and_set_mac-GteIsMid 2 b shift (omega arith)
      (truncate_and_set_mac-GteIsMid 1 a shift (omega arith) w))

pub set_macs_and_irs-GteIsMid :
    {gte : Gte} (a b c : ℤ) (shift : ℕ) (lm : Bool)
    → GteIsMid gte
    → GteIsMid (set_macs_and_irs gte a b c shift lm)
unfolding set_macs_and_irs
set_macs_and_irs-GteIsMid a b c shift lm w = ir_from_mac-GteIsMid 3 lm (omega arith) (
    ir_from_mac-GteIsMid 2 lm (omega arith)
      (ir_from_mac-GteIsMid 1 lm (omega arith) (set_macs-GteIsMid a b c shift w)))

-- The stages: each goes on from the registers that the one before left.
module _ {gte : Gte} (w : GteIsMid gte) (shift : ℕ) (lm : Bool) where
  pub gte_mul_mat_vec-GteIsMid : (m t v : ℕ → ℤ) → GteIsMid (gte_mul_mat_vec gte m t v shift lm)
  unfolding gte_mul_mat_vec
  gte_mul_mat_vec-GteIsMid m t v = set_macs_and_irs-GteIsMid _ _ _ shift lm w

  pub gte_light_step-GteIsMid : (v : ℕ → ℤ) → GteIsMid (gte_light_step gte v shift lm)
  unfolding gte_light_step
  gte_light_step-GteIsMid v = set_macs_and_irs-GteIsMid _ _ _ shift lm w

  pub gte_color_matrix_step-GteIsMid : GteIsMid (gte_color_matrix_step gte shift lm)
  unfolding gte_color_matrix_step
  gte_color_matrix_step-GteIsMid = set_macs_and_irs-GteIsMid _ _ _ shift lm w

  pub gte_color_apply_step-GteIsMid : GteIsMid (gte_color_apply_step gte shift lm)
  unfolding gte_color_apply_step
  gte_color_apply_step-GteIsMid = set_macs_and_irs-GteIsMid _ _ _ shift lm w

far_distance-GteIsMid :
    {gte : Gte} (i : ℕ) (input : ℤ) (shift : ℕ)
    → i < 3
    → GteIsMid gte
    → GteIsMid (far_distance gte i input shift).1
unfolding far_distance
far_distance-GteIsMid i input shift h w =
    gte_clamp_ir_nolm-GteIsMid (i + 1) _ (omega arith)
      (check_mac_overflow-GteIsMid (i + 1) _ (omega arith) w)

pub gte_depth_cue_step-GteIsMid :
    {gte : Gte} (r g b : ℤ) (shift : ℕ) (lm : Bool)
    → GteIsMid gte
    → GteIsMid (gte_depth_cue_step gte r g b shift lm)
unfolding gte_depth_cue_step
gte_depth_cue_step-GteIsMid r g b shift lm w = set_macs_and_irs-GteIsMid _ _ _ shift lm (
    far_distance-GteIsMid 2 b shift (omega arith) (
      far_distance-GteIsMid 1 g shift (omega arith)
        (far_distance-GteIsMid 0 r shift (omega arith) w)))

pub gte_depth_cue_color_step-GteIsMid :
    {gte : Gte} (shift : ℕ) (lm : Bool)
    → GteIsMid gte
    → GteIsMid (gte_depth_cue_color_step gte shift lm)
unfolding gte_depth_cue_color_step
gte_depth_cue_color_step-GteIsMid shift lm w = gte_depth_cue_step-GteIsMid _ _ _ shift lm w

buggy_row-GteIsMid :
    {gte : Gte} (r : ℕ) (m t v : ℕ → ℤ) (shift : ℕ) (lm : Bool)
    → r < 3
    → GteIsMid gte
    → GteIsMid (buggy_row gte r m t v shift lm)
unfolding buggy_row
buggy_row-GteIsMid r m t v shift lm h w = ir_from_mac-GteIsMid (r + 1) lm (omega arith) (
    truncate_and_set_mac-GteIsMid (r + 1) _ shift (omega arith)
      (truncate_and_set_ir-GteIsMid (r + 1) _ false (omega arith) w))

pub gte_mul_mat_vec_buggy-GteIsMid :
    {gte : Gte} (m t v : ℕ → ℤ) (shift : ℕ) (lm : Bool)
    → GteIsMid gte
    → GteIsMid (gte_mul_mat_vec_buggy gte m t v shift lm)
unfolding gte_mul_mat_vec_buggy
gte_mul_mat_vec_buggy-GteIsMid m t v shift lm w =
    buggy_row-GteIsMid 2 m t v shift lm (omega arith) (
      buggy_row-GteIsMid 1 m t v shift lm (omega arith)
        (buggy_row-GteIsMid 0 m t v shift lm (omega arith) w))

-- One vertex.
set_ir3-GteIsMid :
    {gte : Gte} (mac3 : ℤ) (lm : Bool) → GteIsMid gte → GteIsMid (set_ir3 gte mac3 lm)
unfolding set_ir3
set_ir3-GteIsMid mac3 lm w =
    set_data-GteIsMid (Reg.ir0 + 3) _ (to_word32-lt _)
      (saturate-GteIsMid 22 (ir_min lm) (pos 32767) _ (omega arith) (omega arith) w)

rotate_vertex-GteIsMid :
    {gte : Gte} (v : ℕ → ℤ) (shift : ℕ) (lm : Bool)
    → GteIsMid gte
    → GteIsMid (rotate_vertex gte v shift lm)
unfolding rotate_vertex
rotate_vertex-GteIsMid v shift lm w = push_sz-GteIsMid _ (
    set_ir3-GteIsMid _ lm (
      ir_from_mac-GteIsMid 2 lm (omega arith)
        (ir_from_mac-GteIsMid 1 lm (omega arith) (set_macs-GteIsMid _ _ _ shift w))))

project_vertex-GteIsMid : {gte : Gte} → GteIsMid gte → GteIsMid (project_vertex gte).1
unfolding project_vertex
project_vertex-GteIsMid w = push_sxy-GteIsMid _ _ (
    check_mac_overflow-GteIsMid 0 _ (omega arith)
      (check_mac_overflow-GteIsMid 0 _ (omega arith) (gte_unr_divide-GteIsMid _ _ w)))

set_depth-GteIsMid : {gte : Gte} (result : ℕ) → GteIsMid gte → GteIsMid (set_depth gte result)
unfolding set_depth
set_depth-GteIsMid result w =
    truncate_and_set_ir-GteIsMid 0 _ true (omega arith)
      (truncate_and_set_mac-GteIsMid 0 _ 0 (omega arith) w)

pub gte_rtps_core-GteIsMid :
    {gte : Gte} (v : ℕ → ℤ) (shift : ℕ) (lm last : Bool)
    → GteIsMid gte
    → GteIsMid (gte_rtps_core gte v shift lm last)
unfolding gte_rtps_core
gte_rtps_core-GteIsMid v shift lm last w =
    let p = project_vertex-GteIsMid (rotate_vertex-GteIsMid v shift lm w) in
    if-GteIsMid last (set_depth-GteIsMid _ p) p

pub set_otz-GteIsMid : {gte : Gte} (v : ℤ) → GteIsMid gte → GteIsMid (set_otz gte v)
unfolding set_otz
set_otz-GteIsMid v w = set_data-GteIsMid Reg.otz _ (omega arith) (
    saturate-GteIsMid 18 (pos 0) (pos 65535) _ (omega arith) (omega arith)
      (truncate_and_set_mac-GteIsMid 0 v 0 (omega arith) w))
