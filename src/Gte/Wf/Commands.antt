-- ===== src/Gte/Wf/Commands.antt =====
-- The invariant over the commands of gte_ops.c, and over their dispatch in gte.c.
use zonistation_one.Base.{◌==◌, if◌then◌else◌, ◌>>>◌, ℕ, ◌%◌, ◌^◌, ◌≤◌, Bool, true, false, arith}
use zonistation_one.Base.Int.{ℤ}
use zonistation_one.Gte.Colour.{
  gte_color_calc_step, gte_nccs_core, ncds_core, for_vectors, gte_ncs, gte_nct, gte_nccs, gte_ncct,
  gte_cc, gte_cdp, gte_ncds, gte_ncdt, cue_register, gte_dpcs, gte_dpct, gte_dcpl, gte_intpl,
  gte_gpf, gte_gpl,
}
use zonistation_one.Gte.Execute.{run_command, gte_execute_instruction}
use zonistation_one.Gte.State.{Gte, reset_flag, shift_of, lm_of, gte_update_error_flag}
use zonistation_one.Gte.Transform.{
  gte_rtps, gte_rtpt, gte_nclip, gte_mvmva, gte_sqr, gte_op, gte_avsz3, gte_avsz4,
}
use zonistation_one.Gte.Wf.Core.{
  GteIsMid, reset_flag-GteIsMid, if-GteIsMid, truncate_and_set_mac-GteIsMid,
  push_rgb_from_mac-GteIsMid, GteIsWf, GteIsWf-GteIsMid, with_flag-GteIsMid,
}
use zonistation_one.Gte.Wf.Flag.{FlagIsWf-FlagIsMid, summary-FlagIsWf}
use zonistation_one.Gte.Wf.Stages.{
  set_macs_and_irs-GteIsMid, gte_mul_mat_vec-GteIsMid, gte_light_step-GteIsMid,
  gte_color_matrix_step-GteIsMid, gte_color_apply_step-GteIsMid, gte_depth_cue_step-GteIsMid,
  gte_depth_cue_color_step-GteIsMid, gte_mul_mat_vec_buggy-GteIsMid, gte_rtps_core-GteIsMid,
  set_otz-GteIsMid,
}

-- A command's cycles, 1 to 44, and its registers.
record RunsWell (r : ℕ × Gte) : Type 0 where
  least : 1 ≤ r.0
  most : r.0 ≤ 44
  registers : GteIsMid r.1

runs : {cycles : ℕ} {gte : Gte} → 1 ≤ cycles → cycles ≤ 44 → GteIsMid gte → RunsWell (cycles, gte)
runs lo hi w = record { least = lo; most = hi; registers = w }

if-RunsWell : (b : Bool) {x y : ℕ × Gte} → RunsWell x → RunsWell y → RunsWell (if b then x else y)
if-RunsWell true p q = p
if-RunsWell false p q = q

-- A core of a colour command.
abbrev Core : Type 0
Core = Gte → (ℕ → ℤ) → ℕ → Bool → Gte

abbrev Preserves : Core → Type 0
Preserves core =
    (gte : Gte) (v : ℕ → ℤ) (shift : ℕ) (lm : Bool) → GteIsMid gte → GteIsMid (core gte v shift lm)

for_vectors-GteIsMid :
    (core : Core) {gte : Gte} (shift : ℕ) (lm : Bool)
    → Preserves core
    → GteIsMid gte
    → GteIsMid (for_vectors core gte shift lm)
for_vectors-GteIsMid core shift lm p w = p _ _ shift lm (p _ _ shift lm (p _ _ shift lm w))

color_calc-Preserves : Preserves gte_color_calc_step
unfolding gte_color_calc_step
color_calc-Preserves gte v shift lm w =
    push_rgb_from_mac-GteIsMid
      (gte_color_matrix_step-GteIsMid (gte_light_step-GteIsMid w shift lm v) shift lm)

nccs-Preserves : Preserves gte_nccs_core
unfolding gte_nccs_core
nccs-Preserves gte v shift lm w = push_rgb_from_mac-GteIsMid (
    gte_color_apply_step-GteIsMid
      (gte_color_matrix_step-GteIsMid (gte_light_step-GteIsMid w shift lm v) shift lm) shift lm)

ncds-Preserves : Preserves ncds_core
unfolding ncds_core
ncds-Preserves gte v shift lm w = push_rgb_from_mac-GteIsMid (
    gte_depth_cue_color_step-GteIsMid shift lm
      (gte_color_matrix_step-GteIsMid (gte_light_step-GteIsMid w shift lm v) shift lm))

cue_register-GteIsMid :
    {gte : Gte} (r shift : ℕ) (lm : Bool) → GteIsMid gte → GteIsMid (cue_register gte r shift lm)
unfolding cue_register
cue_register-GteIsMid r shift lm w =
    push_rgb_from_mac-GteIsMid (gte_depth_cue_step-GteIsMid _ _ _ shift lm w)

-- Every command starts with FLAG cleared.
module _ {gte : Gte} (w : GteIsMid gte) (i : ℕ) where
  start : GteIsMid (reset_flag gte)
  start = reset_flag-GteIsMid w

  rtps : GteIsMid (gte_rtps gte i)
  unfolding gte_rtps
  rtps = gte_rtps_core-GteIsMid _ (shift_of i) (lm_of i) true start

  rtpt : GteIsMid (gte_rtpt gte i)
  unfolding gte_rtpt
  rtpt = gte_rtps_core-GteIsMid _ (shift_of i) (lm_of i) true (
      gte_rtps_core-GteIsMid _ (shift_of i) (lm_of i) false
        (gte_rtps_core-GteIsMid _ (shift_of i) (lm_of i) false start))

  nclip : GteIsMid (gte_nclip gte)
  unfolding gte_nclip
  nclip = truncate_and_set_mac-GteIsMid 0 _ 0 (omega arith) start

  mvmva : GteIsMid (gte_mvmva gte i)
  unfolding gte_mvmva
  mvmva =
      if-GteIsMid ((i >>> 13) % 4 == 2)
        (gte_mul_mat_vec_buggy-GteIsMid _ _ _ (shift_of i) (lm_of i) start)
        (gte_mul_mat_vec-GteIsMid start (shift_of i) (lm_of i) _ _ _)

  sqr : GteIsMid (gte_sqr gte i)
  unfolding gte_sqr
  sqr = set_macs_and_irs-GteIsMid _ _ _ (shift_of i) (lm_of i) start

  outer : GteIsMid (gte_op gte i)
  unfolding gte_op
  outer = set_macs_and_irs-GteIsMid _ _ _ (shift_of i) (lm_of i) start

  avsz3 : GteIsMid (gte_avsz3 gte)
  unfolding gte_avsz3
  avsz3 = set_otz-GteIsMid _ start

  avsz4 : GteIsMid (gte_avsz4 gte)
  unfolding gte_avsz4
  avsz4 = set_otz-GteIsMid _ start

  ncs : GteIsMid (gte_ncs gte i)
  unfolding gte_ncs
  ncs = color_calc-Preserves _ _ (shift_of i) (lm_of i) start

  nct : GteIsMid (gte_nct gte i)
  unfolding gte_nct
  nct = for_vectors-GteIsMid gte_color_calc_step (shift_of i) (lm_of i) color_calc-Preserves start

  nccs : GteIsMid (gte_nccs gte i)
  unfolding gte_nccs
  nccs = nccs-Preserves _ _ (shift_of i) (lm_of i) start

  ncct : GteIsMid (gte_ncct gte i)
  unfolding gte_ncct
  ncct = for_vectors-GteIsMid gte_nccs_core (shift_of i) (lm_of i) nccs-Preserves start

  cc : GteIsMid (gte_cc gte i)
  unfolding gte_cc
  cc = push_rgb_from_mac-GteIsMid (
      gte_color_apply_step-GteIsMid (gte_color_matrix_step-GteIsMid start (shift_of i) (lm_of i))
        (shift_of i) (lm_of i))

  cdp : GteIsMid (gte_cdp gte i)
  unfolding gte_cdp
  cdp = push_rgb_from_mac-GteIsMid (
      gte_depth_cue_color_step-GteIsMid (shift_of i) (lm_of i)
        (gte_color_matrix_step-GteIsMid start (shift_of i) (lm_of i)))

  ncds : GteIsMid (gte_ncds gte i)
  unfolding gte_ncds
  ncds = ncds-Preserves _ _ (shift_of i) (lm_of i) start

  ncdt : GteIsMid (gte_ncdt gte i)
  unfolding gte_ncdt
  ncdt = for_vectors-GteIsMid ncds_core (shift_of i) (lm_of i) ncds-Preserves start

  dpcs : GteIsMid (gte_dpcs gte i)
  unfolding gte_dpcs
  dpcs = cue_register-GteIsMid _ (shift_of i) (lm_of i) start

  dpct : GteIsMid (gte_dpct gte i)
  unfolding gte_dpct
  dpct = cue_register-GteIsMid _ (shift_of i) (lm_of i) (
      cue_register-GteIsMid _ (shift_of i) (lm_of i)
        (cue_register-GteIsMid _ (shift_of i) (lm_of i) start))

  dcpl : GteIsMid (gte_dcpl gte i)
  unfolding gte_dcpl
  dcpl = push_rgb_from_mac-GteIsMid (gte_depth_cue_color_step-GteIsMid (shift_of i) (lm_of i) start)

  intpl : GteIsMid (gte_intpl gte i)
  unfolding gte_intpl
  intpl =
      push_rgb_from_mac-GteIsMid (gte_depth_cue_step-GteIsMid _ _ _ (shift_of i) (lm_of i) start)

  gpf : GteIsMid (gte_gpf gte i)
  unfolding gte_gpf
  gpf = push_rgb_from_mac-GteIsMid (set_macs_and_irs-GteIsMid _ _ _ (shift_of i) (lm_of i) start)

  gpl : GteIsMid (gte_gpl gte i)
  unfolding gte_gpl
  gpl = push_rgb_from_mac-GteIsMid (set_macs_and_irs-GteIsMid _ _ _ (shift_of i) (lm_of i) start)

run_command-RunsWell : {gte : Gte} (i : ℕ) → GteIsMid gte → RunsWell (run_command gte i)
unfolding run_command
run_command-RunsWell i w =
    let o = i % 2 ^ 6 in
    if-RunsWell (o == 0x01) (runs (omega arith) (omega arith) (rtps w i)) (
      if-RunsWell (o == 0x06) (runs (omega arith) (omega arith) (nclip w i)) (
        if-RunsWell (o == 0x0C) (runs (omega arith) (omega arith) (outer w i)) (
          if-RunsWell (o == 0x10) (runs (omega arith) (omega arith) (dpcs w i)) (
            if-RunsWell (o == 0x11) (runs (omega arith) (omega arith) (intpl w i)) (
              if-RunsWell (o == 0x12) (runs (omega arith) (omega arith) (mvmva w i)) (
                if-RunsWell (o == 0x13) (runs (omega arith) (omega arith) (ncds w i)) (
                  if-RunsWell (o == 0x14) (runs (omega arith) (omega arith) (cdp w i)) (
                    if-RunsWell (o == 0x16) (runs (omega arith) (omega arith) (ncdt w i)) (
                      if-RunsWell (o == 0x1B) (runs (omega arith) (omega arith) (nccs w i)) (
                        if-RunsWell (o == 0x1C) (runs (omega arith) (omega arith) (cc w i)) (
                          if-RunsWell (o == 0x1E) (runs (omega arith) (omega arith) (ncs w i)) (
                            if-RunsWell (o == 0x3F) (runs (omega arith) (omega arith) (ncct w i)) (
                              if-RunsWell (o == 0x20) (runs (omega arith) (omega arith) (nct w i)) (
                                if-RunsWell (o == 0x28) (runs (omega arith) (omega arith) (sqr w i))
                                  (if-RunsWell (o == 0x29)
                                    (runs (omega arith) (omega arith) (dcpl w i))
                                    (if-RunsWell (o == 0x2A)
                                      (runs (omega arith) (omega arith) (dpct w i))
                                      (if-RunsWell (o == 0x2D)
                                        (runs (omega arith) (omega arith) (avsz3 w i))
                                        (if-RunsWell (o == 0x2E)
                                          (runs (omega arith) (omega arith) (avsz4 w i))
                                          (if-RunsWell (o == 0x30)
                                            (runs (omega arith) (omega arith) (rtpt w i))
                                            (if-RunsWell (o == 0x3D)
                                              (runs (omega arith) (omega arith) (gpf w i))
                                              (if-RunsWell (o == 0x3E)
                                                (runs (omega arith) (omega arith) (gpl w i))
                                                (runs (omega arith) (omega arith)
                                                  w))))))))))))))))))))))

update_error_flag-GteIsWf : {gte : Gte} → GteIsMid gte → GteIsWf (gte_update_error_flag gte)
unfolding gte_update_error_flag
update_error_flag-GteIsWf w =
    let f = summary-FlagIsWf w.flag in
    record {
      data_words = w.data_words;
      control_words = (with_flag-GteIsMid _ (FlagIsWf-FlagIsMid f) w).control_words;
      flag = f;
    }

-- An instruction keeps every register a word and leaves FLAG with bits 11 to 0 clear and its error
-- bit the disjunction of the bits it sums up.
pub gte_execute_instruction-GteIsWf :
    (gte : Gte) (i : ℕ) → GteIsWf gte → GteIsWf (gte_execute_instruction gte i).1
unfolding gte_execute_instruction
gte_execute_instruction-GteIsWf gte i w =
    update_error_flag-GteIsWf (run_command-RunsWell i (GteIsWf-GteIsMid w)).registers

-- An instruction takes 1 to 44 cycles, whatever the registers hold.
pub gte_execute_instruction-le :
    (gte : Gte) (i : ℕ)
    → 1 ≤ (gte_execute_instruction gte i).0 × (gte_execute_instruction gte i).0 ≤ 44
unfolding gte_execute_instruction run_command
gte_execute_instruction-le gte i = ground arith
