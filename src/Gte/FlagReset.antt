-- ===== src/Gte/FlagReset.antt =====
-- That a command does not see what the one before left in FLAG, over gte_ops.c and gte.c.
use zonistation_one.Gte.Ctl
use mathlib.Core.Path.{fun_ext}
use zonistation_one.Base.{
  ◌==◌, if◌then◌else◌, ℕ, ◌%◌, ◌^◌, ◌≡◌, refl, ap, Bool, true, false, ◌||◌, arith,
}
use zonistation_one.Base.Map.{update}
use zonistation_one.Gte.Colour.{
  gte_ncs, gte_nct, gte_nccs, gte_ncct, gte_cc, gte_cdp, gte_ncds, gte_ncdt, gte_dpcs, gte_dpct,
  gte_dcpl, gte_intpl, gte_gpf, gte_gpl,
}
use zonistation_one.Gte.Execute.{run_command, gte_execute_instruction}
use zonistation_one.Gte.State.{Gte, set_control, reset_flag, gte_update_error_flag}
use zonistation_one.Gte.Transform.{
  gte_rtps, gte_rtpt, nclip_sum, gte_nclip, gte_mvmva, gte_sqr, gte_op, gte_avsz3, gte_avsz4,
}

-- The codes of the commands.
abbrev pub names_command : ℕ → Bool
names_command o =
    o == 0x01
    || o == 0x06
    || o == 0x0C
    || o == 0x10
    || o == 0x11
    || o == 0x12
    || o == 0x13
    || o == 0x14
    || o == 0x16
    || o == 0x1B
    || o == 0x1C
    || o == 0x1E
    || o == 0x3F
    || o == 0x20
    || o == 0x28
    || o == 0x29
    || o == 0x2A
    || o == 0x2D
    || o == 0x2E
    || o == 0x30
    || o == 0x3D
    || o == 0x3E

same_if :
    {A : Type 0} (b : Bool) {x x' y y' : A}
    → x ≡ x'
    → (b ≡ false → y ≡ y')
    → (if b then x else y) ≡ (if b then x' else y')
same_if true p q = p
same_if false p q = q refl

update_twice : (c : ℕ → ℕ) (k f v r : ℕ) → update (update c k f) k v r ≡ update c k v r
update_twice c k f v r = ground arith

-- Clearing FLAG forgets it.
reset_flag-set_control :
    (gte : Gte) (f : ℕ) → reset_flag (set_control gte Ctl.flag f) ≡ reset_flag gte
unfolding reset_flag
reset_flag-set_control gte f =
    ap (λ (c : ℕ → ℕ). record gte { control = c })
      (fun_ext (λ r. update_twice gte.control Ctl.flag f 0 r))

-- Each command as a function of what clearing FLAG gives it.

rtps_forgets : (gte : Gte) (f i : ℕ) → gte_rtps (set_control gte Ctl.flag f) i ≡ gte_rtps gte i
unfolding gte_rtps
rtps_forgets gte f i = rw (reset_flag-set_control gte f) refl

nclip_forgets : (gte : Gte) (f i : ℕ) → gte_nclip (set_control gte Ctl.flag f) ≡ gte_nclip gte
unfolding gte_nclip nclip_sum
nclip_forgets gte f i = rw (reset_flag-set_control gte f) refl

op_forgets : (gte : Gte) (f i : ℕ) → gte_op (set_control gte Ctl.flag f) i ≡ gte_op gte i
unfolding gte_op
op_forgets gte f i = rw (reset_flag-set_control gte f) refl

dpcs_forgets : (gte : Gte) (f i : ℕ) → gte_dpcs (set_control gte Ctl.flag f) i ≡ gte_dpcs gte i
unfolding gte_dpcs
dpcs_forgets gte f i = rw (reset_flag-set_control gte f) refl

intpl_forgets : (gte : Gte) (f i : ℕ) → gte_intpl (set_control gte Ctl.flag f) i ≡ gte_intpl gte i
unfolding gte_intpl
intpl_forgets gte f i = rw (reset_flag-set_control gte f) refl

mvmva_forgets : (gte : Gte) (f i : ℕ) → gte_mvmva (set_control gte Ctl.flag f) i ≡ gte_mvmva gte i
unfolding gte_mvmva
mvmva_forgets gte f i = rw (reset_flag-set_control gte f) refl

ncds_forgets : (gte : Gte) (f i : ℕ) → gte_ncds (set_control gte Ctl.flag f) i ≡ gte_ncds gte i
unfolding gte_ncds
ncds_forgets gte f i = rw (reset_flag-set_control gte f) refl

cdp_forgets : (gte : Gte) (f i : ℕ) → gte_cdp (set_control gte Ctl.flag f) i ≡ gte_cdp gte i
unfolding gte_cdp
cdp_forgets gte f i = rw (reset_flag-set_control gte f) refl

ncdt_forgets : (gte : Gte) (f i : ℕ) → gte_ncdt (set_control gte Ctl.flag f) i ≡ gte_ncdt gte i
unfolding gte_ncdt
ncdt_forgets gte f i = rw (reset_flag-set_control gte f) refl

nccs_forgets : (gte : Gte) (f i : ℕ) → gte_nccs (set_control gte Ctl.flag f) i ≡ gte_nccs gte i
unfolding gte_nccs
nccs_forgets gte f i = rw (reset_flag-set_control gte f) refl

cc_forgets : (gte : Gte) (f i : ℕ) → gte_cc (set_control gte Ctl.flag f) i ≡ gte_cc gte i
unfolding gte_cc
cc_forgets gte f i = rw (reset_flag-set_control gte f) refl

ncs_forgets : (gte : Gte) (f i : ℕ) → gte_ncs (set_control gte Ctl.flag f) i ≡ gte_ncs gte i
unfolding gte_ncs
ncs_forgets gte f i = rw (reset_flag-set_control gte f) refl

ncct_forgets : (gte : Gte) (f i : ℕ) → gte_ncct (set_control gte Ctl.flag f) i ≡ gte_ncct gte i
unfolding gte_ncct
ncct_forgets gte f i = rw (reset_flag-set_control gte f) refl

nct_forgets : (gte : Gte) (f i : ℕ) → gte_nct (set_control gte Ctl.flag f) i ≡ gte_nct gte i
unfolding gte_nct
nct_forgets gte f i = rw (reset_flag-set_control gte f) refl

sqr_forgets : (gte : Gte) (f i : ℕ) → gte_sqr (set_control gte Ctl.flag f) i ≡ gte_sqr gte i
unfolding gte_sqr
sqr_forgets gte f i = rw (reset_flag-set_control gte f) refl

dcpl_forgets : (gte : Gte) (f i : ℕ) → gte_dcpl (set_control gte Ctl.flag f) i ≡ gte_dcpl gte i
unfolding gte_dcpl
dcpl_forgets gte f i = rw (reset_flag-set_control gte f) refl

dpct_forgets : (gte : Gte) (f i : ℕ) → gte_dpct (set_control gte Ctl.flag f) i ≡ gte_dpct gte i
unfolding gte_dpct
dpct_forgets gte f i = rw (reset_flag-set_control gte f) refl

avsz3_forgets : (gte : Gte) (f i : ℕ) → gte_avsz3 (set_control gte Ctl.flag f) ≡ gte_avsz3 gte
unfolding gte_avsz3
avsz3_forgets gte f i = rw (reset_flag-set_control gte f) refl

avsz4_forgets : (gte : Gte) (f i : ℕ) → gte_avsz4 (set_control gte Ctl.flag f) ≡ gte_avsz4 gte
unfolding gte_avsz4
avsz4_forgets gte f i = rw (reset_flag-set_control gte f) refl

rtpt_forgets : (gte : Gte) (f i : ℕ) → gte_rtpt (set_control gte Ctl.flag f) i ≡ gte_rtpt gte i
unfolding gte_rtpt
rtpt_forgets gte f i = rw (reset_flag-set_control gte f) refl

gpf_forgets : (gte : Gte) (f i : ℕ) → gte_gpf (set_control gte Ctl.flag f) i ≡ gte_gpf gte i
unfolding gte_gpf
gpf_forgets gte f i = rw (reset_flag-set_control gte f) refl

gpl_forgets : (gte : Gte) (f i : ℕ) → gte_gpl (set_control gte Ctl.flag f) i ≡ gte_gpl gte i
unfolding gte_gpl
gpl_forgets gte f i = rw (reset_flag-set_control gte f) refl

-- A code that is none of them.
no_command :
    (o : ℕ)
    → names_command o ≡ true
    → (o == 0x01) ≡ false
    → (o == 0x06) ≡ false
    → (o == 0x0C) ≡ false
    → (o == 0x10) ≡ false
    → (o == 0x11) ≡ false
    → (o == 0x12) ≡ false
    → (o == 0x13) ≡ false
    → (o == 0x14) ≡ false
    → (o == 0x16) ≡ false
    → (o == 0x1B) ≡ false
    → (o == 0x1C) ≡ false
    → (o == 0x1E) ≡ false
    → (o == 0x3F) ≡ false
    → (o == 0x20) ≡ false
    → (o == 0x28) ≡ false
    → (o == 0x29) ≡ false
    → (o == 0x2A) ≡ false
    → (o == 0x2D) ≡ false
    → (o == 0x2E) ≡ false
    → (o == 0x30) ≡ false
    → (o == 0x3D) ≡ false
    → (o == 0x3E) ≡ false
    → ⊥
no_command o h e0 e1 e2 e3 e4 e5 e6 e7 e8 e9 e10 e11 e12 e13 e14 e15 e16 e17 e18 e19 e20 e21 =
    ground arith

run_command-set_control :
    (gte : Gte) (f i : ℕ)
    → names_command (i % 2 ^ 6) ≡ true
    → run_command (set_control gte Ctl.flag f) i ≡ run_command gte i
unfolding run_command
run_command-set_control gte f i h =
    let o = i % 2 ^ 6 in
    same_if (o == 0x01) (ap (λ (g : Gte). (15, g)) (rtps_forgets gte f i)) (λ e0.
      same_if (o == 0x06) (ap (λ (g : Gte). (8, g)) (nclip_forgets gte f i)) (λ e1.
        same_if (o == 0x0C) (ap (λ (g : Gte). (6, g)) (op_forgets gte f i)) (λ e2.
          same_if (o == 0x10) (ap (λ (g : Gte). (8, g)) (dpcs_forgets gte f i)) (λ e3.
            same_if (o == 0x11) (ap (λ (g : Gte). (8, g)) (intpl_forgets gte f i)) (λ e4.
              same_if (o == 0x12) (ap (λ (g : Gte). (8, g)) (mvmva_forgets gte f i)) (λ e5.
                same_if (o == 0x13) (ap (λ (g : Gte). (19, g)) (ncds_forgets gte f i)) (λ e6.
                  same_if (o == 0x14) (ap (λ (g : Gte). (13, g)) (cdp_forgets gte f i)) (λ e7.
                    same_if (o == 0x16) (ap (λ (g : Gte). (44, g)) (ncdt_forgets gte f i)) (λ e8.
                      same_if (o == 0x1B) (ap (λ (g : Gte). (17, g)) (nccs_forgets gte f i)) (λ e9.
                        same_if (o == 0x1C) (ap (λ (g : Gte). (11, g)) (cc_forgets gte f i)) (λ e10.
                          same_if (o == 0x1E) (ap (λ (g : Gte). (14, g)) (ncs_forgets gte f i))
                            (λ e11.
                              same_if (o == 0x3F) (ap (λ (g : Gte). (39, g)) (ncct_forgets gte f i))
                                (λ e12.
                                  same_if (o == 0x20)
                                    (ap (λ (g : Gte). (30, g)) (nct_forgets gte f i))
                                    (λ e13.
                                      same_if (o == 0x28)
                                        (ap (λ (g : Gte). (5, g)) (sqr_forgets gte f i))
                                        (λ e14.
                                          same_if (o == 0x29)
                                            (ap (λ (g : Gte). (8, g)) (dcpl_forgets gte f i))
                                            (λ e15.
                                              same_if (o == 0x2A)
                                                (ap (λ (g : Gte). (17, g)) (dpct_forgets gte f i))
                                                (λ e16.
                                                  same_if (o == 0x2D)
                                                    (ap (λ (g : Gte). (5, g))
                                                      (avsz3_forgets gte f i))
                                                    (λ e17.
                                                      same_if (o == 0x2E)
                                                        (ap (λ (g : Gte). (6, g))
                                                          (avsz4_forgets gte f i))
                                                        (λ e18.
                                                          same_if (o == 0x30)
                                                            (ap (λ (g : Gte). (23, g))
                                                            (rtpt_forgets gte f i))
                                                            (λ e19.
                                                            same_if (o == 0x3D)
                                                            (ap (λ (g : Gte). (5, g))
                                                            (gpf_forgets gte f i))
                                                            (λ e20.
                                                            same_if (o == 0x3E)
                                                            (ap (λ (g : Gte). (5, g))
                                                            (gpl_forgets gte f i))
                                                            (λ e21. absurd (
                                                            no_command o h e0 e1 e2 e3 e4 e5 e6 e7
                                                            e8 e9 e10 e11 e12 e13 e14 e15 e16 e17
                                                            e18 e19 e20 e21)))))))))))))))))))))))

-- An instruction that names a command gives the same registers whatever FLAG held before it.
pub gte_execute_instruction-set_control :
    (gte : Gte) (f i : ℕ)
    → names_command (i % 2 ^ 6) ≡ true
    → gte_execute_instruction (set_control gte Ctl.flag f) i ≡ gte_execute_instruction gte i
unfolding gte_execute_instruction
gte_execute_instruction-set_control gte f i h =
    ap (λ (r : ℕ × Gte). (r.0, gte_update_error_flag r.1)) (run_command-set_control gte f i h)
