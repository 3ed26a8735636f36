-- ===== src/Cpu/Wf/Decode.antt =====
-- The tables of cpu_decode.c.
use zonistation_one.Base.{◌==◌, Bool-cases, ℕ, inl, inr, List, [], ◌∷◌}
use zonistation_one.Cpu.Decode.{
  Handler, dispatch, special_table, op_special, primary_table, decode_and_execute,
}
use zonistation_one.Cpu.Fields.{instr_function, instr_subfunction}
use zonistation_one.Cpu.Wf.Alu.{
  op_lui-IsWf, op_ori-IsWf, op_or-IsWf, op_xori-IsWf, op_xor-IsWf, op_andi-IsWf, op_and-IsWf,
  op_nor-IsWf, op_addiu-IsWf, op_addu-IsWf, op_subu-IsWf, op_slti-IsWf, op_sltiu-IsWf, op_slt-IsWf,
  op_sltu-IsWf, op_srl-IsWf, op_srlv-IsWf, op_sra-IsWf, op_srav-IsWf, op_sllv-IsWf, op_sll-IsWf,
  op_addi-IsWf, op_add-IsWf, op_sub-IsWf,
}
use zonistation_one.Cpu.Wf.Branch.{
  op_j-IsWf, op_jal-IsWf, op_jr-IsWf, op_jalr-IsWf, op_beq-IsWf, op_bne-IsWf, op_bgtz-IsWf,
  op_blez-IsWf, op_bxx-IsWf,
}
use zonistation_one.Cpu.Wf.Cop0.{
  op_illegal-IsWf, op_syscall-IsWf, op_break-IsWf, op_coprocessor_unusable-IsWf, op_cop0-IsWf,
}
use zonistation_one.Cpu.Wf.Cop2.{op_cop2-IsWf, op_lwc2-IsWf, op_swc2-IsWf}
use zonistation_one.Cpu.Wf.Core.{Keeps}
use zonistation_one.Cpu.Wf.Devices.{EnvIsWf}
use zonistation_one.Cpu.Wf.LoadStore.{
  op_lw-IsWf, op_lh-IsWf, op_lhu-IsWf, op_lb-IsWf, op_lbu-IsWf, op_lwl-IsWf, op_lwr-IsWf,
  op_sw-IsWf, op_sh-IsWf, op_sb-IsWf, op_swl-IsWf, op_swr-IsWf,
}
use zonistation_one.Cpu.Wf.MulDiv.{
  op_mult-IsWf, op_multu-IsWf, op_div-IsWf, op_divu-IsWf, op_mflo-IsWf, op_mfhi-IsWf, op_mtlo-IsWf,
  op_mthi-IsWf,
}
use zonistation_one.Machine.{Env}

module _ {D G : Type 0} where
  abbrev AllKeep : List (ℕ × Handler D G) → Type 0
  AllKeep [] = Unit
  AllKeep ((c, h) ∷ cases) = Keeps h × AllKeep cases

  dispatch-IsWf :
      (table : List (ℕ × Handler D G)) (code : ℕ) → AllKeep table → Keeps (dispatch table code)
  unfolding dispatch
  dispatch-IsWf [] code k = op_illegal-IsWf
  dispatch-IsWf ((c, h) ∷ cases) code k = elim (Bool-cases (code == c)) [
    | inl e ↦ rw e k.0
    | inr e ↦ rw e (dispatch-IsWf cases code k.1)
  ]

special_table-keeps : (D G : Type 0) → AllKeep (special_table {D = D} {G = G})
unfolding special_table
special_table-keeps D G = (
  op_sll-IsWf,
  (
    op_srl-IsWf,
    (
      op_sra-IsWf,
      (
        op_sllv-IsWf,
        (
          op_srlv-IsWf,
          (
            op_srav-IsWf,
            (
              op_jr-IsWf,
              (
                op_jalr-IsWf,
                (
                  op_syscall-IsWf,
                  (
                    op_break-IsWf,
                    (
                      op_mfhi-IsWf,
                      (
                        op_mthi-IsWf,
                        (
                          op_mflo-IsWf,
                          (
                            op_mtlo-IsWf,
                            (
                              op_mult-IsWf,
                              (
                                op_multu-IsWf,
                                (
                                  op_div-IsWf,
                                  (
                                    op_divu-IsWf,
                                    (
                                      op_add-IsWf,
                                      (
                                        op_addu-IsWf,
                                        (
                                          op_sub-IsWf,
                                          (
                                            op_subu-IsWf,
                                            (
                                              op_and-IsWf,
                                              (
                                                op_or-IsWf,
                                                (
                                                  op_xor-IsWf,
                                                  (op_nor-IsWf, (op_slt-IsWf, (op_sltu-IsWf, tt))),
                                                ),
                                              ),
                                            ),
                                          ),
                                        ),
                                      ),
                                    ),
                                  ),
                                ),
                              ),
                            ),
                          ),
                        ),
                      ),
                    ),
                  ),
                ),
              ),
            ),
          ),
        ),
      ),
    ),
  ),
)

module _ {D G : Type 0} where
  op_special-IsWf : Keeps {D = D} {G = G} op_special
  unfolding op_special
  op_special-IsWf cpu i =
      dispatch-IsWf special_table (instr_subfunction i) (special_table-keeps D G) cpu i

module _ {D G : Type 0} {env : Env D G} (ok : EnvIsWf env) where
  primary_table-keeps : AllKeep (primary_table env)
  unfolding primary_table
  primary_table-keeps = (
    op_special-IsWf,
    (
      op_bxx-IsWf,
      (
        op_j-IsWf,
        (
          op_jal-IsWf,
          (
            op_beq-IsWf,
            (
              op_bne-IsWf,
              (
                op_blez-IsWf,
                (
                  op_bgtz-IsWf,
                  (
                    op_addi-IsWf,
                    (
                      op_addiu-IsWf,
                      (
                        op_slti-IsWf,
                        (
                          op_sltiu-IsWf,
                          (
                            op_andi-IsWf,
                            (
                              op_ori-IsWf,
                              (
                                op_xori-IsWf,
                                (
                                  op_lui-IsWf,
                                  (
                                    op_cop0-IsWf,
                                    (
                                      op_coprocessor_unusable-IsWf,
                                      (
                                        op_cop2-IsWf ok,
                                        (
                                          op_coprocessor_unusable-IsWf,
                                          (
                                            op_lb-IsWf ok,
                                            (
                                              op_lh-IsWf ok,
                                              (
                                                op_lwl-IsWf ok,
                                                (
                                                  op_lw-IsWf ok,
                                                  (
                                                    op_lbu-IsWf ok,
                                                    (
                                                      op_lhu-IsWf ok,
                                                      (
                                                        op_lwr-IsWf ok,
                                                        (
                                                          op_sb-IsWf ok,
                                                          (
                                                            op_sh-IsWf ok,
                                                            (
                                                            op_swl-IsWf ok,
                                                            (
                                                            op_sw-IsWf ok,
                                                            (
                                                            op_swr-IsWf ok,
                                                            (
                                                            op_coprocessor_unusable-IsWf,
                                                            (
                                                            op_coprocessor_unusable-IsWf,
                                                            (
                                                            op_lwc2-IsWf ok,
                                                            (
                                                            op_coprocessor_unusable-IsWf,
                                                            (
                                                            op_coprocessor_unusable-IsWf,
                                                            (
                                                            op_coprocessor_unusable-IsWf,
                                                            (
                                                            op_swc2-IsWf ok,
                                                            (op_coprocessor_unusable-IsWf, tt),
                                                            ),
                                                            ),
                                                            ),
                                                            ),
                                                            ),
                                                            ),
                                                            ),
                                                            ),
                                                            ),
                                                            ),
                                                          ),
                                                        ),
                                                      ),
                                                    ),
                                                  ),
                                                ),
                                              ),
                                            ),
                                          ),
                                        ),
                                      ),
                                    ),
                                  ),
                                ),
                              ),
                            ),
                          ),
                        ),
                      ),
                    ),
                  ),
                ),
              ),
            ),
          ),
        ),
      ),
    ),
  )

  -- No instruction word, decoded and executed on a well formed CPU, leaves it ill formed.
  pub decode_and_execute-IsWf : Keeps (decode_and_execute env)
  unfolding decode_and_execute
  decode_and_execute-IsWf cpu i =
      dispatch-IsWf (primary_table env) (instr_function i) primary_table-keeps cpu i
