-- ===== src/Cpu/Decode.antt =====
-- cpu_decode.c: the two dispatch switches, as tables from a code to its handler.
use zonistation_one.Base.{◌==◌, if◌then◌else◌, ℕ, List, [], ◌∷◌}
use zonistation_one.Cpu.Alu.{
  op_lui, op_ori, op_andi, op_xori, op_addiu, op_addi, op_slti, op_sltiu, op_add, op_sub, op_addu,
  op_subu, op_and, op_or, op_xor, op_nor, op_slt, op_sltu, op_sll, op_srl, op_sra, op_sllv, op_srlv,
  op_srav,
}
use zonistation_one.Cpu.Branch.{
  op_j, op_jal, op_jr, op_jalr, op_beq, op_bne, op_blez, op_bgtz, op_bxx,
}
use zonistation_one.Cpu.Cop0.{op_cop0, op_illegal, op_syscall, op_break, op_coprocessor_unusable}
use zonistation_one.Cpu.Cop2.{op_cop2, op_lwc2, op_swc2}
use zonistation_one.Cpu.Fields.{instr_function, instr_subfunction}
use zonistation_one.Cpu.LoadStore.{
  op_lb, op_lh, op_lwl, op_lw, op_lbu, op_lhu, op_lwr, op_sb, op_sh, op_swl, op_sw, op_swr,
}
use zonistation_one.Cpu.MulDiv.{
  op_mult, op_multu, op_div, op_divu, op_mfhi, op_mthi, op_mflo, op_mtlo,
}
use zonistation_one.Machine.{Cpu, Env}

abbrev pub Handler : Type 0 → Type 0 → Type 0
Handler D G = Cpu D G → ℕ → Cpu D G

module _ {D G : Type 0} where
  -- The `case` of a code; `default` is `op_illegal`.
  unfoldable pub dispatch : List (ℕ × Handler D G) → ℕ → Handler D G
  dispatch [] code = op_illegal
  dispatch ((c, h) ∷ cases) code = if code == c then h else dispatch cases code

  unfoldable pub special_table : List (ℕ × Handler D G)
  special_table =
      (0x00, op_sll)
      ∷ (0x02, op_srl)
      ∷ (0x03, op_sra)
      ∷ (0x04, op_sllv)
      ∷ (0x06, op_srlv)
      ∷ (0x07, op_srav)
      ∷ (0x08, op_jr)
      ∷ (0x09, op_jalr)
      ∷ (0x0C, op_syscall)
      ∷ (0x0D, op_break)
      ∷ (0x10, op_mfhi)
      ∷ (0x11, op_mthi)
      ∷ (0x12, op_mflo)
      ∷ (0x13, op_mtlo)
      ∷ (0x18, op_mult)
      ∷ (0x19, op_multu)
      ∷ (0x1A, op_div)
      ∷ (0x1B, op_divu)
      ∷ (0x20, op_add)
      ∷ (0x21, op_addu)
      ∷ (0x22, op_sub)
      ∷ (0x23, op_subu)
      ∷ (0x24, op_and)
      ∷ (0x25, op_or)
      ∷ (0x26, op_xor)
      ∷ (0x27, op_nor)
      ∷ (0x2A, op_slt)
      ∷ (0x2B, op_sltu)
      ∷ []

  unfoldable pub op_special : Handler D G
  op_special cpu i = dispatch special_table (instr_subfunction i) cpu i

module _ {D G : Type 0} (env : Env D G) where
  unfoldable pub primary_table : List (ℕ × Handler D G)
  primary_table =
      (0x00, op_special)
      ∷ (0x01, op_bxx)
      ∷ (0x02, op_j)
      ∷ (0x03, op_jal)
      ∷ (0x04, op_beq)
      ∷ (0x05, op_bne)
      ∷ (0x06, op_blez)
      ∷ (0x07, op_bgtz)
      ∷ (0x08, op_addi)
      ∷ (0x09, op_addiu)
      ∷ (0x0A, op_slti)
      ∷ (0x0B, op_sltiu)
      ∷ (0x0C, op_andi)
      ∷ (0x0D, op_ori)
      ∷ (0x0E, op_xori)
      ∷ (0x0F, op_lui)
      ∷ (0x10, op_cop0)
      ∷ (0x11, op_coprocessor_unusable)
      ∷ (0x12, op_cop2 env)
      ∷ (0x13, op_coprocessor_unusable)
      ∷ (0x20, op_lb env)
      ∷ (0x21, op_lh env)
      ∷ (0x22, op_lwl env)
      ∷ (0x23, op_lw env)
      ∷ (0x24, op_lbu env)
      ∷ (0x25, op_lhu env)
      ∷ (0x26, op_lwr env)
      ∷ (0x28, op_sb env)
      ∷ (0x29, op_sh env)
      ∷ (0x2A, op_swl env)
      ∷ (0x2B, op_sw env)
      ∷ (0x2E, op_swr env)
      ∷ (0x30, op_coprocessor_unusable)
      ∷ (0x31, op_coprocessor_unusable)
      ∷ (0x32, op_lwc2 env)
      ∷ (0x33, op_coprocessor_unusable)
      ∷ (0x38, op_coprocessor_unusable)
      ∷ (0x39, op_coprocessor_unusable)
      ∷ (0x3A, op_swc2 env)
      ∷ (0x3B, op_coprocessor_unusable)
      ∷ []

  unfoldable pub decode_and_execute : Handler D G
  decode_and_execute cpu i = dispatch primary_table (instr_function i) cpu i
