-- ===== src/Cpu/Branch.antt =====
-- cpu_instructions.c: jumps and branches.
use zonistation_one.Base.{
  ◌==◌, ◌!=◌, if◌then◌else◌, add32, bit, lt_signed, ℕ, ◌+◌, ◌*◌, ◌/◌, Bool, true, not,
}
use zonistation_one.Cpu.Fields.{instr_s, instr_t, instr_d, instr_imm_se, instr_imm_jump}
use zonistation_one.Cpu.Regs.{cpu_reg, cpu_set_reg, cpu_branch}
use zonistation_one.Machine.{Cpu}

abbrev pub reg_ra : ℕ
reg_ra = 31

module _ {D G : Type 0} where
  -- `cpu_branch(cpu, imm_se); cpu->branch_taken = true;` under the branch's condition.
  unfoldable pub branch_if : Cpu D G → Bool → ℕ → Cpu D G
  branch_if cpu taken i =
      if taken
      then (let branched = cpu_branch cpu (instr_imm_se i) in
          record branched { branch_taken = true })
      else cpu

  -- `cpu->next_pc = cpu->cop0_tar = target; cpu->branch_taken = true;`
  unfoldable pub jump_to : Cpu D G → ℕ → Cpu D G
  jump_to cpu target = record cpu { next_pc = target; cop0_tar = target; branch_taken = true }

  unfoldable pub op_j : Cpu D G → ℕ → Cpu D G
  op_j cpu i = jump_to cpu (cpu.pc / 0x1000_0000 * 0x1000_0000 + instr_imm_jump i * 4)

  unfoldable pub op_jal : Cpu D G → ℕ → Cpu D G
  op_jal cpu i =
      let linked = cpu_set_reg cpu reg_ra (add32 cpu.pc 4) in
      jump_to linked (linked.pc / 0x1000_0000 * 0x1000_0000 + instr_imm_jump i * 4)

  unfoldable pub op_jr : Cpu D G → ℕ → Cpu D G
  op_jr cpu i = jump_to cpu (cpu_reg cpu (instr_s i))

  -- The target is read before the link register is written.
  unfoldable pub op_jalr : Cpu D G → ℕ → Cpu D G
  op_jalr cpu i =
      let target = cpu_reg cpu (instr_s i) in
      jump_to (cpu_set_reg cpu (instr_d i) (add32 cpu.pc 4)) target

  unfoldable pub op_beq : Cpu D G → ℕ → Cpu D G
  op_beq cpu i = branch_if cpu (cpu_reg cpu (instr_s i) == cpu_reg cpu (instr_t i)) i

  unfoldable pub op_bne : Cpu D G → ℕ → Cpu D G
  op_bne cpu i = branch_if cpu (cpu_reg cpu (instr_s i) != cpu_reg cpu (instr_t i)) i

  unfoldable pub op_bgtz : Cpu D G → ℕ → Cpu D G
  op_bgtz cpu i = branch_if cpu (lt_signed 0 (cpu_reg cpu (instr_s i))) i

  unfoldable pub op_blez : Cpu D G → ℕ → Cpu D G
  op_blez cpu i = branch_if cpu (not (lt_signed 0 (cpu_reg cpu (instr_s i)))) i

  -- BGEZ, BLTZ and their linking forms: bit 16 selects the test, bit 20 the link, which is
  -- written whether or not the branch is taken.
  unfoldable pub op_bxx : Cpu D G → ℕ → Cpu D G
  op_bxx cpu i =
      let negative = lt_signed (cpu_reg cpu (instr_s i)) 0 in
      let condition_met = if bit i 16 then not negative else negative in
      let linked = if bit i 20 then cpu_set_reg cpu reg_ra (add32 cpu.pc 4) else cpu in
      branch_if linked condition_met i
