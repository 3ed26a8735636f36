-- ===== src/Cpu/Cop0.antt =====
-- cpu_instructions.c: the system control coprocessor, and the instructions that only raise an
-- exception.
use zonistation_one.Base.{
  ◌==◌, if◌then◌else◌, not32, ℕ, ◌+◌, ◌-◌, ◌*◌, ◌/◌, ◌%◌, bit_and, bit_or, ◌||◌,
}
use zonistation_one.Cpu.Exceptions.{
  cpu_exception, illegal_instruction, syscall, break_point, coprocessor_error,
}
use zonistation_one.Cpu.Fields.{instr_s, instr_t, instr_d, instr_subfunction}
use zonistation_one.Cpu.Regs.{cpu_reg, schedule_load}
use zonistation_one.Machine.{Cpu}

abbrev pub sr_write_mask : ℕ
sr_write_mask = 0xF27F_FFFF

-- Bits 3:0 take bits 5:2 of the mode stack, bits 5:4 stay.
unfoldable pub popped_sr : ℕ → ℕ
popped_sr sr = sr / 64 * 64 + (sr % 64 / 16 * 16 + sr % 64 / 4)

-- `(cause & ~0x300) | (value & 0x300)`
unfoldable pub written_cause : ℕ → ℕ → ℕ
written_cause cause value = cause - cause / 256 % 4 * 256 + value / 256 % 4 * 256

unfoldable pub written_sr : ℕ → ℕ → ℕ
written_sr sr value = bit_or (bit_and sr (not32 sr_write_mask)) (bit_and value sr_write_mask)

module _ {D G : Type 0} where
  unfoldable pub op_illegal : Cpu D G → ℕ → Cpu D G
  op_illegal cpu i = cpu_exception cpu illegal_instruction

  unfoldable pub op_syscall : Cpu D G → ℕ → Cpu D G
  op_syscall cpu i = cpu_exception cpu syscall

  unfoldable pub op_break : Cpu D G → ℕ → Cpu D G
  op_break cpu i = cpu_exception cpu break_point

  -- COP1, COP3, LWC0, LWC1, LWC3, SWC0, SWC1 and SWC3 have this one body.
  unfoldable pub op_coprocessor_unusable : Cpu D G → ℕ → Cpu D G
  op_coprocessor_unusable cpu i = cpu_exception cpu coprocessor_error

  unfoldable pub op_rfe : Cpu D G → ℕ → Cpu D G
  op_rfe cpu i = record cpu { sr = popped_sr cpu.sr }

  unfoldable pub op_mtc0 : Cpu D G → ℕ → Cpu D G
  op_mtc0 cpu i =
      let value = cpu_reg cpu (instr_t i) in
      let cop_r = instr_d i in
      if cop_r == 3
      then record cpu { cop0_bpc = value }
      else if cop_r == 5
      then record cpu { cop0_bda = value }
      else if cop_r == 9
      then record cpu { cop0_bdam = value }
      else if cop_r == 11
      then record cpu { cop0_bpcm = value }
      else if cop_r == 6
      then record cpu { cop0_tar = value }
      else if cop_r == 7
      then record cpu { cop0_dcic = value }
      else if cop_r == 12
      then record cpu { sr = written_sr cpu.sr value }
      else if cop_r == 13
      then record cpu { cause = written_cause cpu.cause value }
      else if cop_r == 8 || cop_r == 14
      then cpu
      else cpu_exception cpu illegal_instruction

  unfoldable pub op_mfc0 : Cpu D G → ℕ → Cpu D G
  op_mfc0 cpu i =
      let cop_r = instr_d i in
      let rt = instr_t i in
      if cop_r == 3
      then schedule_load cpu rt cpu.cop0_bpc
      else if cop_r == 5
      then schedule_load cpu rt cpu.cop0_bda
      else if cop_r == 6
      then schedule_load cpu rt cpu.cop0_tar
      else if cop_r == 7
      then schedule_load cpu rt cpu.cop0_dcic
      else if cop_r == 8
      then schedule_load cpu rt cpu.badvaddr
      else if cop_r == 9
      then schedule_load cpu rt cpu.cop0_bdam
      else if cop_r == 11
      then schedule_load cpu rt cpu.cop0_bpcm
      else if cop_r == 12
      then schedule_load cpu rt cpu.sr
      else if cop_r == 13
      then schedule_load cpu rt cpu.cause
      else if cop_r == 14
      then schedule_load cpu rt cpu.epc
      else if cop_r == 15
      then schedule_load cpu rt cpu.prid
      else cpu_exception cpu illegal_instruction

  unfoldable pub op_cop0_co : Cpu D G → ℕ → Cpu D G
  op_cop0_co cpu i = if instr_subfunction i == 0x10 then op_rfe cpu i else op_illegal cpu i

  unfoldable pub op_cop0 : Cpu D G → ℕ → Cpu D G
  op_cop0 cpu i =
      let rs = instr_s i in
      if rs == 0
      then op_mfc0 cpu i
      else if rs == 4
      then op_mtc0 cpu i
      else if rs == 0x10
      then op_cop0_co cpu i
      else cpu_exception cpu illegal_instruction
