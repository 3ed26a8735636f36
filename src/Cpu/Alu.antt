-- ===== src/Cpu/Alu.antt =====
-- cpu_instructions.c: arithmetic, logic, comparison and shift instructions.
use zonistation_one.Base.{
  ltb, ◌==◌, if◌then◌else◌, to_nat, u32, add32, sub32, not32, ◌<<<◌, ◌>>>◌, lt_signed, ℕ, ◌-◌, ◌%◌,
  ◌^◌, bit_and, bit_or, bit_xor, ◌&&◌, Option, none, some,
}
use zonistation_one.Base.Int.{ℤ, pos, negsuc, ◌+ℤ◌, ◌-ℤ◌, leb_ℤ, signed32, to_word, shift_right}
use zonistation_one.Cpu.Exceptions.{cpu_exception, overflow}
use zonistation_one.Cpu.Fields.{instr_s, instr_t, instr_d, instr_imm, instr_imm_se, instr_shift}
use zonistation_one.Cpu.Regs.{cpu_reg, cpu_set_reg}
use zonistation_one.Machine.{Cpu}

-- `__builtin_add_overflow` and `__builtin_sub_overflow` on `int32_t`: `none` is an overflow.
unfoldable pub checked : ℤ → Option ℕ
checked r =
    if leb_ℤ (negsuc (2 ^ 31 - 1)) r && leb_ℤ r (pos (2 ^ 31 - 1))
    then some (to_word 32 r)
    else none

unfoldable pub add_overflow : ℕ → ℕ → Option ℕ
unfolding ◌+ℤ◌
add_overflow a b = checked (signed32 a +ℤ signed32 b)

unfoldable pub sub_overflow : ℕ → ℕ → Option ℕ
unfolding ◌-ℤ◌
sub_overflow a b = checked (signed32 a -ℤ signed32 b)

-- `(uint32_t)((int32_t)x >> k)`.
unfoldable pub sra32 : ℕ → ℕ → ℕ
sra32 x k = to_word 32 (shift_right (signed32 x) k)

module _ {D G : Type 0} where
  -- The tail of ADD, ADDI and SUB: the exception, or the write of the result.
  unfoldable pub set_or_overflow : Cpu D G → ℕ → Option ℕ → Cpu D G
  set_or_overflow cpu rd none = cpu_exception cpu overflow
  set_or_overflow cpu rd (some result) = cpu_set_reg cpu rd result

  unfoldable pub op_lui : Cpu D G → ℕ → Cpu D G
  op_lui cpu i = cpu_set_reg cpu (instr_t i) (u32 (instr_imm i <<< 16))

  unfoldable pub op_ori : Cpu D G → ℕ → Cpu D G
  op_ori cpu i = cpu_set_reg cpu (instr_t i) (bit_or (cpu_reg cpu (instr_s i)) (instr_imm i))

  unfoldable pub op_andi : Cpu D G → ℕ → Cpu D G
  op_andi cpu i = cpu_set_reg cpu (instr_t i) (bit_and (cpu_reg cpu (instr_s i)) (instr_imm i))

  unfoldable pub op_xori : Cpu D G → ℕ → Cpu D G
  op_xori cpu i = cpu_set_reg cpu (instr_t i) (bit_xor (cpu_reg cpu (instr_s i)) (instr_imm i))

  unfoldable pub op_addiu : Cpu D G → ℕ → Cpu D G
  op_addiu cpu i = cpu_set_reg cpu (instr_t i) (add32 (cpu_reg cpu (instr_s i)) (instr_imm_se i))

  unfoldable pub op_addi : Cpu D G → ℕ → Cpu D G
  op_addi cpu i =
      set_or_overflow cpu (instr_t i) (add_overflow (cpu_reg cpu (instr_s i)) (instr_imm_se i))

  unfoldable pub op_slti : Cpu D G → ℕ → Cpu D G
  op_slti cpu i =
      cpu_set_reg cpu (instr_t i) (to_nat (lt_signed (cpu_reg cpu (instr_s i)) (instr_imm_se i)))

  unfoldable pub op_sltiu : Cpu D G → ℕ → Cpu D G
  op_sltiu cpu i =
      cpu_set_reg cpu (instr_t i) (to_nat (ltb (cpu_reg cpu (instr_s i)) (instr_imm_se i)))

  unfoldable pub op_add : Cpu D G → ℕ → Cpu D G
  op_add cpu i =
      set_or_overflow cpu (instr_d i)
        (add_overflow (cpu_reg cpu (instr_s i)) (cpu_reg cpu (instr_t i)))

  unfoldable pub op_sub : Cpu D G → ℕ → Cpu D G
  op_sub cpu i =
      set_or_overflow cpu (instr_d i)
        (sub_overflow (cpu_reg cpu (instr_s i)) (cpu_reg cpu (instr_t i)))

  unfoldable pub op_addu : Cpu D G → ℕ → Cpu D G
  op_addu cpu i =
      cpu_set_reg cpu (instr_d i) (add32 (cpu_reg cpu (instr_s i)) (cpu_reg cpu (instr_t i)))

  unfoldable pub op_subu : Cpu D G → ℕ → Cpu D G
  op_subu cpu i =
      cpu_set_reg cpu (instr_d i) (sub32 (cpu_reg cpu (instr_s i)) (cpu_reg cpu (instr_t i)))

  unfoldable pub op_and : Cpu D G → ℕ → Cpu D G
  op_and cpu i =
      cpu_set_reg cpu (instr_d i) (bit_and (cpu_reg cpu (instr_s i)) (cpu_reg cpu (instr_t i)))

  unfoldable pub op_or : Cpu D G → ℕ → Cpu D G
  op_or cpu i =
      cpu_set_reg cpu (instr_d i) (bit_or (cpu_reg cpu (instr_s i)) (cpu_reg cpu (instr_t i)))

  unfoldable pub op_xor : Cpu D G → ℕ → Cpu D G
  op_xor cpu i =
      cpu_set_reg cpu (instr_d i) (bit_xor (cpu_reg cpu (instr_s i)) (cpu_reg cpu (instr_t i)))

  unfoldable pub op_nor : Cpu D G → ℕ → Cpu D G
  op_nor cpu i =
      cpu_set_reg cpu (instr_d i)
        (not32 (bit_or (cpu_reg cpu (instr_s i)) (cpu_reg cpu (instr_t i))))

  unfoldable pub op_slt : Cpu D G → ℕ → Cpu D G
  op_slt cpu i =
      cpu_set_reg cpu (instr_d i)
        (to_nat (lt_signed (cpu_reg cpu (instr_s i)) (cpu_reg cpu (instr_t i))))

  unfoldable pub op_sltu : Cpu D G → ℕ → Cpu D G
  op_sltu cpu i =
      cpu_set_reg cpu (instr_d i) (to_nat (ltb (cpu_reg cpu (instr_s i)) (cpu_reg cpu (instr_t i))))

  -- The zero word is the usual NOP and returns at once.
  unfoldable pub op_sll : Cpu D G → ℕ → Cpu D G
  op_sll cpu i =
      if i == 0
      then cpu
      else cpu_set_reg cpu (instr_d i) (u32 (cpu_reg cpu (instr_t i) <<< instr_shift i))

  unfoldable pub op_srl : Cpu D G → ℕ → Cpu D G
  op_srl cpu i = cpu_set_reg cpu (instr_d i) (cpu_reg cpu (instr_t i) >>> instr_shift i)

  unfoldable pub op_sra : Cpu D G → ℕ → Cpu D G
  op_sra cpu i = cpu_set_reg cpu (instr_d i) (sra32 (cpu_reg cpu (instr_t i)) (instr_shift i))

  unfoldable pub op_sllv : Cpu D G → ℕ → Cpu D G
  op_sllv cpu i =
      cpu_set_reg cpu (instr_d i) (u32 (cpu_reg cpu (instr_t i) <<< (cpu_reg cpu (instr_s i) % 32)))

  unfoldable pub op_srlv : Cpu D G → ℕ → Cpu D G
  op_srlv cpu i =
      cpu_set_reg cpu (instr_d i) (cpu_reg cpu (instr_t i) >>> (cpu_reg cpu (instr_s i) % 32))

  unfoldable pub op_srav : Cpu D G → ℕ → Cpu D G
  op_srav cpu i =
      cpu_set_reg cpu (instr_d i) (sra32 (cpu_reg cpu (instr_t i)) (cpu_reg cpu (instr_s i) % 32))
