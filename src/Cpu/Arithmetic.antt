-- ===== src/Cpu/Arithmetic.antt =====
-- What the arithmetic instructions compute, against the integers that the words stand for.
use zonistation_one.Base.{
  if◌then◌else◌, add32, sub32, ℕ, ◌+◌, ◌-◌, ◌*◌, ◌^◌, ◌<◌, ◌≡◌, refl, ◌≢◌, Bool, true, false, ◌&&◌,
  none, some, arith,
}
use zonistation_one.Base.Int.{◌+ℤ◌, ◌-ℤ◌, signed32, pos, negsuc, ℤ, leb_ℤ}
use zonistation_one.Cpu.Alu.{
  checked, add_overflow, sub_overflow, set_or_overflow, op_addiu, op_addi, op_add, op_sub, op_addu,
  op_subu,
}
use zonistation_one.Cpu.Exceptions.{ExceptionCause, cpu_exception}
use zonistation_one.Cpu.Fields.{instr_s, instr_t, instr_imm_se}
use zonistation_one.Cpu.MulDiv.{start_muldiv, op_divu}
use zonistation_one.Cpu.Regs.{cpu_reg, cpu_set_reg}
use zonistation_one.Cpu.Wf.Alu.{reg-IsWord}
use zonistation_one.Cpu.Wf.Core.{IsWf}
use zonistation_one.Machine.{Cpu}

-- The numbers of an `int32_t`.
abbrev pub fits : ℤ → Bool
fits x = leb_ℤ (negsuc (2 ^ 31 - 1)) x && leb_ℤ x (pos (2 ^ 31 - 1))

add_overflow_lem :
    (a b : ℕ)
    → a < 2 ^ 32
    → b < 2 ^ 32
    → add_overflow a b ≡ (if fits (signed32 a +ℤ signed32 b) then some (add32 a b) else none)
unfolding add_overflow checked ◌+ℤ◌
add_overflow_lem a b ha hb = ground arith

sub_overflow_lem :
    (a b : ℕ)
    → a < 2 ^ 32
    → b < 2 ^ 32
    → sub_overflow a b ≡ (if fits (signed32 a -ℤ signed32 b) then some (sub32 a b) else none)
unfolding sub_overflow checked ◌-ℤ◌
sub_overflow_lem a b ha hb = ground arith

imm_se_word : (i : ℕ) → instr_imm_se i < 2 ^ 32
imm_se_word i = ground arith

module _ {D G : Type 0} where
  -- DIVU by a divisor other than 0 leaves the quotient in LO and a remainder below the divisor in
  -- HI, which give the dividend back.
  op_divu_lem :
      (cpu : Cpu D G) (i : ℕ)
      → cpu_reg cpu (instr_t i) ≢ 0
      → ((op_divu cpu i).lo * cpu_reg cpu (instr_t i) + (op_divu cpu i).hi
          ≡ cpu_reg cpu (instr_s i))
        × ((op_divu cpu i).hi < cpu_reg cpu (instr_t i))
  unfolding op_divu start_muldiv cpu_reg
  op_divu_lem cpu i ne = grind arith

  set_or_overflow_lem :
      (cpu : Cpu D G) (rd v : ℕ) (b : Bool)
      → set_or_overflow cpu rd (if b then some v else none)
        ≡ (if b then cpu_set_reg cpu rd v else cpu_exception cpu ExceptionCause.overflow)
  unfolding set_or_overflow
  set_or_overflow_lem cpu rd v true = refl
  set_or_overflow_lem cpu rd v false = refl

  -- ADD, ADDI and SUB do what ADDU, ADDIU and SUBU do when the true signed result is an
  -- `int32_t`, and otherwise raise the overflow exception and write no register.
  pub op_add_lem :
      (cpu : Cpu D G) (i : ℕ)
      → IsWf cpu
      → (op_add cpu i ≡ (
          if fits (signed32 (cpu_reg cpu (instr_s i)) +ℤ signed32 (cpu_reg cpu (instr_t i)))
          then op_addu cpu i
          else cpu_exception cpu ExceptionCause.overflow))
        × (op_addi cpu i ≡ (
            if fits (signed32 (cpu_reg cpu (instr_s i)) +ℤ signed32 (instr_imm_se i))
            then op_addiu cpu i
            else cpu_exception cpu ExceptionCause.overflow))
        × (op_sub cpu i ≡ (
            if fits (signed32 (cpu_reg cpu (instr_s i)) -ℤ signed32 (cpu_reg cpu (instr_t i)))
            then op_subu cpu i
            else cpu_exception cpu ExceptionCause.overflow))
  unfolding op_add op_addu op_addi op_addiu op_sub op_subu
  op_add_lem cpu i w =
      let s = reg-IsWord (instr_s i) w in
      let t = reg-IsWord (instr_t i) w in
      (
        rw (add_overflow_lem _ _ s t) (set_or_overflow_lem cpu _ _ _),
        rw (add_overflow_lem _ (instr_imm_se i) s (imm_se_word i)) (set_or_overflow_lem cpu _ _ _),
        rw (sub_overflow_lem _ _ s t) (set_or_overflow_lem cpu _ _ _),
      )
