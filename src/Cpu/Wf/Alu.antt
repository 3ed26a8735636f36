-- ===== src/Cpu/Wf/Alu.antt =====
-- The arithmetic, logic and shift instructions of cpu_instructions.c.
use native.Mathlib.Nat.{div-le_self}
use zonistation_one.Base.{
  ◌==◌, to_nat, Bool-cases, ℕ, ◌-◌, ◌/◌, ◌^◌, ◌<◌, inl, inr, Bool, true, false, ◌&&◌, Option, none,
  some, arith,
}
use zonistation_one.Base.Bits.{bit_or-lt, bit_and-lt, bit_xor-lt}
use zonistation_one.Base.Int.{ℤ, to_word, leb_ℤ, pos, negsuc}
use zonistation_one.Cpu.Alu.{
  checked, sra32, set_or_overflow, op_lui, add_overflow, sub_overflow, op_ori, op_andi, op_xori,
  op_addiu, op_addi, op_slti, op_sltiu, op_add, op_sub, op_addu, op_subu, op_and, op_or, op_xor,
  op_nor, op_slt, op_sltu, op_sll, op_srl, op_sra, op_sllv, op_srlv, op_srav,
}
use zonistation_one.Cpu.Exceptions.{overflow}
use zonistation_one.Cpu.Fields.{instr_s, instr_t, instr_d}
use zonistation_one.Cpu.Regs.{cpu_reg}
use zonistation_one.Cpu.Wf.Core.{IsWord, IsWf, set_reg-IsWf, exception-IsWf, Keeps}
use zonistation_one.Machine.{Cpu}

pub to_word-lt : (r : ℤ) → to_word 32 r < 2 ^ 32
to_word-lt (pos n) = omega arith
to_word-lt (negsuc n) = omega arith

pub sra32-IsWord : (x k : ℕ) → IsWord (sra32 x k)
unfolding sra32
sra32-IsWord x k = to_word-lt _

pub to_nat-IsWord : (b : Bool) → IsWord (to_nat b)
to_nat-IsWord true = omega arith
to_nat-IsWord false = omega arith

shifted-IsWord : (x k : ℕ) → IsWord x → IsWord (x / 2 ^ k)
shifted-IsWord x k h = omega (arith, div-le_self x (2 ^ k))

-- The result of a checked operation, when there is one, is a word.
abbrev AllWords : Option ℕ → Type 0
AllWords none = Unit
AllWords (some v) = IsWord v

checked-word : (r : ℤ) → AllWords (checked r)
unfolding checked
checked-word r = elim (Bool-cases (leb_ℤ (negsuc (2 ^ 31 - 1)) r && leb_ℤ r (pos (2 ^ 31 - 1)))) [
  | inl e ↦ rw e (to_word-lt r)
  | inr e ↦ rw e tt
]

module _ {D G : Type 0} where
  pub reg-IsWord : {cpu : Cpu D G} (r : ℕ) → IsWf cpu → IsWord (cpu_reg cpu r)
  unfolding cpu_reg
  reg-IsWord r w = w.regs.words r

  set_or_overflow-IsWf :
      {cpu : Cpu D G} (rd : ℕ) (o : Option ℕ)
      → AllWords o
      → IsWf cpu
      → IsWf (set_or_overflow cpu rd o)
  unfolding set_or_overflow
  set_or_overflow-IsWf rd none h w = exception-IsWf overflow w
  set_or_overflow-IsWf rd (some v) h w = set_reg-IsWf rd w h

  pub op_lui-IsWf : Keeps {D = D} {G = G} op_lui
  unfolding op_lui
  op_lui-IsWf cpu i w = set_reg-IsWf (instr_t i) w (omega arith)

  pub op_ori-IsWf : Keeps {D = D} {G = G} op_ori
  unfolding op_ori
  op_ori-IsWf cpu i w =
      set_reg-IsWf (instr_t i) w (bit_or-lt 32 _ _ (reg-IsWord (instr_s i) w) (omega arith))

  pub op_or-IsWf : Keeps {D = D} {G = G} op_or
  unfolding op_or
  op_or-IsWf cpu i w =
      set_reg-IsWf (instr_d i) w
        (bit_or-lt 32 _ _ (reg-IsWord (instr_s i) w) (reg-IsWord (instr_t i) w))

  pub op_xori-IsWf : Keeps {D = D} {G = G} op_xori
  unfolding op_xori
  op_xori-IsWf cpu i w =
      set_reg-IsWf (instr_t i) w (bit_xor-lt 32 _ _ (reg-IsWord (instr_s i) w) (omega arith))

  pub op_xor-IsWf : Keeps {D = D} {G = G} op_xor
  unfolding op_xor
  op_xor-IsWf cpu i w =
      set_reg-IsWf (instr_d i) w
        (bit_xor-lt 32 _ _ (reg-IsWord (instr_s i) w) (reg-IsWord (instr_t i) w))

  pub op_andi-IsWf : Keeps {D = D} {G = G} op_andi
  unfolding op_andi
  op_andi-IsWf cpu i w = set_reg-IsWf (instr_t i) w (bit_and-lt 32 _ _ (reg-IsWord (instr_s i) w))

  pub op_and-IsWf : Keeps {D = D} {G = G} op_and
  unfolding op_and
  op_and-IsWf cpu i w = set_reg-IsWf (instr_d i) w (bit_and-lt 32 _ _ (reg-IsWord (instr_s i) w))

  pub op_nor-IsWf : Keeps {D = D} {G = G} op_nor
  unfolding op_nor
  op_nor-IsWf cpu i w = set_reg-IsWf (instr_d i) w (omega arith)

  pub op_addiu-IsWf : Keeps {D = D} {G = G} op_addiu
  unfolding op_addiu
  op_addiu-IsWf cpu i w = set_reg-IsWf (instr_t i) w (omega arith)

  pub op_addu-IsWf : Keeps {D = D} {G = G} op_addu
  unfolding op_addu
  op_addu-IsWf cpu i w = set_reg-IsWf (instr_d i) w (omega arith)

  pub op_subu-IsWf : Keeps {D = D} {G = G} op_subu
  unfolding op_subu
  op_subu-IsWf cpu i w = set_reg-IsWf (instr_d i) w (omega arith)

  pub op_slti-IsWf : Keeps {D = D} {G = G} op_slti
  unfolding op_slti
  op_slti-IsWf cpu i w = set_reg-IsWf (instr_t i) w (to_nat-IsWord _)

  pub op_sltiu-IsWf : Keeps {D = D} {G = G} op_sltiu
  unfolding op_sltiu
  op_sltiu-IsWf cpu i w = set_reg-IsWf (instr_t i) w (to_nat-IsWord _)

  pub op_slt-IsWf : Keeps {D = D} {G = G} op_slt
  unfolding op_slt
  op_slt-IsWf cpu i w = set_reg-IsWf (instr_d i) w (to_nat-IsWord _)

  pub op_sltu-IsWf : Keeps {D = D} {G = G} op_sltu
  unfolding op_sltu
  op_sltu-IsWf cpu i w = set_reg-IsWf (instr_d i) w (to_nat-IsWord _)

  pub op_srl-IsWf : Keeps {D = D} {G = G} op_srl
  unfolding op_srl
  op_srl-IsWf cpu i w = set_reg-IsWf (instr_d i) w (shifted-IsWord _ _ (reg-IsWord (instr_t i) w))

  pub op_srlv-IsWf : Keeps {D = D} {G = G} op_srlv
  unfolding op_srlv
  op_srlv-IsWf cpu i w = set_reg-IsWf (instr_d i) w (shifted-IsWord _ _ (reg-IsWord (instr_t i) w))

  pub op_sra-IsWf : Keeps {D = D} {G = G} op_sra
  unfolding op_sra
  op_sra-IsWf cpu i w = set_reg-IsWf (instr_d i) w (sra32-IsWord _ _)

  pub op_srav-IsWf : Keeps {D = D} {G = G} op_srav
  unfolding op_srav
  op_srav-IsWf cpu i w = set_reg-IsWf (instr_d i) w (sra32-IsWord _ _)

  pub op_sllv-IsWf : Keeps {D = D} {G = G} op_sllv
  unfolding op_sllv
  op_sllv-IsWf cpu i w = set_reg-IsWf (instr_d i) w (omega arith)

  pub op_sll-IsWf : Keeps {D = D} {G = G} op_sll
  unfolding op_sll
  op_sll-IsWf cpu i w = elim (Bool-cases (i == 0)) [
    | inl e ↦ rw e w
    | inr e ↦ rw e (set_reg-IsWf (instr_d i) w (omega arith))
  ]

  pub op_addi-IsWf : Keeps {D = D} {G = G} op_addi
  unfolding op_addi add_overflow
  op_addi-IsWf cpu i w = set_or_overflow-IsWf (instr_t i) _ (checked-word _) w

  pub op_add-IsWf : Keeps {D = D} {G = G} op_add
  unfolding op_add add_overflow
  op_add-IsWf cpu i w = set_or_overflow-IsWf (instr_d i) _ (checked-word _) w

  pub op_sub-IsWf : Keeps {D = D} {G = G} op_sub
  unfolding op_sub sub_overflow
  op_sub-IsWf cpu i w = set_or_overflow-IsWf (instr_d i) _ (checked-word _) w
