-- ===== src/Cpu/MulDiv.antt =====
-- cpu_instructions.c: the multiply and divide unit, HI and LO.
use zonistation_one.Base.{
  ltb, ◌==◌, if◌then◌else◌, u32, add32, sub32, ◌>>>◌, lt_signed, ℕ, ◌*◌, ◌/◌, ◌%◌, ◌&&◌,
}
use zonistation_one.Base.Int.{◌*ℤ◌, signed32, to_word, quot, rem}
use zonistation_one.Cpu.Fields.{instr_s, instr_t, instr_d}
use zonistation_one.Cpu.Regs.{cpu_reg, cpu_set_reg}
use zonistation_one.Machine.{Cpu}

abbrev pub mult_ticks : ℕ
mult_ticks = 7

abbrev pub div_ticks : ℕ
div_ticks = 37

module _ {D G : Type 0} where
  -- The stall that MFHI, MFLO, MTHI, MTLO and the coprocessor moves share: an unsigned comparison
  -- of two cycle counts, then the counter and the downcount are moved by the difference.
  unfoldable pub stall_until : Cpu D G → ℕ → Cpu D G
  stall_until cpu tick =
      let now = cpu.inter.cpu_cycle_counter in
      let stall = sub32 tick now in
      if ltb now tick
      then record cpu {
        inter = record (cpu.inter) {
          cpu_cycle_counter = add32 now stall;
          downcount = sub32 cpu.inter.downcount stall;
        };
      }
      else cpu

  unfoldable pub start_muldiv : Cpu D G → ℕ → ℕ → ℕ → Cpu D G
  start_muldiv cpu hi lo ticks = record cpu {
    hi = hi;
    lo = lo;
    muldiv_completion_tick = add32 cpu.inter.cpu_cycle_counter ticks;
  }

  unfoldable pub op_mult : Cpu D G → ℕ → Cpu D G
  unfolding ◌*ℤ◌
  op_mult cpu i =
      let result =
        to_word 64 (signed32 (cpu_reg cpu (instr_s i)) *ℤ signed32 (cpu_reg cpu (instr_t i))) in
      start_muldiv cpu (u32 (result >>> 32)) (u32 result) mult_ticks

  unfoldable pub op_multu : Cpu D G → ℕ → Cpu D G
  op_multu cpu i =
      let result = cpu_reg cpu (instr_s i) * cpu_reg cpu (instr_t i) in
      start_muldiv cpu (u32 (result >>> 32)) (u32 result) mult_ticks

  -- Division by zero, then `INT_MIN / -1`, then C's division.
  unfoldable pub op_div : Cpu D G → ℕ → Cpu D G
  op_div cpu i =
      let n = cpu_reg cpu (instr_s i) in
      let d = cpu_reg cpu (instr_t i) in
      if d == 0
      then start_muldiv cpu n (if lt_signed n 0 then 1 else 0xffff_ffff) div_ticks
      else if n == 0x8000_0000 && d == 0xffff_ffff
      then start_muldiv cpu 0 0x8000_0000 div_ticks
      else start_muldiv cpu (to_word 32 (rem (signed32 n) (signed32 d)))
          (to_word 32 (quot (signed32 n) (signed32 d))) div_ticks

  unfoldable pub op_divu : Cpu D G → ℕ → Cpu D G
  op_divu cpu i =
      let n = cpu_reg cpu (instr_s i) in
      let d = cpu_reg cpu (instr_t i) in
      if d == 0
      then start_muldiv cpu n 0xffff_ffff div_ticks
      else start_muldiv cpu (n % d) (n / d) div_ticks

  unfoldable pub op_mflo : Cpu D G → ℕ → Cpu D G
  op_mflo cpu i =
      let ready = stall_until cpu cpu.muldiv_completion_tick in
      cpu_set_reg ready (instr_d i) ready.lo

  unfoldable pub op_mfhi : Cpu D G → ℕ → Cpu D G
  op_mfhi cpu i =
      let ready = stall_until cpu cpu.muldiv_completion_tick in
      cpu_set_reg ready (instr_d i) ready.hi

  unfoldable pub op_mtlo : Cpu D G → ℕ → Cpu D G
  op_mtlo cpu i =
      let ready = stall_until cpu cpu.muldiv_completion_tick in
      record ready { lo = cpu_reg ready (instr_s i) }

  unfoldable pub op_mthi : Cpu D G → ℕ → Cpu D G
  op_mthi cpu i =
      let ready = stall_until cpu cpu.muldiv_completion_tick in
      record ready { hi = cpu_reg ready (instr_s i) }
