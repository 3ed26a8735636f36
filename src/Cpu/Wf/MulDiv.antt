-- ===== src/Cpu/Wf/MulDiv.antt =====
-- The multiply and divide unit of cpu_instructions.c.
use native.Mathlib.Nat.{div-le_self}
use zonistation_one.Base.{
  ltb, ◌==◌, if◌then◌else◌, Bool-cases, lt_signed, ℕ, ◌/◌, ◌%◌, ◌^◌, ◌<◌, inl, inr, Bool, true,
  false, arith,
}
use zonistation_one.Base.Int.{signed32, to_word, quot, rem}
use zonistation_one.Cpu.Fields.{instr_s, instr_t, instr_d}
use zonistation_one.Cpu.MulDiv.{
  mult_ticks, div_ticks, stall_until, start_muldiv, op_mult, op_multu, op_div, op_divu, op_mflo,
  op_mfhi, op_mtlo, op_mthi,
}
use zonistation_one.Cpu.Regs.{cpu_reg}
use zonistation_one.Cpu.Wf.Alu.{to_word-lt, reg-IsWord}
use zonistation_one.Cpu.Wf.Core.{IsWord, IsWf, set_reg-IsWf, Keeps}
use zonistation_one.Machine.{Cpu}

quot_word : (n d : ℕ) → n < 2 ^ 32 → n / d < 2 ^ 32
quot_word n d h = omega (arith, div-le_self n d)

rem_word : (n d : ℕ) → n < 2 ^ 32 → n % d < 2 ^ 32
rem_word n d h = grind arith

module _ {D G : Type 0} where
  pub stall_until-IsWf : {cpu : Cpu D G} (tick : ℕ) → IsWf cpu → IsWf (stall_until cpu tick)
  unfolding stall_until
  stall_until-IsWf {cpu} tick w = elim (Bool-cases (ltb cpu.inter.cpu_cycle_counter tick)) [
    | inl e ↦ rw e (record {
      regs = w.regs;
      flow = w.flow;
      delay = w.delay;
      muldiv = w.muldiv;
      cop0 = w.cop0;
      memory = record {
        ram = w.memory.ram;
        scratchpad = w.memory.scratchpad;
        bios = w.memory.bios;
      };
    })
    | inr e ↦ rw e w
  ]

  start_muldiv-IsWf :
      {cpu : Cpu D G} (hi lo ticks : ℕ)
      → IsWf cpu
      → IsWord hi
      → IsWord lo
      → IsWf (start_muldiv cpu hi lo ticks)
  unfolding start_muldiv
  start_muldiv-IsWf hi lo ticks w h l = record {
    regs = w.regs;
    flow = w.flow;
    delay = w.delay;
    muldiv = (h, l);
    cop0 = w.cop0;
    memory = w.memory;
  }

  pub op_mult-IsWf : Keeps {D = D} {G = G} op_mult
  unfolding op_mult
  op_mult-IsWf cpu i w = start_muldiv-IsWf _ _ mult_ticks w (omega arith) (omega arith)

  pub op_multu-IsWf : Keeps {D = D} {G = G} op_multu
  unfolding op_multu
  op_multu-IsWf cpu i w = start_muldiv-IsWf _ _ mult_ticks w (omega arith) (omega arith)

  div_cases-IsWf :
      (cpu : Cpu D G) (n d : ℕ) (zero overflows : Bool)
      → IsWord n
      → IsWf cpu
      → IsWf (
          if zero
          then start_muldiv cpu n (if lt_signed n 0 then 1 else 0xffff_ffff) div_ticks
          else if overflows
          then start_muldiv cpu 0 0x8000_0000 div_ticks
          else start_muldiv cpu
              (to_word 32 (rem (signed32 n) (signed32 d)))
              (to_word 32 (quot (signed32 n) (signed32 d)))
              div_ticks)
  div_cases-IsWf cpu n d true o h w = start_muldiv-IsWf _ _ div_ticks w h (ground arith)
  div_cases-IsWf cpu n d false true h w =
      start_muldiv-IsWf _ _ div_ticks w (omega arith) (omega arith)
  div_cases-IsWf cpu n d false false h w =
      start_muldiv-IsWf _ _ div_ticks w (to_word-lt _) (to_word-lt _)

  pub op_div-IsWf : Keeps {D = D} {G = G} op_div
  unfolding op_div
  op_div-IsWf cpu i w = div_cases-IsWf cpu _ _ _ _ (reg-IsWord (instr_s i) w) w

  pub op_divu-IsWf : Keeps {D = D} {G = G} op_divu
  unfolding op_divu
  op_divu-IsWf cpu i w = elim (Bool-cases (cpu_reg cpu (instr_t i) == 0)) [
    | inl e ↦ rw e (start_muldiv-IsWf _ _ div_ticks w (reg-IsWord (instr_s i) w) (omega arith))
    | inr e ↦ rw e (
        start_muldiv-IsWf _ _ div_ticks w (rem_word _ _ (reg-IsWord (instr_s i) w))
          (quot_word _ _ (reg-IsWord (instr_s i) w)))
  ]

  pub op_mflo-IsWf : Keeps {D = D} {G = G} op_mflo
  unfolding op_mflo
  op_mflo-IsWf cpu i w =
      let ready = stall_until-IsWf cpu.muldiv_completion_tick w in
      set_reg-IsWf (instr_d i) ready ready.muldiv.1

  pub op_mfhi-IsWf : Keeps {D = D} {G = G} op_mfhi
  unfolding op_mfhi
  op_mfhi-IsWf cpu i w =
      let ready = stall_until-IsWf cpu.muldiv_completion_tick w in
      set_reg-IsWf (instr_d i) ready ready.muldiv.0

  pub op_mtlo-IsWf : Keeps {D = D} {G = G} op_mtlo
  unfolding op_mtlo
  op_mtlo-IsWf cpu i w =
      let ready = stall_until-IsWf cpu.muldiv_completion_tick w in
      record {
        regs = ready.regs;
        flow = ready.flow;
        delay = ready.delay;
        muldiv = (ready.muldiv.0, reg-IsWord (instr_s i) ready);
        cop0 = ready.cop0;
        memory = ready.memory;
      }

  pub op_mthi-IsWf : Keeps {D = D} {G = G} op_mthi
  unfolding op_mthi
  op_mthi-IsWf cpu i w =
      let ready = stall_until-IsWf cpu.muldiv_completion_tick w in
      record {
        regs = ready.regs;
        flow = ready.flow;
        delay = ready.delay;
        muldiv = (reg-IsWord (instr_s i) ready, ready.muldiv.1);
        cop0 = ready.cop0;
        memory = ready.memory;
      }
