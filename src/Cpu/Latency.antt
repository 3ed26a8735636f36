-- ===== src/Cpu/Latency.antt =====
-- The multiply unit of cpu_instructions.c: a product that is read at once, and one that is read
-- after the cycle counter has wrapped.
use zonistation_one.Base.{
  ltb, ◌!=◌, if-same, add32, sub32, ℕ, ◌+◌, ◌-◌, ◌*◌, ◌^◌, ◌≤◌, ◌<◌, max, ◌≡◌, refl, ap, ap₂, ◌∙◌,
  ◌≢◌, arith,
}
use zonistation_one.Cpu.Fields.{instr_s, instr_t, instr_d}
use zonistation_one.Cpu.MulDiv.{stall_until, start_muldiv, op_multu, op_mflo, op_mfhi}
use zonistation_one.Cpu.Regs.{cpu_reg, cpu_set_reg, cpu_retire_load_delay}
use zonistation_one.Cpu.Step.{retire}
use zonistation_one.Cpu.Wf.Core.{IsWf, IsWord}
use zonistation_one.Machine.{Cpu, Env, Interconnect}

module _ {D G : Type 0} where
  -- A stall moves the cycle counter to the larger of the two numbers.
  stall_until-counter :
      (cpu : Cpu D G) (tick : ℕ)
      → IsWord tick
      → IsWord cpu.inter.cpu_cycle_counter
      → (stall_until cpu tick).inter.cpu_cycle_counter ≡ max cpu.inter.cpu_cycle_counter tick
  unfolding stall_until
  stall_until-counter cpu tick ht hn = ground arith

  stall_until-lo : (cpu : Cpu D G) (tick : ℕ) → (stall_until cpu tick).lo ≡ cpu.lo
  unfolding stall_until
  stall_until-lo cpu tick =
      if-same (λ (c : Cpu D G). c.lo) (ltb cpu.inter.cpu_cycle_counter tick) refl refl

  stall_until-hi : (cpu : Cpu D G) (tick : ℕ) → (stall_until cpu tick).hi ≡ cpu.hi
  unfolding stall_until
  stall_until-hi cpu tick =
      if-same (λ (c : Cpu D G). c.hi) (ltb cpu.inter.cpu_cycle_counter tick) refl refl

  written : (cpu : Cpu D G) (d v : ℕ) → d ≢ 0 → cpu_reg (cpu_set_reg cpu d v) d ≡ v
  unfolding cpu_reg cpu_set_reg
  written cpu d v h = ground arith

  written-inter : (cpu : Cpu D G) (d v : ℕ) → (cpu_set_reg cpu d v).inter ≡ cpu.inter
  unfolding cpu_set_reg
  written-inter cpu d v = if-same (λ (c : Cpu D G). c.inter) (d != 0) refl refl

  op_mflo-reg :
      (cpu : Cpu D G) (j : ℕ) → instr_d j ≢ 0 → cpu_reg (op_mflo cpu j) (instr_d j) ≡ cpu.lo
  unfolding op_mflo
  op_mflo-reg cpu j h =
      written (stall_until cpu cpu.muldiv_completion_tick) (instr_d j) _ h
      ∙ stall_until-lo cpu cpu.muldiv_completion_tick

  op_mfhi-reg :
      (cpu : Cpu D G) (j : ℕ) → instr_d j ≢ 0 → cpu_reg (op_mfhi cpu j) (instr_d j) ≡ cpu.hi
  unfolding op_mfhi
  op_mfhi-reg cpu j h =
      written (stall_until cpu cpu.muldiv_completion_tick) (instr_d j) _ h
      ∙ stall_until-hi cpu cpu.muldiv_completion_tick

  op_mflo-counter :
      (cpu : Cpu D G) (j : ℕ)
      → IsWord cpu.muldiv_completion_tick
      → IsWord cpu.inter.cpu_cycle_counter
      → (op_mflo cpu j).inter.cpu_cycle_counter
        ≡ max cpu.inter.cpu_cycle_counter cpu.muldiv_completion_tick
  unfolding op_mflo
  op_mflo-counter cpu j ht hn =
      let ready = stall_until cpu cpu.muldiv_completion_tick in
      ap (λ (i : Interconnect D). i.cpu_cycle_counter) (written-inter ready (instr_d j) ready.lo)
      ∙ stall_until-counter cpu cpu.muldiv_completion_tick ht hn

  product :
      (cpu : Cpu D G) (i : ℕ)
      → IsWf cpu
      → (op_multu cpu i).hi * 2 ^ 32 + (op_multu cpu i).lo
        ≡ cpu_reg cpu (instr_s i) * cpu_reg cpu (instr_t i)
  unfolding op_multu start_muldiv cpu_reg
  product cpu i w = grind arith

  started :
      (cpu : Cpu D G) (i : ℕ)
      → (op_multu cpu i).muldiv_completion_tick ≡ add32 cpu.inter.cpu_cycle_counter 7
        × (op_multu cpu i).inter ≡ cpu.inter
  unfolding op_multu start_muldiv
  started cpu i = (refl, refl)

  -- The multiplication when `m` cycles have gone by.
  unfoldable pub cycles_later : Cpu D G → ℕ → Cpu D G
  cycles_later cpu m = record cpu {
    inter = record (cpu.inter) { cpu_cycle_counter = add32 cpu.inter.cpu_cycle_counter m };
  }

  -- MFLO after a MULTU that began m cycles ago still stalls, for 2^32 + 7 - m cycles, if the
  -- 32-bit counter did not wrap in the 7 cycles that the multiplication took but has wrapped
  -- since, m being below 2^32: it waits for the completion tick, although the product is long
  -- ready.
  pub op_mflo-cycles_later :
      (cpu : Cpu D G) (i j m : ℕ)
      → cpu.inter.cpu_cycle_counter + 7 < 2 ^ 32
      → 2 ^ 32 ≤ cpu.inter.cpu_cycle_counter + m
      → m < 2 ^ 32
      → sub32
          (op_mflo (cycles_later (op_multu cpu i) m) j).inter.cpu_cycle_counter
          (cycles_later (op_multu cpu i) m).inter.cpu_cycle_counter
        ≡ 2 ^ 32 + 7 - m
  unfolding cycles_later
  op_mflo-cycles_later cpu i j m h wrap hm =
      let later = cycles_later (op_multu cpu i) m in
      let at = started cpu i in
      let n = ap (λ (x : Interconnect D). x.cpu_cycle_counter) at.1 in
      let tick : IsWord later.muldiv_completion_tick = omega (arith, at.0) in
      let after = op_mflo-counter later j tick (omega arith) in
      rw after (ground (arith, at.0, n, h, wrap, hm))

module _ {D G : Type 0} (env : Env D G) where
  retired :
      (cpu : Cpu D G)
      → ((retire env cpu).hi ≡ cpu.hi)
        × ((retire env cpu).lo ≡ cpu.lo)
        × ((retire env cpu).muldiv_completion_tick ≡ cpu.muldiv_completion_tick)
        × ((retire env cpu).inter.cpu_cycle_counter
            ≡ add32 cpu.inter.cpu_cycle_counter (add32 1 cpu.inter.cpu_mem_stall_cycles))
  unfolding retire cpu_retire_load_delay
  retired cpu = (refl, refl, refl, refl)

  -- MFHI or MFLO at once after MULTU, into a register other than R0, gives the high or the low
  -- word of the exact product. After the MFLO the counter is 7 cycles past the start of MULTU,
  -- or as many as MULTU took to retire, if these are more. The CPU is well formed and its
  -- counter does not wrap meanwhile.
  pub op_mflo-op_multu :
      (cpu : Cpu D G) (i j : ℕ)
      → IsWf cpu
      → instr_d j ≢ 0
      → cpu.inter.cpu_cycle_counter + 7 < 2 ^ 32
      → cpu.inter.cpu_cycle_counter + 1 + cpu.inter.cpu_mem_stall_cycles < 2 ^ 32
      → (cpu_reg (op_mfhi (retire env (op_multu cpu i)) j) (instr_d j) * 2 ^ 32
            + cpu_reg (op_mflo (retire env (op_multu cpu i)) j) (instr_d j)
          ≡ cpu_reg cpu (instr_s i) * cpu_reg cpu (instr_t i))
        × ((op_mflo (retire env (op_multu cpu i)) j).inter.cpu_cycle_counter
            ≡ cpu.inter.cpu_cycle_counter + max 7 (1 + cpu.inter.cpu_mem_stall_cycles))
  op_mflo-op_multu cpu i j w target h stalls =
      let multiplied = op_multu cpu i in
      let next = retire env multiplied in
      let kept = retired multiplied in
      let at = started cpu i in
      let n = ap (λ (x : Interconnect D). x.cpu_cycle_counter) at.1 in
      let s = ap (λ (x : Interconnect D). x.cpu_mem_stall_cycles) at.1 in
      let now : next.inter.cpu_cycle_counter
          ≡ cpu.inter.cpu_cycle_counter + 1 + cpu.inter.cpu_mem_stall_cycles =
        omega (arith, kept.3, n, s, stalls) in
      let tick : next.muldiv_completion_tick ≡ cpu.inter.cpu_cycle_counter + 7 =
        omega (arith, kept.2, at.0, h) in
      (
        ap₂ (λ x y. x * 2 ^ 32 + y) (op_mfhi-reg next j target ∙ kept.0)
              (op_mflo-reg next j target ∙ kept.1)
            ∙ product cpu i w,
        op_mflo-counter next j (omega (arith, tick, h)) (omega (arith, now, stalls))
            ∙ ap₂ max now tick
            ∙ omega arith,
      )
