-- ===== src/Cpu/StorePart.antt =====
-- SWL and SWR of cpu_instructions.c outside RAM: the planned stores of include/cpu_mem.h through
-- the bus, into the scratchpad.
use zonistation_one.Base.{
  ltb, if-false, All, ℕ, zero, suc, ◌+◌, ◌-◌, ◌*◌, ◌%◌, ◌<◌, ◌≡◌, refl, ap, ◌∙◌, true, false, List,
  arith,
}
use zonistation_one.Bus.Access.{mask_region}
use zonistation_one.Bus.Bytes.{load_le32}
use zonistation_one.Cpu.Fields.{instr_t}
use zonistation_one.Cpu.LoadStore.{
  cache_isolated, effective_address, run_plan, cpu_store_partial, op_swl, op_swr,
}
use zonistation_one.Cpu.Partial.{
  PartialStore, cpu_swl_merge, cpu_swr_merge, cpu_swl_plan, cpu_swr_plan,
}
use zonistation_one.Cpu.PlannedStore.{scratchpad_base, IsNatural, run_plan-stored_plan}
use zonistation_one.Cpu.Regs.{cpu_reg}
use zonistation_one.Cpu.Unaligned.{stored_plan-merge}
use zonistation_one.Cpu.Wf.Core.{IsWf}
use zonistation_one.Machine.{Env, Interconnect, Cpu}

cpu_swl_plan-IsNatural : (rt k : ℕ) → k < 4 → All IsNatural (cpu_swl_plan rt k)
unfolding cpu_swl_plan
cpu_swl_plan-IsNatural rt zero h = (IsNatural.byte (omega arith), tt)
cpu_swl_plan-IsNatural rt (suc zero) h = (IsNatural.half refl (omega arith), tt)
cpu_swl_plan-IsNatural rt (suc (suc zero)) h =
    (IsNatural.half refl (omega arith), (IsNatural.byte (omega arith), tt))
cpu_swl_plan-IsNatural rt (suc (suc (suc zero))) h = (IsNatural.whole, tt)
cpu_swl_plan-IsNatural rt (suc (suc (suc (suc k)))) h = absurd (omega arith)

cpu_swr_plan-IsNatural : (rt k : ℕ) → k < 4 → All IsNatural (cpu_swr_plan rt k)
unfolding cpu_swr_plan
cpu_swr_plan-IsNatural rt zero h = (IsNatural.whole, tt)
cpu_swr_plan-IsNatural rt (suc zero) h =
    (IsNatural.byte (omega arith), (IsNatural.half refl (omega arith), tt))
cpu_swr_plan-IsNatural rt (suc (suc zero)) h = (IsNatural.half refl (omega arith), tt)
cpu_swr_plan-IsNatural rt (suc (suc (suc zero))) h = (IsNatural.byte (omega arith), tt)
cpu_swr_plan-IsNatural rt (suc (suc (suc (suc k)))) h = absurd (omega arith)

module _ {D G : Type 0} (env : Env D G) where
  off_ram_left :
      (cpu : Cpu D G) (addr value : ℕ)
      → ltb (mask_region (addr - addr % 4)) 0x80_0000 ≡ false
      → cpu_store_partial env cpu addr value true
        ≡ run_plan env cpu (addr - addr % 4) (cpu_swl_plan value (addr % 4))
  unfolding cpu_store_partial
  off_ram_left cpu addr value e = if-false _ e

  off_ram_right :
      (cpu : Cpu D G) (addr value : ℕ)
      → ltb (mask_region (addr - addr % 4)) 0x80_0000 ≡ false
      → cpu_store_partial env cpu addr value false
        ≡ run_plan env cpu (addr - addr % 4) (cpu_swr_plan value (addr % 4))
  unfolding cpu_store_partial
  off_ram_right cpu addr value e = if-false _ e

  -- SWL and SWR at an address of the scratchpad, whose stores are split and go through the bus
  -- without a read, leave there the word that the merge of the RAM path would store, for every
  -- alignment, if the CPU is well formed, the cache is not isolated and the write watchpoint
  -- check leaves the scratchpad alone.
  pub op_swl-cpu_swl_merge :
      (cpu : Cpu D G) (i q : ℕ)
      → ((inter : Interconnect D) (b size : ℕ)
          → (env.check_write_watchpoint inter b size).scratchpad ≡ inter.scratchpad)
      → IsWf cpu
      → cache_isolated cpu.sr ≡ false
      → mask_region (effective_address cpu i - effective_address cpu i % 4)
        ≡ scratchpad_base + q * 4
      → q < 0x100
      → (load_le32 (op_swl env cpu i).inter.scratchpad (q * 4)
          ≡ cpu_swl_merge
              (load_le32 cpu.inter.scratchpad (q * 4))
              (cpu_reg cpu (instr_t i))
              (effective_address cpu i % 4))
        × (load_le32 (op_swr env cpu i).inter.scratchpad (q * 4)
            ≡ cpu_swr_merge
                (load_le32 cpu.inter.scratchpad (q * 4))
                (cpu_reg cpu (instr_t i))
                (effective_address cpu i % 4))
  unfolding op_swl op_swr cpu_reg
  op_swl-cpu_swl_merge cpu i q quiet w open_cache place small =
      let addr = effective_address cpu i in
      let a = addr - addr % 4 in
      let rt = cpu_reg cpu (instr_t i) in
      let f = cpu.inter.scratchpad in
      let outside : ltb (mask_region a) 0x80_0000 ≡ false = ground (arith, place) in
      let merged =
        stored_plan-merge f q rt (addr % 4) w.memory.scratchpad (w.regs.words (instr_t i))
          (omega arith) in
      let word = λ (c : Cpu D G). load_le32 c.inter.scratchpad (q * 4) in
      let run = λ (ps : List PartialStore) (n : All IsNatural ps).
        ap (λ g. load_le32 g (q * 4))
          (run_plan-stored_plan env quiet a q (omega arith) (omega arith) place small cpu ps n) in
      (
        ap word (if-false cpu open_cache ∙ off_ram_left cpu addr rt outside)
            ∙ run (cpu_swl_plan rt (addr % 4)) (cpu_swl_plan-IsNatural rt (addr % 4) (omega arith))
            ∙ merged.0,
        ap word (if-false cpu open_cache ∙ off_ram_right cpu addr rt outside)
            ∙ run (cpu_swr_plan rt (addr % 4)) (cpu_swr_plan-IsNatural rt (addr % 4) (omega arith))
            ∙ merged.1,
      )
