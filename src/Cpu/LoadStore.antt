-- ===== src/Cpu/LoadStore.antt =====
-- cpu_instructions.c: loads and stores. Bit 16 of SR isolates the cache: a load is then dropped,
-- and SW, SH and SB invalidate a line of the instruction cache.
use zonistation_one.Base.{
  ltb, ◌==◌, ◌!=◌, if◌then◌else◌, u8, u16, add32, bit, sign_extend16, sign_extend8, ℕ, ◌-◌, ◌%◌,
  Bool, true, false, ◌&&◌, List, [], ◌∷◌,
}
use zonistation_one.Bus.Access.{
  mask_region, interconnect_store8, interconnect_store16, interconnect_store32, cpu_load8,
  cpu_load16, cpu_load32,
}
use zonistation_one.Bus.Bytes.{load_le32}
use zonistation_one.Bus.Ram.{ram_size}
use zonistation_one.Cpu.Exceptions.{cpu_exception, load_address_error, store_address_error}
use zonistation_one.Cpu.Fields.{instr_s, instr_t, instr_imm_se}
use zonistation_one.Cpu.ICache.{invalidate}
use zonistation_one.Cpu.Partial.{
  PartialStore, cpu_swl_merge, cpu_swr_merge, cpu_swl_plan, cpu_swr_plan, lwl_merge, lwr_merge,
}
use zonistation_one.Cpu.Regs.{cpu_reg, schedule_load}
use zonistation_one.Machine.{Cpu, Env}

abbrev pub cache_isolated : ℕ → Bool
cache_isolated sr = bit sr 16

module _ {D G : Type 0} where
  -- `cpu_reg(rs) + offset`
  abbrev pub effective_address : Cpu D G → ℕ → ℕ
  effective_address cpu i = add32 (cpu.regs (instr_s i)) (instr_imm_se i)

  unfoldable pub load_misaligned : Cpu D G → ℕ → Cpu D G
  load_misaligned cpu address = cpu_exception (record cpu { badvaddr = address }) load_address_error

  unfoldable pub store_misaligned : Cpu D G → ℕ → Cpu D G
  store_misaligned cpu address =
      cpu_exception (record cpu { badvaddr = address }) store_address_error

  -- The value that LWL and LWR merge into: a load in flight to the same register counts.
  unfoldable pub current_rt_value : Cpu D G → ℕ → ℕ
  current_rt_value cpu rt =
      if rt != 0 && cpu.delay_load_reg == rt then cpu.delay_load_value else cpu.regs rt

module _ {D G : Type 0} (env : Env D G) where
  unfoldable pub op_lw : Cpu D G → ℕ → Cpu D G
  op_lw cpu i =
      let address = effective_address cpu i in
      if cache_isolated cpu.sr
      then cpu
      else if address % 4 != 0
      then load_misaligned cpu address
      else let (v, after) = cpu_load32 env cpu address in schedule_load after (instr_t i) v

  unfoldable pub op_lh : Cpu D G → ℕ → Cpu D G
  op_lh cpu i =
      let address = effective_address cpu i in
      if cache_isolated cpu.sr
      then cpu
      else if address % 2 != 0
      then load_misaligned cpu address
      else let (v, after) = cpu_load16 env cpu address in
        schedule_load after (instr_t i) (sign_extend16 v)

  unfoldable pub op_lhu : Cpu D G → ℕ → Cpu D G
  op_lhu cpu i =
      let address = effective_address cpu i in
      if cache_isolated cpu.sr
      then cpu
      else if address % 2 != 0
      then load_misaligned cpu address
      else let (v, after) = cpu_load16 env cpu address in schedule_load after (instr_t i) v

  unfoldable pub op_lb : Cpu D G → ℕ → Cpu D G
  op_lb cpu i =
      if cache_isolated cpu.sr
      then cpu
      else let (v, after) = cpu_load8 env cpu (effective_address cpu i) in
        schedule_load after (instr_t i) (sign_extend8 v)

  unfoldable pub op_lbu : Cpu D G → ℕ → Cpu D G
  op_lbu cpu i =
      if cache_isolated cpu.sr
      then cpu
      else let (v, after) = cpu_load8 env cpu (effective_address cpu i) in
        schedule_load after (instr_t i) v

  -- The old value is taken before the load, whose address is aligned and raises no exception.
  unfoldable pub op_lwl : Cpu D G → ℕ → Cpu D G
  op_lwl cpu i =
      let addr = effective_address cpu i in
      if cache_isolated cpu.sr
      then cpu
      else let (word, after) = cpu_load32 env cpu (addr - addr % 4) in
        schedule_load after (instr_t i)
          (lwl_merge (current_rt_value cpu (instr_t i)) word (addr % 4))

  unfoldable pub op_lwr : Cpu D G → ℕ → Cpu D G
  op_lwr cpu i =
      let addr = effective_address cpu i in
      if cache_isolated cpu.sr
      then cpu
      else let (word, after) = cpu_load32 env cpu (addr - addr % 4) in
        schedule_load after (instr_t i)
          (lwr_merge (current_rt_value cpu (instr_t i)) word (addr % 4))

  unfoldable pub op_sw : Cpu D G → ℕ → Cpu D G
  op_sw cpu i =
      let address = effective_address cpu i in
      if cache_isolated cpu.sr
      then invalidate cpu (mask_region address)
      else if address % 4 != 0
      then store_misaligned cpu address
      else interconnect_store32 env cpu address (cpu_reg cpu (instr_t i))

  unfoldable pub op_sh : Cpu D G → ℕ → Cpu D G
  op_sh cpu i =
      let address = effective_address cpu i in
      if cache_isolated cpu.sr
      then invalidate cpu (mask_region address)
      else if address % 2 != 0
      then store_misaligned cpu address
      else interconnect_store16 env cpu address (u16 (cpu_reg cpu (instr_t i)))

  unfoldable pub op_sb : Cpu D G → ℕ → Cpu D G
  op_sb cpu i =
      let address = effective_address cpu i in
      if cache_isolated cpu.sr
      then invalidate cpu (mask_region address)
      else interconnect_store8 env cpu address (u8 (cpu_reg cpu (instr_t i)))

  unfoldable pub store_planned : Cpu D G → ℕ → PartialStore → Cpu D G
  store_planned cpu aligned_addr p =
      if p.size == 1
      then interconnect_store8 env cpu (add32 aligned_addr p.off) (u8 p.value)
      else if p.size == 2
      then interconnect_store16 env cpu (add32 aligned_addr p.off) (u16 p.value)
      else interconnect_store32 env cpu (add32 aligned_addr p.off) p.value

  unfoldable pub run_plan : Cpu D G → ℕ → List PartialStore → Cpu D G
  run_plan cpu aligned_addr [] = cpu
  run_plan cpu aligned_addr (p ∷ ps) = run_plan (store_planned cpu aligned_addr p) aligned_addr ps

  -- On RAM the merged word is stored; elsewhere the planned stores are made and nothing is read.
  unfoldable pub cpu_store_partial : Cpu D G → ℕ → ℕ → Bool → Cpu D G
  cpu_store_partial cpu addr value left =
      let aligned_addr = addr - addr % 4 in
      let byte_off = addr % 4 in
      let phys = mask_region aligned_addr in
      let mem = load_le32 cpu.inter.ram (phys % ram_size) in
      if ltb phys 0x80_0000
      then interconnect_store32 env cpu aligned_addr
          (if left then cpu_swl_merge mem value byte_off else cpu_swr_merge mem value byte_off)
      else run_plan cpu aligned_addr
          (if left then cpu_swl_plan value byte_off else cpu_swr_plan value byte_off)

  unfoldable pub op_swl : Cpu D G → ℕ → Cpu D G
  op_swl cpu i =
      if cache_isolated cpu.sr
      then cpu
      else cpu_store_partial cpu (effective_address cpu i) (cpu_reg cpu (instr_t i)) true

  unfoldable pub op_swr : Cpu D G → ℕ → Cpu D G
  op_swr cpu i =
      if cache_isolated cpu.sr
      then cpu
      else cpu_store_partial cpu (effective_address cpu i) (cpu_reg cpu (instr_t i)) false
