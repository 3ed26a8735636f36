-- ===== src/Cpu/Wf/LoadStore.antt =====
-- The loads and stores of cpu_instructions.c.
use zonistation_one.Base.{
  ltb, ◌==◌, ◌!=◌, u8, u16, add32, sign_extend16, sign_extend8, ℕ, ◌-◌, ◌%◌, ◌^◌, ◌<◌, Bool, true,
  false, List, [], ◌∷◌, arith,
}
use zonistation_one.Bus.Access.{mask_region}
use zonistation_one.Cpu.Exceptions.{ExceptionCause}
use zonistation_one.Cpu.Fields.{instr_t}
use zonistation_one.Cpu.ICache.{set_line, invalidate}
use zonistation_one.Cpu.LoadStore.{
  cache_isolated, effective_address, load_misaligned, store_misaligned, current_rt_value, op_lw,
  op_lh, op_lhu, op_lb, op_lbu, op_lwl, op_lwr, op_sw, op_sh, op_sb, store_planned, run_plan,
  cpu_store_partial, op_swl, op_swr,
}
use zonistation_one.Cpu.Partial.{PartialStore, lwl_merge, lwr_merge}
use zonistation_one.Cpu.Regs.{cpu_reg}
use zonistation_one.Cpu.Wf.Cop0.{if-IsWf}
use zonistation_one.Cpu.Wf.Core.{IsWord, IsWf, schedule_load-IsWf, exception-IsWf, Keeps}
use zonistation_one.Cpu.Wf.Devices.{EnvIsWf, with_badvaddr-IsWf}
use zonistation_one.Cpu.Wf.Loads.{cpu_load32-IsWf, cpu_load16-IsWf, cpu_load8-IsWf}
use zonistation_one.Cpu.Wf.Stores.{
  interconnect_store32-IsWf, interconnect_store16-IsWf, interconnect_store8-IsWf,
}
use zonistation_one.Machine.{ICacheLine, Cpu, Env}

sign_extend8-IsWord : (v : ℕ) → v < 2 ^ 8 → IsWord (sign_extend8 v)
sign_extend8-IsWord v h = ground arith

sign_extend16-IsWord : (v : ℕ) → v < 2 ^ 16 → IsWord (sign_extend16 v)
sign_extend16-IsWord v h = ground arith

lwl_merge-IsWord :
    (current word off : ℕ) → IsWord current → IsWord word → IsWord (lwl_merge current word off)
unfolding lwl_merge
lwl_merge-IsWord current word off h k = ground arith

lwr_merge-IsWord :
    (current word off : ℕ) → IsWord current → IsWord word → IsWord (lwr_merge current word off)
unfolding lwr_merge
lwr_merge-IsWord current word off h k = ground arith

module _ {D G : Type 0} where
  pub address-IsWord : (cpu : Cpu D G) (i : ℕ) → IsWord (effective_address cpu i)
  address-IsWord cpu i = omega arith

  invalidate-IsWf : {cpu : Cpu D G} (paddr : ℕ) → IsWf cpu → IsWf (invalidate cpu paddr)
  unfolding invalidate set_line
  invalidate-IsWf paddr w = record {
    regs = w.regs;
    flow = w.flow;
    delay = w.delay;
    muldiv = w.muldiv;
    cop0 = w.cop0;
    memory = w.memory;
  }

  pub set_line-IsWf :
      {cpu : Cpu D G} (index : ℕ) (line : ICacheLine) → IsWf cpu → IsWf (set_line cpu index line)
  unfolding set_line
  set_line-IsWf index line w = record {
    regs = w.regs;
    flow = w.flow;
    delay = w.delay;
    muldiv = w.muldiv;
    cop0 = w.cop0;
    memory = w.memory;
  }

  load_misaligned-IsWf :
      {cpu : Cpu D G} {address : ℕ} → IsWf cpu → IsWord address → IsWf (load_misaligned cpu address)
  unfolding load_misaligned
  load_misaligned-IsWf w h =
      exception-IsWf ExceptionCause.load_address_error (with_badvaddr-IsWf w h)

  store_misaligned-IsWf :
      {cpu : Cpu D G} {address : ℕ}
      → IsWf cpu
      → IsWord address
      → IsWf (store_misaligned cpu address)
  unfolding store_misaligned
  store_misaligned-IsWf w h =
      exception-IsWf ExceptionCause.store_address_error (with_badvaddr-IsWf w h)

  current_rt-IsWord : {cpu : Cpu D G} (rt : ℕ) → IsWf cpu → IsWord (current_rt_value cpu rt)
  unfolding current_rt_value
  current_rt-IsWord {cpu} rt w = ground (arith, w.regs.words rt)

module _ {D G : Type 0} {env : Env D G} (ok : EnvIsWf env) where
  pub op_lw-IsWf : Keeps (op_lw env)
  unfolding op_lw
  op_lw-IsWf cpu i w =
      let done = cpu_load32-IsWf ok cpu (effective_address cpu i) w (address-IsWord cpu i) in
      if-IsWf (cache_isolated cpu.sr) w (
        if-IsWf (effective_address cpu i % 4 != 0) (load_misaligned-IsWf w (address-IsWord cpu i))
          (schedule_load-IsWf (instr_t i) done.cpu (done.value)))

  pub op_lh-IsWf : Keeps (op_lh env)
  unfolding op_lh
  op_lh-IsWf cpu i w =
      let done = cpu_load16-IsWf ok cpu (effective_address cpu i) w (address-IsWord cpu i) in
      if-IsWf (cache_isolated cpu.sr) w (
        if-IsWf (effective_address cpu i % 2 != 0) (load_misaligned-IsWf w (address-IsWord cpu i))
          (schedule_load-IsWf (instr_t i) done.cpu (sign_extend16-IsWord _ done.value)))

  pub op_lhu-IsWf : Keeps (op_lhu env)
  unfolding op_lhu
  op_lhu-IsWf cpu i w =
      let done = cpu_load16-IsWf ok cpu (effective_address cpu i) w (address-IsWord cpu i) in
      if-IsWf (cache_isolated cpu.sr) w (
        if-IsWf (effective_address cpu i % 2 != 0) (load_misaligned-IsWf w (address-IsWord cpu i))
          (schedule_load-IsWf (instr_t i) done.cpu (omega (arith, done.value))))

  pub op_lb-IsWf : Keeps (op_lb env)
  unfolding op_lb
  op_lb-IsWf cpu i w =
      let done = cpu_load8-IsWf ok cpu (effective_address cpu i) w in
      if-IsWf (cache_isolated cpu.sr) w
        (schedule_load-IsWf (instr_t i) done.cpu (sign_extend8-IsWord _ done.value))

  pub op_lbu-IsWf : Keeps (op_lbu env)
  unfolding op_lbu
  op_lbu-IsWf cpu i w =
      let done = cpu_load8-IsWf ok cpu (effective_address cpu i) w in
      if-IsWf (cache_isolated cpu.sr) w
        (schedule_load-IsWf (instr_t i) done.cpu (omega (arith, done.value)))

  pub op_lwl-IsWf : Keeps (op_lwl env)
  unfolding op_lwl
  op_lwl-IsWf cpu i w =
      let addr = effective_address cpu i in
      let done = cpu_load32-IsWf ok cpu (addr - addr % 4) w (omega arith) in
      if-IsWf (cache_isolated cpu.sr) w (
        schedule_load-IsWf (instr_t i) done.cpu
          (lwl_merge-IsWord _ _ _ (current_rt-IsWord (instr_t i) w) done.value))

  pub op_lwr-IsWf : Keeps (op_lwr env)
  unfolding op_lwr
  op_lwr-IsWf cpu i w =
      let addr = effective_address cpu i in
      let done = cpu_load32-IsWf ok cpu (addr - addr % 4) w (omega arith) in
      if-IsWf (cache_isolated cpu.sr) w (
        schedule_load-IsWf (instr_t i) done.cpu
          (lwr_merge-IsWord _ _ _ (current_rt-IsWord (instr_t i) w) done.value))

  pub op_sw-IsWf : Keeps (op_sw env)
  unfolding op_sw
  op_sw-IsWf cpu i w =
      if-IsWf (cache_isolated cpu.sr) (invalidate-IsWf (mask_region (effective_address cpu i)) w) (
        if-IsWf (effective_address cpu i % 4 != 0) (store_misaligned-IsWf w (address-IsWord cpu i))
          (interconnect_store32-IsWf ok cpu (effective_address cpu i) (cpu_reg cpu (instr_t i)) w
            (address-IsWord cpu i)))

  pub op_sh-IsWf : Keeps (op_sh env)
  unfolding op_sh
  op_sh-IsWf cpu i w =
      if-IsWf (cache_isolated cpu.sr) (invalidate-IsWf (mask_region (effective_address cpu i)) w) (
        if-IsWf (effective_address cpu i % 2 != 0) (store_misaligned-IsWf w (address-IsWord cpu i))
          (interconnect_store16-IsWf ok cpu (effective_address cpu i)
            (u16 (cpu_reg cpu (instr_t i))) w (address-IsWord cpu i)))

  pub op_sb-IsWf : Keeps (op_sb env)
  unfolding op_sb
  op_sb-IsWf cpu i w =
      if-IsWf (cache_isolated cpu.sr) (invalidate-IsWf (mask_region (effective_address cpu i)) w) (
        interconnect_store8-IsWf ok cpu (effective_address cpu i) (u8 (cpu_reg cpu (instr_t i))) w
          (omega arith))

  store_planned-IsWf :
      (cpu : Cpu D G) (a : ℕ) (p : PartialStore) → IsWf cpu → IsWf (store_planned env cpu a p)
  unfolding store_planned
  store_planned-IsWf cpu a p w =
      if-IsWf (p.size == 1)
        (interconnect_store8-IsWf ok cpu (add32 a p.off) (u8 p.value) w (omega arith))
        (if-IsWf (p.size == 2)
          (interconnect_store16-IsWf ok cpu (add32 a p.off) (u16 p.value) w (omega arith))
          (interconnect_store32-IsWf ok cpu (add32 a p.off) p.value w (omega arith)))

  run_plan-IsWf :
      (cpu : Cpu D G) (a : ℕ) (ps : List PartialStore) → IsWf cpu → IsWf (run_plan env cpu a ps)
  unfolding run_plan
  run_plan-IsWf cpu a [] w = w
  run_plan-IsWf cpu a (p ∷ ps) w =
      run_plan-IsWf (store_planned env cpu a p) a ps (store_planned-IsWf cpu a p w)

  store_partial-IsWf :
      (cpu : Cpu D G) (addr value : ℕ) (left : Bool)
      → IsWf cpu
      → IsWord addr
      → IsWf (cpu_store_partial env cpu addr value left)
  unfolding cpu_store_partial
  store_partial-IsWf cpu addr value left w h =
      if-IsWf (ltb (mask_region (addr - addr % 4)) 0x80_0000)
        (interconnect_store32-IsWf ok cpu (addr - addr % 4) _ w (omega arith))
        (run_plan-IsWf cpu (addr - addr % 4) _ w)

  pub op_swl-IsWf : Keeps (op_swl env)
  unfolding op_swl
  op_swl-IsWf cpu i w = if-IsWf (cache_isolated cpu.sr) w (
      store_partial-IsWf cpu (effective_address cpu i) (cpu_reg cpu (instr_t i)) true w
        (address-IsWord cpu i))

  pub op_swr-IsWf : Keeps (op_swr env)
  unfolding op_swr
  op_swr-IsWf cpu i w = if-IsWf (cache_isolated cpu.sr) w (
      store_partial-IsWf cpu (effective_address cpu i) (cpu_reg cpu (instr_t i)) false w
        (address-IsWord cpu i))
