-- ===== src/Cpu/Step.antt =====
-- cpu_execution.c: one instruction (`cpu_step`), and the loop of a frame.
use zonistation_one.Base.{
  ltb, leb, ◌==◌, ◌!=◌, if◌then◌else◌, u64, add32, sub32, bit, set_bit, clear_bit, lt_signed, ℕ,
  zero, suc, ◌+◌, ◌/◌, ◌%◌, ◌^◌, bit_and, Bool, true, false, ◌&&◌, ◌||◌, Option, none, some,
}
use zonistation_one.Base.Map.{update}
use zonistation_one.Cpu.Decode.{decode_and_execute}
use zonistation_one.Cpu.Exceptions.{cpu_exception, interrupt, load_address_error}
use zonistation_one.Cpu.ICache.{cpu_icache_fetch}
use zonistation_one.Cpu.Regs.{cpu_retire_load_delay}
use zonistation_one.Machine.{Interconnect, Cpu, Env}

abbrev pub exec_trace_size : ℕ
exec_trace_size = 1024

module _ {D G : Type 0} where
  -- Cause bit 10 follows I_STAT & I_MASK.
  unfoldable pub update_ip2 : Cpu D G → Cpu D G
  update_ip2 cpu = record cpu {
    cause =
        if bit_and cpu.inter.irq_status cpu.inter.irq_mask != 0
        then set_bit cpu.cause 10
        else clear_bit cpu.cause 10;
  }

  unfoldable pub has_interrupt : Cpu D G → Bool
  has_interrupt cpu = bit cpu.sr 0 && bit_and (bit_and cpu.sr cpu.cause) 0xFF00 != 0

  unfoldable pub begin_step : Cpu D G → Cpu D G
  begin_step cpu = record cpu {
    exception_pending = false;
    current_pc = cpu.pc;
    in_delay_slot = cpu.branch_taken;
  }

  unfoldable pub record_trace : Cpu D G → ℕ → Cpu D G
  record_trace cpu instruction = if cpu.exec_trace_frozen then cpu else record cpu {
    exec_trace_pc = update cpu.exec_trace_pc cpu.exec_trace_head cpu.current_pc;
    exec_trace_instr = update cpu.exec_trace_instr cpu.exec_trace_head instruction;
    exec_trace_head = (cpu.exec_trace_head + 1) % exec_trace_size;
    exec_trace_count =
        if ltb cpu.exec_trace_count exec_trace_size
        then cpu.exec_trace_count + 1
        else cpu.exec_trace_count;
  }

  unfoldable pub advance_pc : Cpu D G → Cpu D G
  advance_pc cpu = record cpu {
    branch_taken = false;
    pc = cpu.next_pc;
    next_pc = add32 cpu.next_pc 4;
  }

module _ {D G : Type 0} (env : Env D G) where
  -- The interrupt is put off while the next instruction is a GTE command.
  unfoldable pub check_pending_interrupt : Cpu D G → Bool × Cpu D G
  check_pending_interrupt cpu =
      let updated = update_ip2 cpu in
      if has_interrupt updated
      then (let (next_instr, fetched) = cpu_icache_fetch env updated updated.current_pc false in
          if next_instr / 2 ^ 25 == 0x25
          then (false, fetched)
          else (true, cpu_exception fetched interrupt))
      else (false, updated)

  -- The breakpoint test: `true` stops the step.
  unfoldable pub check_debugger : Cpu D G → Bool × Cpu D G
  check_debugger cpu =
      if cpu.inter.breakpoint_count != 0 || cpu.inter.step_skip_bp || cpu.inter.paused
      then if cpu.inter.step_skip_bp
        then (false, record cpu { inter = record (cpu.inter) { step_skip_bp = false } })
        else (let inter' = env.check_breakpoint cpu in
            (inter'.paused, record cpu { inter = inter' }))
      else (false, cpu)

  -- The capture of the BIOS calls at A0h, B0h and C0h: `true` means that the call was emulated.
  unfoldable pub check_syscall : Cpu D G → Bool × Cpu D G
  check_syscall cpu =
      if cpu.current_pc == 0xA0
      then env.handle_a0_syscall cpu
      else if cpu.current_pc == 0xB0
      then (false, env.handle_b0_syscall cpu)
      else if cpu.current_pc == 0xC0
      then (false, env.handle_c0_syscall cpu)
      else (false, cpu)

  -- Return to the caller after an emulated call.
  unfoldable pub return_from_call : Cpu D G → Cpu D G
  return_from_call cpu =
      let retired = cpu_retire_load_delay cpu in
      record retired {
        pc = retired.regs 31;
        next_pc = add32 (retired.regs 31) 4;
        branch_taken = true;
      }

  -- The load pipeline moves on, R0 is cleared, the cycles are charged.
  unfoldable pub retire : Cpu D G → Cpu D G
  retire cpu =
      let retired = cpu_retire_load_delay cpu in
      let cost = add32 1 retired.inter.cpu_mem_stall_cycles in
      record retired {
        regs = update retired.regs 0 0;
        inter = record (retired.inter) {
          cpu_mem_stall_cycles = 0;
          cpu_cycle_counter = add32 retired.inter.cpu_cycle_counter cost;
          instructions_retired = u64 (retired.inter.instructions_retired + 1);
          downcount = sub32 retired.inter.downcount cost;
        };
      }

  -- Cycles until the next scheduled event, at least 1.
  unfoldable pub recalculated_downcount : Interconnect D → ℕ
  recalculated_downcount inter =
      let until = sub32 inter.evq_next_cycle inter.cpu_cycle_counter in
      if inter.evq_next_cycle != 0xFFFF_FFFF && lt_signed 0 until then until else 1

  unfoldable pub dispatch_events : Cpu D G → Cpu D G
  dispatch_events cpu =
      if lt_signed 0 cpu.inter.downcount
      then cpu
      else let inter' = env.dispatch_due_events cpu.inter in
        record cpu { inter = record inter' { downcount = recalculated_downcount inter' } }

  unfoldable pub execute : Cpu D G → ℕ → Cpu D G
  execute cpu instruction =
      let executed = decode_and_execute env cpu instruction in
      if executed.exception_pending then executed else dispatch_events (retire executed)

  unfoldable pub after_fetch : Cpu D G → ℕ → Cpu D G
  after_fetch cpu instruction =
      let advanced = advance_pc (record_trace cpu instruction) in
      let (stop, debugged) = check_debugger advanced in
      let (hle, called) = check_syscall debugged in
      if stop then debugged else if hle then return_from_call called else execute called instruction

  unfoldable pub cpu_step : Cpu D G → Cpu D G
  cpu_step cpu =
      let (taken, checked) = check_pending_interrupt (begin_step cpu) in
      if taken
      then checked
      else if checked.current_pc % 4 != 0
      then cpu_exception checked load_address_error
      else let (instruction, fetched) = cpu_icache_fetch env checked checked.current_pc true in
        after_fetch fetched instruction

  -- The loop of a frame on fuel; the Boolean is what `cpu_run_frame` returns.
  unfoldable pub cpu_run_frame : ℕ → ℕ → ℕ → Cpu D G → Option (Bool × Cpu D G)
  cpu_run_frame zero start_cycle cap_cycles cpu = none
  cpu_run_frame (suc fuel) start_cycle cap_cycles cpu =
      let stepped = cpu_step cpu in
      let rest = cpu_run_frame fuel start_cycle cap_cycles stepped in
      if cpu.inter.frame_complete
      then some (true, cpu)
      else if stepped.inter.paused
      then some (false, stepped)
      else if leb cap_cycles (sub32 stepped.inter.cpu_cycle_counter start_cycle)
      then some (true, stepped)
      else rest
