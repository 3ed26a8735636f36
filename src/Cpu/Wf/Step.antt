-- ===== src/Cpu/Wf/Step.antt =====
-- A step of cpu_execution.c.
use zonistation_one.Base.{◌==◌, ◌!=◌, lt_signed, ℕ, ◌/◌, ◌%◌, ◌^◌, true, false, ◌||◌, arith}
use zonistation_one.Base.Map.{update}
use zonistation_one.Cpu.Decode.{decode_and_execute}
use zonistation_one.Cpu.Exceptions.{ExceptionCause}
use zonistation_one.Cpu.ICache.{cpu_icache_fetch}
use zonistation_one.Cpu.Regs.{cpu_retire_load_delay}
use zonistation_one.Cpu.Step.{
  update_ip2, has_interrupt, begin_step, record_trace, advance_pc, check_pending_interrupt,
  check_debugger, check_syscall, return_from_call, retire, dispatch_events, execute, after_fetch,
  cpu_step,
}
use zonistation_one.Cpu.Wf.Cop0.{if-IsWf}
use zonistation_one.Cpu.Wf.Core.{
  RegsIsWf, IsWf, retire_load-IsWf, exception-IsWf, Keeps, AfterIsWf, if-AfterIsWf,
}
use zonistation_one.Cpu.Wf.Decode.{decode_and_execute-IsWf}
use zonistation_one.Cpu.Wf.Devices.{EnvIsWf, with_inter-IsWf}
use zonistation_one.Cpu.Wf.Fetch.{icache_fetch-IsWf}
use zonistation_one.Machine.{Cpu, Env}

module _ {D G : Type 0} {env : Env D G} (ok : EnvIsWf env) where
  begin_step-IsWf : {cpu : Cpu D G} → IsWf cpu → IsWf (begin_step cpu)
  unfolding begin_step
  begin_step-IsWf w = record {
    regs = w.regs;
    flow = (w.flow.0, w.flow.1, w.flow.0);
    delay = w.delay;
    muldiv = w.muldiv;
    cop0 = w.cop0;
    memory = w.memory;
  }

  ip2-IsWf : {cpu : Cpu D G} → IsWf cpu → IsWf (update_ip2 cpu)
  unfolding update_ip2
  ip2-IsWf {cpu} w = record {
    regs = w.regs;
    flow = w.flow;
    delay = w.delay;
    muldiv = w.muldiv;
    cop0 = ground (arith, w.cop0);
    memory = w.memory;
  }

  check_interrupt-IsWf : {cpu : Cpu D G} → IsWf cpu → AfterIsWf (check_pending_interrupt env cpu)
  unfolding check_pending_interrupt
  check_interrupt-IsWf {cpu} w =
      let updated = ip2-IsWf w in
      let fetched =
        icache_fetch-IsWf ok (update_ip2 cpu) (update_ip2 cpu).current_pc false updated
          updated.flow.2 in
      if-AfterIsWf (has_interrupt (update_ip2 cpu))
        (if-AfterIsWf
          ((cpu_icache_fetch env (update_ip2 cpu) (update_ip2 cpu).current_pc false).0 / 2 ^ 25
            == 0x25)
          (record { cpu = fetched.cpu })
          (record { cpu = exception-IsWf ExceptionCause.interrupt fetched.cpu }))
        (record { cpu = updated })

  trace-IsWf : {cpu : Cpu D G} (i : ℕ) → IsWf cpu → IsWf (record_trace cpu i)
  unfolding record_trace
  trace-IsWf {cpu} i w = if-IsWf cpu.exec_trace_frozen w (record {
    regs = w.regs;
    flow = w.flow;
    delay = w.delay;
    muldiv = w.muldiv;
    cop0 = w.cop0;
    memory = w.memory;
  })

  advance-IsWf : {cpu : Cpu D G} → IsWf cpu → IsWf (advance_pc cpu)
  unfolding advance_pc
  advance-IsWf w = record {
    regs = w.regs;
    flow = (w.flow.1, omega arith, w.flow.2);
    delay = w.delay;
    muldiv = w.muldiv;
    cop0 = w.cop0;
    memory = w.memory;
  }

  debugger-IsWf : (cpu : Cpu D G) → IsWf cpu → AfterIsWf (check_debugger env cpu)
  unfolding check_debugger
  debugger-IsWf cpu w =
      let inter = cpu.inter in
      if-AfterIsWf (inter.breakpoint_count != 0 || inter.step_skip_bp || inter.paused)
        (if-AfterIsWf inter.step_skip_bp
          (record {
            cpu = with_inter-IsWf w (record {
              ram = w.memory.ram;
              scratchpad = w.memory.scratchpad;
              bios = w.memory.bios;
            });
          })
          (record { cpu = with_inter-IsWf w (ok.breakpoint_mem cpu w.memory) }))
        (record { cpu = w })

  syscall-IsWf : (cpu : Cpu D G) → IsWf cpu → AfterIsWf (check_syscall env cpu)
  unfolding check_syscall
  syscall-IsWf cpu w =
      if-AfterIsWf (cpu.current_pc == 0xA0) (record { cpu = ok.a0_wf cpu w })
        (if-AfterIsWf (cpu.current_pc == 0xB0) (record { cpu = ok.b0_wf cpu w })
          (if-AfterIsWf (cpu.current_pc == 0xC0) (record { cpu = ok.c0_wf cpu w })
            (record { cpu = w })))

  return-IsWf : {cpu : Cpu D G} → IsWf cpu → IsWf (return_from_call env cpu)
  unfolding return_from_call
  return-IsWf w =
      let retired = retire_load-IsWf w in
      record {
        regs = retired.regs;
        flow = (retired.regs.words 31, omega arith, retired.flow.2);
        delay = retired.delay;
        muldiv = retired.muldiv;
        cop0 = retired.cop0;
        memory = retired.memory;
      }

  cleared_regs : (regs : ℕ → ℕ) → RegsIsWf regs → RegsIsWf (update regs 0 0)
  cleared_regs regs w = record { words = λ r. ground (arith, w.words r); zero_reg = ground arith }

  retire-IsWf : {cpu : Cpu D G} → IsWf cpu → IsWf (retire env cpu)
  unfolding retire
  retire-IsWf {cpu} w =
      let retired = retire_load-IsWf w in
      record {
        regs = cleared_regs (cpu_retire_load_delay cpu).regs retired.regs;
        flow = retired.flow;
        delay = retired.delay;
        muldiv = retired.muldiv;
        cop0 = retired.cop0;
        memory = record {
          ram = retired.memory.ram;
          scratchpad = retired.memory.scratchpad;
          bios = retired.memory.bios;
        };
      }

  dispatch_events-IsWf : {cpu : Cpu D G} → IsWf cpu → IsWf (dispatch_events env cpu)
  unfolding dispatch_events
  dispatch_events-IsWf {cpu} w =
      let m = ok.dispatch_mem cpu.inter w.memory in
      if-IsWf (lt_signed 0 cpu.inter.downcount) w
        (with_inter-IsWf w (record { ram = m.ram; scratchpad = m.scratchpad; bios = m.bios }))

  execute-IsWf : Keeps (execute env)
  unfolding execute
  execute-IsWf cpu i w =
      let executed = decode_and_execute-IsWf ok cpu i w in
      if-IsWf (decode_and_execute env cpu i).exception_pending executed
        (dispatch_events-IsWf (retire-IsWf executed))

  after_fetch-IsWf : Keeps (after_fetch env)
  unfolding after_fetch
  after_fetch-IsWf cpu i w =
      let advanced = advance-IsWf (trace-IsWf i w) in
      let debugged = debugger-IsWf (advance_pc (record_trace cpu i)) advanced in
      let called =
        syscall-IsWf (check_debugger env (advance_pc (record_trace cpu i))).1 debugged.cpu in
      if-IsWf _ debugged.cpu (if-IsWf _ (return-IsWf called.cpu) (execute-IsWf _ i called.cpu))

  -- A step of the CPU, whatever it fetches and whether or not it takes an interrupt, traps,
  -- stops at a breakpoint or returns from an emulated call, keeps every register a 32-bit word,
  -- R0 zero, and the memory an array of bytes.
  pub cpu_step-IsWf : (cpu : Cpu D G) → IsWf cpu → IsWf (cpu_step env cpu)
  unfolding cpu_step
  cpu_step-IsWf cpu w =
      let checked = check_interrupt-IsWf (begin_step-IsWf w) in
      let state = (check_pending_interrupt env (begin_step cpu)).1 in
      if-IsWf _ checked.cpu (
        if-IsWf (state.current_pc % 4 != 0)
          (exception-IsWf ExceptionCause.load_address_error checked.cpu)
          (after_fetch-IsWf _ _
            (icache_fetch-IsWf ok state state.current_pc true checked.cpu checked.cpu.flow.2).cpu))
