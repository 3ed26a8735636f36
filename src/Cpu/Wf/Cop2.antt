-- ===== src/Cpu/Wf/Cop2.antt =====
-- The geometry coprocessor instructions of cpu_instructions.c.
use zonistation_one.Base.{◌==◌, bit}
use zonistation_one.Cpu.Cop2.{cop2_usable, gte_command, gte_move, op_cop2, op_lwc2, op_swc2}
use zonistation_one.Cpu.Exceptions.{ExceptionCause}
use zonistation_one.Cpu.Fields.{instr_s, instr_t}
use zonistation_one.Cpu.LoadStore.{effective_address}
use zonistation_one.Cpu.Wf.Cop0.{if-IsWf, op_illegal-IsWf}
use zonistation_one.Cpu.Wf.Core.{IsWf, schedule_load-IsWf, exception-IsWf, Keeps}
use zonistation_one.Cpu.Wf.Devices.{EnvIsWf}
use zonistation_one.Cpu.Wf.LoadStore.{address-IsWord}
use zonistation_one.Cpu.Wf.Loads.{cpu_load32-IsWf}
use zonistation_one.Cpu.Wf.MulDiv.{stall_until-IsWf}
use zonistation_one.Cpu.Wf.Stores.{interconnect_store32-IsWf}
use zonistation_one.Machine.{Cpu, Env}

module _ {D G : Type 0} where
  with_gte-IsWf : {cpu : Cpu D G} {g : G} → IsWf cpu → IsWf (record cpu { gte = g })
  with_gte-IsWf w = record {
    regs = w.regs;
    flow = w.flow;
    delay = w.delay;
    muldiv = w.muldiv;
    cop0 = w.cop0;
    memory = w.memory;
  }

module _ {D G : Type 0} {env : Env D G} (ok : EnvIsWf env) where
  gte_command-IsWf : Keeps (gte_command env)
  unfolding gte_command
  gte_command-IsWf cpu i w =
      let ready = stall_until-IsWf cpu.gte_completion_tick w in
      record {
        regs = ready.regs;
        flow = ready.flow;
        delay = ready.delay;
        muldiv = ready.muldiv;
        cop0 = ready.cop0;
        memory = ready.memory;
      }

  gte_move-IsWf : Keeps (gte_move env)
  unfolding gte_move
  gte_move-IsWf cpu i w =
      let ready = stall_until-IsWf cpu.gte_completion_tick w in
      if-IsWf (instr_s i == 0) (schedule_load-IsWf (instr_t i) ready (ok.gte_data_word _ _)) (
        if-IsWf (instr_s i == 2) (schedule_load-IsWf (instr_t i) ready (ok.gte_control_word _ _)) (
          if-IsWf (instr_s i == 4) (with_gte-IsWf w)
            (if-IsWf (instr_s i == 6) (with_gte-IsWf w) (op_illegal-IsWf cpu i w))))

  pub op_cop2-IsWf : Keeps (op_cop2 env)
  unfolding op_cop2
  op_cop2-IsWf cpu i w =
      if-IsWf (cop2_usable cpu.sr)
        (if-IsWf (bit (instr_s i) 4) (gte_command-IsWf cpu i w) (gte_move-IsWf cpu i w))
        (exception-IsWf ExceptionCause.coprocessor_error w)

  pub op_lwc2-IsWf : Keeps (op_lwc2 env)
  unfolding op_lwc2
  op_lwc2-IsWf cpu i w =
      let done = cpu_load32-IsWf ok cpu (effective_address cpu i) w (address-IsWord cpu i) in
      if-IsWf (cop2_usable cpu.sr) (with_gte-IsWf done.cpu)
        (exception-IsWf ExceptionCause.coprocessor_error w)

  pub op_swc2-IsWf : Keeps (op_swc2 env)
  unfolding op_swc2
  op_swc2-IsWf cpu i w =
      if-IsWf (cop2_usable cpu.sr)
        (interconnect_store32-IsWf ok cpu (effective_address cpu i) _ w (address-IsWord cpu i))
        (exception-IsWf ExceptionCause.coprocessor_error w)
