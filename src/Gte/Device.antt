-- ===== src/Gte/Device.antt =====
-- The geometry coprocessor as the CPU sees it (`cpu->gte` in src/cpu/cpu_instructions.c): the
-- operations of gte.c in place of the environment's own.
use zonistation_one.Base.{u32, ℕ, arith}
use zonistation_one.Cpu.Step.{cpu_step}
use zonistation_one.Cpu.Wf.Core.{IsWf}
use zonistation_one.Cpu.Wf.Devices.{EnvIsWf}
use zonistation_one.Cpu.Wf.Step.{cpu_step-IsWf}
use zonistation_one.Gte.Execute.{gte_execute_instruction}
use zonistation_one.Gte.Registers.{
  gte_read_data_register, gte_read_control_register, gte_write_data_register,
  gte_write_control_register,
}
use zonistation_one.Gte.State.{Gte}
use zonistation_one.Gte.Wf.Access.{
  gte_write_data_register-GteIsWf, gte_write_control_register-GteIsWf, gte_read_data_register-lt,
  gte_read_control_register-lt,
}
use zonistation_one.Gte.Wf.Commands.{gte_execute_instruction-GteIsWf}
use zonistation_one.Gte.Wf.Core.{GteIsWf}
use zonistation_one.Machine.{Cpu, Env}

-- The registers together with their invariant.
pub record Geometry : Type 0 where
  pub registers : Gte
  pub invariant : GteIsWf registers

-- The casts to and from `int32_t` keep a 32-bit value.
abbrev pub gte_execute : Geometry → ℕ → ℕ × Geometry
gte_execute g i = (
  (gte_execute_instruction g.registers i).0,
  record {
    registers = (gte_execute_instruction g.registers i).1;
    invariant = gte_execute_instruction-GteIsWf g.registers i g.invariant;
  },
)

abbrev pub write_data : Geometry → ℕ → ℕ → Geometry
write_data g r v = record {
  registers = gte_write_data_register g.registers r (u32 v);
  invariant = gte_write_data_register-GteIsWf g.registers r (u32 v) (omega arith) g.invariant;
}

abbrev pub write_control : Geometry → ℕ → ℕ → Geometry
write_control g r v = record {
  registers = gte_write_control_register g.registers r (u32 v);
  invariant = gte_write_control_register-GteIsWf g.registers r (u32 v) (omega arith) g.invariant;
}

module _ {D : Type 0} where
  unfoldable pub with_gte : Env D Geometry → Env D Geometry
  with_gte env = record env {
    gte_execute_instruction = gte_execute;
    gte_read_data_register = λ g r. gte_read_data_register g.registers r;
    gte_read_control_register = λ g r. gte_read_control_register g.registers r;
    gte_write_data_register = write_data;
    gte_write_control_register = write_control;
  }

  with_gte-EnvIsWf : {env : Env D Geometry} → EnvIsWf env → EnvIsWf (with_gte env)
  unfolding with_gte
  with_gte-EnvIsWf ok = record {
    hw_read_word = ok.hw_read_word;
    hw_read_mem = ok.hw_read_mem;
    hw_write_mem = ok.hw_write_mem;
    read_watchpoint_mem = ok.read_watchpoint_mem;
    write_watchpoint_mem = ok.write_watchpoint_mem;
    tty_mem = ok.tty_mem;
    gte_data_word = λ g r. gte_read_data_register-lt g.registers r g.invariant;
    gte_control_word = λ g r. gte_read_control_register-lt g.registers r g.invariant;
    a0_wf = ok.a0_wf;
    b0_wf = ok.b0_wf;
    c0_wf = ok.c0_wf;
    breakpoint_mem = ok.breakpoint_mem;
    dispatch_mem = ok.dispatch_mem;
  }

  -- A step of the CPU with this coprocessor keeps the CPU well formed.
  cpu_step-with_gte-IsWf :
      {env : Env D Geometry} (cpu : Cpu D Geometry)
      → EnvIsWf env
      → IsWf cpu
      → IsWf (cpu_step (with_gte env) cpu)
  cpu_step-with_gte-IsWf cpu ok w = cpu_step-IsWf (with_gte-EnvIsWf ok) cpu w
