-- ===== src/Cpu/Cop2.antt =====
-- cpu_instructions.c: moves to and from the geometry coprocessor, and its commands.
use zonistation_one.Base.{◌==◌, if◌then◌else◌, add32, bit, ℕ, Bool}
use zonistation_one.Bus.Access.{interconnect_store32, cpu_load32}
use zonistation_one.Cpu.Cop0.{op_illegal}
use zonistation_one.Cpu.Exceptions.{cpu_exception, coprocessor_error}
use zonistation_one.Cpu.Fields.{instr_s, instr_t, instr_d}
use zonistation_one.Cpu.LoadStore.{effective_address}
use zonistation_one.Cpu.MulDiv.{stall_until}
use zonistation_one.Cpu.Regs.{cpu_reg, schedule_load}
use zonistation_one.Machine.{Cpu, Env}

abbrev pub cop2_usable : ℕ → Bool
cop2_usable sr = bit sr 30

module _ {D G : Type 0} (env : Env D G) where
  -- A command waits for the one in flight, then runs.
  unfoldable pub gte_command : Cpu D G → ℕ → Cpu D G
  gte_command cpu i =
      let ready = stall_until cpu cpu.gte_completion_tick in
      let (cycles, gte') = env.gte_execute_instruction ready.gte i in
      record ready { gte = gte'; gte_completion_tick = add32 ready.inter.cpu_cycle_counter cycles }

  unfoldable pub gte_move : Cpu D G → ℕ → Cpu D G
  gte_move cpu i =
      let rs = instr_s i in
      let rt = instr_t i in
      let rd = instr_d i in
      let ready = stall_until cpu cpu.gte_completion_tick in
      if rs == 0
      then schedule_load ready rt (env.gte_read_data_register ready.gte rd)
      else if rs == 2
      then schedule_load ready rt (env.gte_read_control_register ready.gte rd)
      else if rs == 4
      then record cpu { gte = env.gte_write_data_register cpu.gte rd (cpu_reg cpu rt) }
      else if rs == 6
      then record cpu { gte = env.gte_write_control_register cpu.gte rd (cpu_reg cpu rt) }
      else op_illegal cpu i

  unfoldable pub op_cop2 : Cpu D G → ℕ → Cpu D G
  op_cop2 cpu i =
      if cop2_usable cpu.sr
      then if bit (instr_s i) 4 then gte_command cpu i else gte_move cpu i
      else cpu_exception cpu coprocessor_error

  -- There is no alignment test here: a misaligned address raises its exception in the bus, which
  -- returns 0, and the register is written all the same.
  unfoldable pub op_lwc2 : Cpu D G → ℕ → Cpu D G
  op_lwc2 cpu i =
      if cop2_usable cpu.sr
      then (let (v, after) = cpu_load32 env cpu (effective_address cpu i) in
          record after { gte = env.gte_write_data_register after.gte (instr_t i) v })
      else cpu_exception cpu coprocessor_error

  unfoldable pub op_swc2 : Cpu D G → ℕ → Cpu D G
  op_swc2 cpu i =
      if cop2_usable cpu.sr
      then interconnect_store32 env cpu (effective_address cpu i)
          (env.gte_read_data_register cpu.gte (instr_t i))
      else cpu_exception cpu coprocessor_error
