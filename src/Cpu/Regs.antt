-- ===== src/Cpu/Regs.antt =====
-- Register access and the load delay: the inline helpers of include/cpu.h, cpu_registers.c, and
-- the two pipeline helpers of cpu_execution.c.
use zonistation_one.Base.{◌==◌, ◌!=◌, if◌then◌else◌, u32, ◌<<<◌, ℕ, ◌+◌}
use zonistation_one.Base.Map.{update}
use zonistation_one.Machine.{Cpu}

module _ {D G : Type 0} where
  unfoldable pub cpu_reg : Cpu D G → ℕ → ℕ
  cpu_reg cpu index = cpu.regs index

  -- A write to R0 is dropped; a write to the target of a load in flight cancels it.
  unfoldable pub cpu_set_reg : Cpu D G → ℕ → ℕ → Cpu D G
  cpu_set_reg cpu index value =
      if index != 0
      then record cpu {
        regs = update cpu.regs index value;
        delay_load_reg = if index == cpu.delay_load_reg then 0 else cpu.delay_load_reg;
      }
      else cpu

  unfoldable pub cpu_branch : Cpu D G → ℕ → Cpu D G
  cpu_branch cpu offset_se = record cpu {
    next_pc = u32 (cpu.current_pc + 4 + u32 (offset_se <<< 2));
  }

  -- The load of the previous instruction lands, and the one just issued takes its place.
  unfoldable pub cpu_retire_load_delay : Cpu D G → Cpu D G
  cpu_retire_load_delay cpu = record cpu {
    regs =
        if cpu.delay_load_reg != 0
        then update cpu.regs cpu.delay_load_reg cpu.delay_load_value
        else cpu.regs;
    delay_load_reg = cpu.load_reg_idx;
    delay_load_value = cpu.load_value;
    load_reg_idx = 0;
  }

  unfoldable pub flush_delayed : Cpu D G → Cpu D G
  flush_delayed cpu =
      if cpu.delay_load_reg != 0
      then record cpu {
        regs = update cpu.regs cpu.delay_load_reg cpu.delay_load_value;
        delay_load_reg = 0;
      }
      else cpu

  unfoldable pub flush_issued : Cpu D G → Cpu D G
  flush_issued cpu =
      if cpu.load_reg_idx != 0
      then record cpu { regs = update cpu.regs cpu.load_reg_idx cpu.load_value; load_reg_idx = 0 }
      else cpu

  -- Both slots are drained on the way into an exception handler.
  unfoldable pub cpu_flush_load_delay : Cpu D G → Cpu D G
  unfolding flush_delayed flush_issued
  cpu_flush_load_delay cpu = flush_issued (flush_delayed cpu)

  -- `cpu->load_reg_idx = rt; cpu->load_value = value;`
  unfoldable pub schedule_load : Cpu D G → ℕ → ℕ → Cpu D G
  schedule_load cpu rt value = record cpu { load_reg_idx = rt; load_value = value }
