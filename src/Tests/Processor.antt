-- ===== src/Tests/Processor.antt =====
-- Runs of src/cpu/ on the concrete machine.
use zonistation_one.Base.{
  ◌==◌, if◌then◌else◌, add32, sub32, bit, lt_signed, ℕ, ◌+◌, ◌-◌, ◌*◌, ◌/◌, ◌%◌, ◌^◌, ◌<◌, max, ◌≡◌,
  refl, ◌⊎◌, true, arith,
}
use zonistation_one.Base.Int.{◌+ℤ◌, ◌-ℤ◌, signed32, ◌*ℤ◌}
use zonistation_one.Bus.Access.{mask_region}
use zonistation_one.Bus.Bytes.{load_le32}
use zonistation_one.Cpu.Alu.{op_addiu, op_addi, op_add, op_sub, op_addu, op_subu}
use zonistation_one.Cpu.Arithmetic.{fits, op_add_lem}
use zonistation_one.Cpu.CacheHit.{cpu_icache_fetch_lem}
use zonistation_one.Cpu.Cop0.{op_rfe}
use zonistation_one.Cpu.Division.{magnitude, op_div_lem}
use zonistation_one.Cpu.ExceptionReturn.{op_rfe-cpu_exception, cpu_exception_lem}
use zonistation_one.Cpu.Exceptions.{ExceptionCause, cause_code, cpu_exception}
use zonistation_one.Cpu.Fields.{instr_s, instr_t, instr_imm_se}
use zonistation_one.Cpu.ICache.{cpu_icache_fetch}
use zonistation_one.Cpu.Latency.{cycles_later, op_mflo-op_multu, op_mflo-cycles_later}
use zonistation_one.Cpu.LoadDelay.{load_delay_lem, flush_load_delay_lem}
use zonistation_one.Cpu.LoadPair.{op_lwl-op_lwr}
use zonistation_one.Cpu.LoadStore.{op_lwl, op_lwr, op_swl, op_swr}
use zonistation_one.Cpu.MulDiv.{op_div, op_multu, op_mflo, op_mfhi}
use zonistation_one.Cpu.Partial.{cpu_swl_merge, cpu_swr_merge}
use zonistation_one.Cpu.Regs.{
  cpu_reg, cpu_set_reg, cpu_retire_load_delay, cpu_flush_load_delay, schedule_load,
}
use zonistation_one.Cpu.Step.{cpu_step, retire, dispatch_events}
use zonistation_one.Cpu.StorePart.{op_swl-cpu_swl_merge}
use zonistation_one.Cpu.Timing.{dispatch_events_lem}
use zonistation_one.Cpu.Wf.Core.{IsWf}
use zonistation_one.Cpu.Wf.Step.{cpu_step-IsWf}
use zonistation_one.Machine.{Cpu}
use zonistation_one.Tests.{
  quiet_devices, quiet_devices-IsWf, pattern_bytes, bus, machine, machine-IsWf,
}

cpu_step-IsWf_example : IsWf (cpu_step quiet_devices machine)
cpu_step-IsWf_example = cpu_step-IsWf (quiet_devices-IsWf Unit) machine (machine-IsWf tt)

load_delay_lem_example :
    (cpu_reg (cpu_retire_load_delay (schedule_load machine 4 9)) 4
      ≡ cpu_reg (cpu_retire_load_delay machine) 4)
    × (cpu_reg (cpu_retire_load_delay (cpu_retire_load_delay (schedule_load machine 4 9))) 4 ≡ 9)
    × (cpu_reg
          (cpu_retire_load_delay
            (cpu_set_reg (cpu_retire_load_delay (schedule_load machine 4 9)) 4 3))
          4
        ≡ 3)
load_delay_lem_example = load_delay_lem machine 4 9 3 (omega arith)

flush_load_delay_lem_example :
    (cpu_reg (cpu_flush_load_delay (schedule_load machine 4 9)) 4
      ≡ cpu_reg (cpu_retire_load_delay (cpu_retire_load_delay (schedule_load machine 4 9))) 4)
    × ((cpu_flush_load_delay (schedule_load machine 4 9)).delay_load_reg ≡ 0)
    × ((cpu_flush_load_delay (schedule_load machine 4 9)).load_reg_idx ≡ 0)
flush_load_delay_lem_example = flush_load_delay_lem (schedule_load machine 4 9) 4

op_rfe-cpu_exception_example :
    ((cpu_exception machine ExceptionCause.syscall).sr % 4 ≡ 0)
    × ((op_rfe (cpu_exception machine ExceptionCause.syscall) 0).sr % 16 ≡ machine.sr % 16)
    × ((op_rfe (cpu_exception machine ExceptionCause.syscall) 0).sr / 64 ≡ machine.sr / 64)
op_rfe-cpu_exception_example = op_rfe-cpu_exception machine ExceptionCause.syscall 0 (omega arith)

abbrev in_slot : Cpu Unit Unit
in_slot = record machine { in_delay_slot = true }

cpu_exception_lem_example :
    (add32
        (cpu_exception in_slot ExceptionCause.overflow).epc
        (if bit (cpu_exception in_slot ExceptionCause.overflow).cause 31 then 4 else 0)
      ≡ in_slot.current_pc)
    × ((cpu_exception in_slot ExceptionCause.overflow).cause / 4 % 32
        ≡ cause_code ExceptionCause.overflow)
    × ((cpu_exception in_slot ExceptionCause.overflow).pc
        ≡ (if bit in_slot.sr 22 then 0xbfc0_0180 else 0x8000_0080))
    × ((cpu_exception in_slot ExceptionCause.overflow).inter ≡ in_slot.inter)
cpu_exception_lem_example = cpu_exception_lem in_slot ExceptionCause.overflow (omega arith)

-- ADD R2, R4, R5 and its like.
abbrev add_word : ℕ
add_word = 4 * 2 ^ 21 + 5 * 2 ^ 16 + 2 * 2 ^ 11 + 0x20

op_add_lem_example :
    (op_add machine add_word ≡ (
      if fits (
        signed32 (cpu_reg machine (instr_s add_word))
        +ℤ signed32 (cpu_reg machine (instr_t add_word)))
      then op_addu machine add_word
      else cpu_exception machine ExceptionCause.overflow))
    × (op_addi machine add_word ≡ (
        if fits (signed32 (cpu_reg machine (instr_s add_word)) +ℤ signed32 (instr_imm_se add_word))
        then op_addiu machine add_word
        else cpu_exception machine ExceptionCause.overflow))
    × (op_sub machine add_word ≡ (
        if fits (
          signed32 (cpu_reg machine (instr_s add_word))
          -ℤ signed32 (cpu_reg machine (instr_t add_word)))
        then op_subu machine add_word
        else cpu_exception machine ExceptionCause.overflow))
op_add_lem_example = op_add_lem machine add_word (machine-IsWf tt)

abbrev due : Cpu Unit Unit
due = record machine { inter = record bus { downcount = 0 } }

dispatch_events_lem_example :
    (lt_signed 0 (dispatch_events quiet_devices due).inter.downcount ≡ true)
    × (((dispatch_events quiet_devices due).inter.downcount ≡ due.inter.downcount)
        ⊎ ((dispatch_events quiet_devices due).inter.downcount ≡ 1)
        ⊎ ((dispatch_events quiet_devices due).inter.downcount
            ≡ sub32
                (dispatch_events quiet_devices due).inter.evq_next_cycle
                (dispatch_events quiet_devices due).inter.cpu_cycle_counter))
dispatch_events_lem_example = dispatch_events_lem quiet_devices due

-- DIV of R4 by R5.
op_div_lem_example :
    (signed32 (op_div machine add_word).lo *ℤ signed32 (cpu_reg machine (instr_t add_word))
        +ℤ signed32 (op_div machine add_word).hi
      ≡ signed32 (cpu_reg machine (instr_s add_word)))
    × (magnitude (signed32 (op_div machine add_word).hi)
        < magnitude (signed32 (cpu_reg machine (instr_t add_word))))
unfolding cpu_reg
op_div_lem_example = op_div_lem machine add_word (machine-IsWf tt) refl refl

cpu_icache_fetch_lem_example :
    cpu_icache_fetch quiet_devices
      (cpu_icache_fetch quiet_devices machine 0x8000_1004 true).1
      0x8000_1004
      true
    ≡ cpu_icache_fetch quiet_devices machine 0x8000_1004 true
cpu_icache_fetch_lem_example = cpu_icache_fetch_lem quiet_devices machine 0x8000_1004 true true refl

-- LWR R5, 1(R4) and LWL R5, 4(R4).
op_lwl-op_lwr_example :
    cpu_reg
      (retire quiet_devices (
        retire quiet_devices (
          op_lwl quiet_devices
            (retire quiet_devices (op_lwr quiet_devices machine 0x9885_0001))
            0x8885_0004)))
      5
    ≡ load_le32 pattern_bytes 1001
unfolding mask_region
op_lwl-op_lwr_example =
    op_lwl-op_lwr quiet_devices machine 0x9885_0001 0x8885_0004 (λ inter b. refl) (machine-IsWf tt)
      refl (omega arith) refl refl refl (omega arith) (omega arith) (omega arith)

-- R4 points into the scratchpad.
abbrev scratch_regs : ℕ → ℕ
scratch_regs r = if r == 4 then 0x1F80_0010 else if r == 5 then 0x1234_5678 else 0

abbrev scratch_machine : Cpu Unit Unit
scratch_machine = record machine { regs = scratch_regs }

scratch_machine-IsWf : IsWf scratch_machine
scratch_machine-IsWf = record {
  regs = record { words = λ r. ground arith; zero_reg = refl };
  flow = (machine-IsWf tt).flow;
  delay = (machine-IsWf tt).delay;
  muldiv = (machine-IsWf tt).muldiv;
  cop0 = (machine-IsWf tt).cop0;
  memory = (machine-IsWf tt).memory;
}

-- SWL and SWR R5, 2(R4).
op_swl-cpu_swl_merge_example :
    (load_le32 (op_swl quiet_devices scratch_machine 0xA885_0002).inter.scratchpad 16
      ≡ cpu_swl_merge (load_le32 bus.scratchpad 16) 0x1234_5678 2)
    × (load_le32 (op_swr quiet_devices scratch_machine 0xA885_0002).inter.scratchpad 16
        ≡ cpu_swr_merge (load_le32 bus.scratchpad 16) 0x1234_5678 2)
unfolding mask_region cpu_reg
op_swl-cpu_swl_merge_example =
    op_swl-cpu_swl_merge quiet_devices scratch_machine 0xA885_0002 4 (λ inter b size. refl)
      scratch_machine-IsWf refl refl (omega arith)

-- MULTU R4, R5 and then MFHI and MFLO R3.
op_mflo-op_multu_example :
    (cpu_reg (op_mfhi (retire quiet_devices (op_multu machine 0x0085_0019)) 0x1812) 3 * 2 ^ 32
        + cpu_reg (op_mflo (retire quiet_devices (op_multu machine 0x0085_0019)) 0x1812) 3
      ≡ cpu_reg machine 4 * cpu_reg machine 5)
    × ((op_mflo
          (retire quiet_devices (op_multu machine 0x0085_0019))
          0x1812).inter.cpu_cycle_counter
        ≡ 100 + max 7 (1 + 0))
op_mflo-op_multu_example =
    op_mflo-op_multu quiet_devices machine 0x0085_0019 0x1812 (machine-IsWf tt) (omega arith)
      (omega arith) (omega arith)

-- Shortly before the counter wraps.
abbrev late : Cpu Unit Unit
late = record machine { inter = record bus { cpu_cycle_counter = 0xFFFF_FFE0 } }

op_mflo-cycles_later_example :
    sub32
      (op_mflo (cycles_later (op_multu late 0x0085_0019) 100) 0x1812).inter.cpu_cycle_counter
      (cycles_later (op_multu late 0x0085_0019) 100).inter.cpu_cycle_counter
    ≡ 2 ^ 32 + 7 - 100
op_mflo-cycles_later_example =
    op_mflo-cycles_later late 0x0085_0019 0x1812 100 (omega arith) (omega arith) (omega arith)
