-- ===== src/Tests.antt =====
-- The concrete machine of the tests, and that it is well formed.
pub mod Processor
pub mod Memory
pub mod Scheduler
pub mod Sound
pub mod Geometry
pub mod Clock
pub mod Transfers
use zonistation_one.Base.{◌==◌, if◌then◌else◌, ℕ, ◌+◌, ◌%◌, refl, false, arith}
use zonistation_one.Bus.Bytes.{IsBytes}
use zonistation_one.Cpu.Wf.Core.{IsWf}
use zonistation_one.Cpu.Wf.Devices.{EnvIsWf}
use zonistation_one.Machine.{Interconnect, ICacheLine, Cpu, Env}

-- Devices that do nothing, beside any coprocessor.
abbrev pub quiet_devices_beside : (G : Type 0) → Env Unit G
quiet_devices_beside G = record {
  hw_read = λ inter phys size. (0, inter);
  hw_write = λ inter phys value size. inter;
  check_read_watchpoint = λ inter address size. inter;
  check_write_watchpoint = λ inter address size. inter;
  tty_char = λ inter value. inter;
  gte_execute_instruction = λ gte command. (8, gte);
  gte_read_data_register = λ gte r. 0;
  gte_read_control_register = λ gte r. 0;
  gte_write_data_register = λ gte r value. gte;
  gte_write_control_register = λ gte r value. gte;
  handle_a0_syscall = λ cpu. (false, cpu);
  handle_b0_syscall = λ cpu. cpu;
  handle_c0_syscall = λ cpu. cpu;
  check_breakpoint = λ cpu. cpu.inter;
  dispatch_due_events = λ inter. inter;
}

abbrev pub quiet_devices : Env Unit Unit
quiet_devices = quiet_devices_beside Unit

pub quiet_devices-IsWf : (G : Type 0) → EnvIsWf (quiet_devices_beside G)
quiet_devices-IsWf G = record {
  hw_read_word = λ inter phys. omega arith;
  hw_read_mem = λ inter phys size m. m;
  hw_write_mem = λ inter phys value size m. m;
  read_watchpoint_mem = λ inter a size m. m;
  write_watchpoint_mem = λ inter a size m. m;
  tty_mem = λ inter c m. m;
  gte_data_word = λ g r. omega arith;
  gte_control_word = λ g r. omega arith;
  a0_wf = λ cpu w. w;
  b0_wf = λ cpu w. w;
  c0_wf = λ cpu w. w;
  breakpoint_mem = λ cpu m. m;
  dispatch_mem = λ inter m. m;
}

-- Bytes that repeat 1, 2, .., 251, so that a word has four different ones.
abbrev pub pattern_bytes : ℕ → ℕ
pattern_bytes i = i % 251 + 1

abbrev pub bus : Interconnect Unit
bus = record {
  ram = pattern_bytes;
  scratchpad = λ i. 0;
  bios = λ i. 0;
  irq_status = 0;
  irq_mask = 0;
  irq_line_state = 0;
  evq_pending = 0;
  evq_target_cycle = λ i. 0;
  evq_next_cycle = 0xFFFF_FFFF;
  cpu_cycle_counter = 100;
  frame_complete = false;
  downcount = 50;
  bios_access_cycles = 24;
  cpu_mem_stall_cycles = 0;
  instructions_retired = 0;
  breakpoint_count = 0;
  step_skip_bp = false;
  paused = false;
  read_watchpoint_count = 0;
  ram_load_stall = 4;
  dma_window_open = false;
  dma_window_end = 0;
  devices = tt;
}

-- R4 holds 1000, R5 holds 7, every other register 0.
abbrev pub some_regs : ℕ → ℕ
some_regs r = if r == 4 then 1000 else if r == 5 then 7 else 0

abbrev pub empty_line : ICacheLine
empty_line = record { tag = 0; valid = λ j. false; words = λ j. 0 }

abbrev pub machine_beside : {G : Type 0} → G → Cpu Unit G
machine_beside g = record {
  pc = 0x8000_1000;
  next_pc = 0x8000_1004;
  current_pc = 0x8000_0FFC;
  regs = some_regs;
  load_reg_idx = 0;
  load_value = 0;
  delay_load_reg = 0;
  delay_load_value = 0;
  hi = 0;
  lo = 0;
  branch_taken = false;
  in_delay_slot = false;
  exception_pending = false;
  sr = 0x1000_0401;
  cause = 0;
  epc = 0;
  badvaddr = 0;
  prid = 2;
  cop0_tar = 0;
  cop0_dcic = 0;
  cop0_bpc = 0;
  cop0_bda = 0;
  cop0_bdam = 0;
  cop0_bpcm = 0;
  inter = bus;
  icache = λ i. empty_line;
  gte = g;
  muldiv_completion_tick = 110;
  gte_completion_tick = 0;
  exec_trace_pc = λ i. 0;
  exec_trace_instr = λ i. 0;
  exec_trace_head = 0;
  exec_trace_count = 0;
  exec_trace_frozen = false;
  first_exception_dumped = false;
}

pub pattern_bytes-IsBytes : IsBytes pattern_bytes
pattern_bytes-IsBytes i = omega arith

abbrev pub machine : Cpu Unit Unit
machine = machine_beside tt

pub machine-IsWf : {G : Type 0} (g : G) → IsWf (machine_beside g)
machine-IsWf g = record {
  regs = record { words = λ r. ground arith; zero_reg = refl };
  flow = (omega arith, omega arith, omega arith);
  delay = (omega arith, omega arith);
  muldiv = (omega arith, omega arith);
  cop0 = omega arith;
  memory = record {
    ram = pattern_bytes-IsBytes;
    scratchpad = λ i. omega arith;
    bios = λ i. omega arith;
  };
}
