-- ===== src/Machine.antt =====
-- The state that the CPU and the bus share: `struct Interconnect` (include/interconnect.h),
-- `struct Cpu` and `ICacheLine` (include/cpu.h), and what both take from the devices.
-- A C integer is its bit pattern, a fixed array a function from its index. `D` is the state of
-- the devices that the bus dispatches to, `G` that of the geometry coprocessor (`cpu->gte`).
-- `inter->cpu` points back at the CPU: `cpu->downcount`, which the bus and the event scheduler
-- write through it, is therefore kept in `Interconnect` here, and is the only copy.
use zonistation_one.Base.{ℕ, Bool}

pub record Interconnect (D : Type 0) : Type 0 where
  pub ram : ℕ → ℕ
  pub scratchpad : ℕ → ℕ
  pub bios : ℕ → ℕ
  pub irq_status : ℕ  -- uint16_t
  pub irq_mask : ℕ  -- uint16_t
  pub irq_line_state : ℕ  -- uint16_t
  pub evq_pending : ℕ
  pub evq_target_cycle : ℕ → ℕ
  pub evq_next_cycle : ℕ
  pub cpu_cycle_counter : ℕ
  pub frame_complete : Bool
  pub downcount : ℕ  -- int32_t
  pub bios_access_cycles : ℕ
  pub cpu_mem_stall_cycles : ℕ
  pub instructions_retired : ℕ  -- uint64_t
  -- `debugger.breakpoint_count`, `.step_skip_bp`, `.paused`, `.read_watchpoint_count`
  pub breakpoint_count : ℕ
  pub step_skip_bp : Bool
  pub paused : Bool
  pub read_watchpoint_count : ℕ
  -- the file-scope variables of bus.c: what `ram_load_stall()` returns (`g_bus_ram_load_stall`),
  -- `g_bus_dma_window_open` and `s_dma_window_end`
  pub ram_load_stall : ℕ
  pub dma_window_open : Bool
  pub dma_window_end : ℕ
  pub devices : D

pub record ICacheLine : Type 0 where
  pub tag : ℕ
  pub valid : ℕ → Bool
  pub words : ℕ → ℕ

pub record Cpu (D G : Type 0) : Type 0 where
  pub pc : ℕ
  pub next_pc : ℕ
  pub current_pc : ℕ
  pub regs : ℕ → ℕ
  pub load_reg_idx : ℕ
  pub load_value : ℕ
  pub delay_load_reg : ℕ
  pub delay_load_value : ℕ
  pub hi : ℕ
  pub lo : ℕ
  pub branch_taken : Bool
  pub in_delay_slot : Bool
  pub exception_pending : Bool
  pub sr : ℕ
  pub cause : ℕ
  pub epc : ℕ
  pub badvaddr : ℕ
  pub prid : ℕ
  pub cop0_tar : ℕ
  pub cop0_dcic : ℕ
  pub cop0_bpc : ℕ
  pub cop0_bda : ℕ
  pub cop0_bdam : ℕ
  pub cop0_bpcm : ℕ
  pub inter : Interconnect D
  pub icache : ℕ → ICacheLine
  pub gte : G
  pub muldiv_completion_tick : ℕ
  pub gte_completion_tick : ℕ
  pub exec_trace_pc : ℕ → ℕ
  pub exec_trace_instr : ℕ → ℕ
  pub exec_trace_head : ℕ
  pub exec_trace_count : ℕ
  pub exec_trace_frozen : Bool
  -- the function-scope static of `log_exception_details`
  pub first_exception_dumped : Bool

-- What the CPU and the bus call in the other parts of the machine. `size` is 1, 2 or 4 bytes.
pub record Env (D G : Type 0) : Type 0 where
  -- `g_hw_read[block]` and `g_hw_write[block]` at a physical address of the I/O window
  pub hw_read : Interconnect D → ℕ → ℕ → ℕ × Interconnect D
  pub hw_write : Interconnect D → ℕ → ℕ → ℕ → Interconnect D
  pub check_read_watchpoint : Interconnect D → ℕ → ℕ → Interconnect D
  pub check_write_watchpoint : Interconnect D → ℕ → ℕ → Interconnect D
  pub tty_char : Interconnect D → ℕ → Interconnect D
  pub gte_execute_instruction : G → ℕ → ℕ × G
  pub gte_read_data_register : G → ℕ → ℕ
  pub gte_read_control_register : G → ℕ → ℕ
  pub gte_write_data_register : G → ℕ → ℕ → G
  pub gte_write_control_register : G → ℕ → ℕ → G
  pub handle_a0_syscall : Cpu D G → Bool × Cpu D G
  pub handle_b0_syscall : Cpu D G → Cpu D G
  pub handle_c0_syscall : Cpu D G → Cpu D G
  pub check_breakpoint : Cpu D G → Interconnect D
  -- `eventq_dispatch_due`, with the handlers of the events
  pub dispatch_due_events : Interconnect D → Interconnect D
