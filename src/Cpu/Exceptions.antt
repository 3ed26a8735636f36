-- ===== src/Cpu/Exceptions.antt =====
-- cpu_exceptions.c: entry into an exception handler.
use zonistation_one.Base.{
  if◌then◌else◌, add32, sub32, bit, ℕ, ◌+◌, ◌*◌, ◌/◌, ◌%◌, ◌^◌, Bool, true, false, not, ◌&&◌,
}
use zonistation_one.Cpu.Regs.{cpu_flush_load_delay}
use zonistation_one.Machine.{Cpu}

-- `ExceptionCause`, by the codes that go to the Cause register.
pub data ExceptionCause : Type 0 where
  interrupt load_address_error store_address_error syscall break_point illegal_instruction :
      ExceptionCause
  coprocessor_error overflow : ExceptionCause

abbrev pub cause_code : ExceptionCause → ℕ
cause_code interrupt = 0x00
cause_code load_address_error = 0x04
cause_code store_address_error = 0x05
cause_code syscall = 0x08
cause_code break_point = 0x09
cause_code illegal_instruction = 0x0a
cause_code coprocessor_error = 0x0b
cause_code overflow = 0x0c

unfoldable pub is_interrupt : ExceptionCause → Bool
is_interrupt interrupt = true
is_interrupt _ = false

-- The causes that the log reports: neither an interrupt, a syscall nor a break.
unfoldable pub is_logged : ExceptionCause → Bool
is_logged interrupt = false
is_logged syscall = false
is_logged break_point = false
is_logged _ = true

-- The mode stack of SR (bits 5:0) pushed by two bits.
unfoldable pub pushed_sr : ℕ → ℕ
pushed_sr sr = sr / 64 * 64 + sr % 4 * 4 + sr / 4 % 4 * 16

module _ {D G : Type 0} where
  -- What the log leaves behind: the execution trace is frozen at the first exception reported.
  unfoldable pub log_exception_details : Cpu D G → ExceptionCause → Cpu D G
  unfolding is_logged
  log_exception_details cpu cause =
      if is_logged cause && not cpu.first_exception_dumped
      then record cpu { first_exception_dumped = true; exec_trace_frozen = true }
      else cpu

  unfoldable pub update_status_register : Cpu D G → Cpu D G
  unfolding pushed_sr
  update_status_register cpu = record cpu { sr = pushed_sr cpu.sr }

  -- Bits 9:8 are kept, bit 10 is set for an interrupt, the code goes to bits 6:2, BD to bit 31.
  unfoldable pub update_cause_and_epc : Cpu D G → ExceptionCause → Cpu D G
  unfolding is_interrupt
  update_cause_and_epc cpu cause =
      let ip_bits = cpu.cause / 256 % 4 * 256 + (if is_interrupt cause then 1024 else 0) in
      let code = ip_bits + cause_code cause * 4 in
      if cpu.in_delay_slot
      then record cpu { cause = code + 2 ^ 31; epc = sub32 cpu.current_pc 4 }
      else record cpu { cause = code; epc = cpu.current_pc }

  abbrev pub get_exception_vector : Cpu D G → ℕ
  get_exception_vector cpu = if bit cpu.sr 22 then 0xbfc0_0180 else 0x8000_0080

  -- The state when the handler's address is taken.
  unfoldable pub exception_entry : Cpu D G → ExceptionCause → Cpu D G
  exception_entry cpu cause =
      let flushed = cpu_flush_load_delay (record cpu { exception_pending = true }) in
      update_cause_and_epc (update_status_register (log_exception_details flushed cause)) cause

  unfoldable pub cpu_exception : Cpu D G → ExceptionCause → Cpu D G
  cpu_exception cpu cause =
      let entered = exception_entry cpu cause in
      let handler_addr = get_exception_vector entered in
      record entered { pc = handler_addr; next_pc = add32 handler_addr 4 }
