-- ===== src/Cpu/ExceptionReturn.antt =====
-- Entry into an exception handler and the return from it: cpu_exceptions.c and `op_rfe`.
-- The Cause word of an exception, in a delay slot and outside one.
use zonistation_one.Base.{
  ◌!=◌, if◌then◌else◌, Bool-cases, add32, sub32, bit, ℕ, ◌+◌, ◌*◌, ◌/◌, ◌%◌, ◌^◌, ◌<◌, ◌≡◌, refl,
  ap, ◌∙◌, inl, inr, Bool, true, false, not, ◌&&◌, arith,
}
use zonistation_one.Cpu.Cop0.{op_rfe, popped_sr}
use zonistation_one.Cpu.Exceptions.{
  ExceptionCause, cause_code, cpu_exception, pushed_sr, log_exception_details,
  update_status_register, update_cause_and_epc, exception_entry, is_logged, is_interrupt,
}
use zonistation_one.Cpu.Regs.{flush_delayed, flush_issued, cpu_flush_load_delay}
use zonistation_one.Cpu.Wf.Core.{IsWord, cause_code-lt}
use zonistation_one.Machine.{Cpu}

abbrev cause_word : ℕ → ℕ → Bool → ℕ
cause_word old code irq = old / 256 % 4 * 256 + (if irq then 1024 else 0) + code * 4

delayed_code :
    (old code : ℕ) (irq : Bool) → code < 32 → (cause_word old code irq + 2 ^ 31) / 4 % 32 ≡ code
delayed_code old code irq h = ground arith

plain_code : (old code : ℕ) (irq : Bool) → code < 32 → cause_word old code irq / 4 % 32 ≡ code
plain_code old code irq h = ground arith

delayed_epc :
    (old code pc : ℕ) (irq : Bool)
    → code < 32
    → pc < 2 ^ 32
    → add32 (sub32 pc 4) (if bit (cause_word old code irq + 2 ^ 31) 31 then 4 else 0) ≡ pc
delayed_epc old code pc irq h lt = ground arith

plain_epc :
    (old code pc : ℕ) (irq : Bool)
    → code < 32
    → pc < 2 ^ 32
    → add32 pc (if bit (cause_word old code irq) 31 then 4 else 0) ≡ pc
plain_epc old code pc irq h lt = ground arith

module _ {D G : Type 0} where
  -- What the steps before the mode stack is pushed leave alone.
  record Frame (before after : Cpu D G) : Type 0 where
    sr : after.sr ≡ before.sr
    cause : after.cause ≡ before.cause
    current_pc : after.current_pc ≡ before.current_pc
    in_delay_slot : after.in_delay_slot ≡ before.in_delay_slot
    inter : after.inter ≡ before.inter

  same : (cpu : Cpu D G) → Frame cpu cpu
  same cpu = record {
    sr = refl;
    cause = refl;
    current_pc = refl;
    in_delay_slot = refl;
    inter = refl;
  }

  if-Frame :
      {cpu x y : Cpu D G} (b : Bool) → Frame cpu x → Frame cpu y → Frame cpu (if b then x else y)
  if-Frame true p q = p
  if-Frame false p q = q

  trans : {x y z : Cpu D G} → Frame x y → Frame y z → Frame x z
  trans p q = record {
    sr = q.sr ∙ p.sr;
    cause = q.cause ∙ p.cause;
    current_pc = q.current_pc ∙ p.current_pc;
    in_delay_slot = q.in_delay_slot ∙ p.in_delay_slot;
    inter = q.inter ∙ p.inter;
  }

  flush_delayed-Frame : (cpu : Cpu D G) → Frame cpu (flush_delayed cpu)
  unfolding flush_delayed
  flush_delayed-Frame cpu =
      if-Frame (cpu.delay_load_reg != 0)
        (record { sr = refl; cause = refl; current_pc = refl; in_delay_slot = refl; inter = refl })
        (same cpu)

  flush_issued-Frame : (cpu : Cpu D G) → Frame cpu (flush_issued cpu)
  unfolding flush_issued
  flush_issued-Frame cpu =
      if-Frame (cpu.load_reg_idx != 0)
        (record { sr = refl; cause = refl; current_pc = refl; in_delay_slot = refl; inter = refl })
        (same cpu)

  log-Frame : (cpu : Cpu D G) (cause : ExceptionCause) → Frame cpu (log_exception_details cpu cause)
  unfolding log_exception_details
  log-Frame cpu cause =
      if-Frame (is_logged cause && not cpu.first_exception_dumped)
        (record { sr = refl; cause = refl; current_pc = refl; in_delay_slot = refl; inter = refl })
        (same cpu)

  -- The CPU whose mode stack is then pushed.
  logged : Cpu D G → ExceptionCause → Cpu D G
  logged cpu cause =
      log_exception_details (cpu_flush_load_delay (record cpu { exception_pending = true })) cause

  logged-Frame : (cpu : Cpu D G) (cause : ExceptionCause) → Frame cpu (logged cpu cause)
  unfolding logged cpu_flush_load_delay
  logged-Frame cpu cause =
      let pending = record cpu { exception_pending = true } in
      let start : Frame cpu pending = record {
        sr = refl;
        cause = refl;
        current_pc = refl;
        in_delay_slot = refl;
        inter = refl;
      } in
      trans start (
        trans (flush_delayed-Frame pending) (
          trans (flush_issued-Frame (flush_delayed pending))
            (log-Frame (cpu_flush_load_delay pending) cause)))

  entry :
      (cpu : Cpu D G) (cause : ExceptionCause)
      → exception_entry cpu cause
        ≡ update_cause_and_epc (update_status_register (logged cpu cause)) cause
  unfolding logged exception_entry
  entry cpu cause = refl

  -- The last step, on a CPU whose mode stack is pushed.
  record Entered (cpu entered : Cpu D G) (cause : ExceptionCause) : Type 0 where
    sr : entered.sr ≡ cpu.sr
    inter : entered.inter ≡ cpu.inter
    code : entered.cause / 4 % 32 ≡ cause_code cause
    resume : add32 entered.epc (if bit entered.cause 31 then 4 else 0) ≡ cpu.current_pc

  update_cause-Entered :
      (cpu : Cpu D G) (cause : ExceptionCause)
      → cpu.current_pc < 2 ^ 32
      → Entered cpu (update_cause_and_epc cpu cause) cause
  unfolding update_cause_and_epc
  update_cause-Entered cpu cause h = elim (Bool-cases cpu.in_delay_slot) [
    | inl e ↦ rw e (record {
      sr = refl;
      inter = refl;
      code = delayed_code cpu.cause (cause_code cause) (is_interrupt cause) (cause_code-lt cause);
      resume =
          delayed_epc cpu.cause (cause_code cause) cpu.current_pc (is_interrupt cause)
            (cause_code-lt cause) h;
    })
    | inr e ↦ rw e (record {
      sr = refl;
      inter = refl;
      code = plain_code cpu.cause (cause_code cause) (is_interrupt cause) (cause_code-lt cause);
      resume =
          plain_epc cpu.cause (cause_code cause) cpu.current_pc (is_interrupt cause)
            (cause_code-lt cause) h;
    })
  ]

  pushed : Cpu D G → ExceptionCause → Cpu D G
  pushed cpu cause = update_status_register (logged cpu cause)

  entered :
      (cpu : Cpu D G) (cause : ExceptionCause)
      → cpu.current_pc < 2 ^ 32
      → Entered (pushed cpu cause) (exception_entry cpu cause) cause
  unfolding exception_entry logged update_status_register pushed
  entered cpu cause h =
      let pc = (logged-Frame cpu cause).current_pc in
      update_cause-Entered (update_status_register (logged cpu cause)) cause (omega (arith, pc, h))

  entry_sr :
      (cpu : Cpu D G) (cause : ExceptionCause)
      → cpu.current_pc < 2 ^ 32
      → (exception_entry cpu cause).sr ≡ pushed_sr cpu.sr
  unfolding update_status_register pushed
  entry_sr cpu cause h = (entered cpu cause h).sr ∙ ap pushed_sr (logged-Frame cpu cause).sr

  -- An exception enters the kernel with interrupts off, and RFE gives the current and the previous
  -- mode back as they were; the bits of SR above the mode stack stay.
  pub op_rfe-cpu_exception :
      (cpu : Cpu D G) (cause : ExceptionCause) (i : ℕ)
      → IsWord cpu.current_pc
      → ((cpu_exception cpu cause).sr % 4 ≡ 0)
        × ((op_rfe (cpu_exception cpu cause) i).sr % 16 ≡ cpu.sr % 16)
        × ((op_rfe (cpu_exception cpu cause) i).sr / 64 ≡ cpu.sr / 64)
  unfolding op_rfe popped_sr cpu_exception update_status_register pushed_sr
  op_rfe-cpu_exception cpu cause i h =
      let sr = entry_sr cpu cause h in (omega (arith, sr), omega (arith, sr), omega (arith, sr))

  -- On entry EPC, plus 4 when the BD bit of Cause is set, is the address of the instruction that
  -- raised the exception; Cause holds its code; the CPU goes on at the vector that BEV selects; and
  -- the memory, the devices and the cycle counters are untouched.
  pub cpu_exception_lem :
      (cpu : Cpu D G) (cause : ExceptionCause)
      → IsWord cpu.current_pc
      → (add32
            (cpu_exception cpu cause).epc
            (if bit (cpu_exception cpu cause).cause 31 then 4 else 0)
          ≡ cpu.current_pc)
        × ((cpu_exception cpu cause).cause / 4 % 32 ≡ cause_code cause)
        × ((cpu_exception cpu cause).pc ≡ (if bit cpu.sr 22 then 0xbfc0_0180 else 0x8000_0080))
        × ((cpu_exception cpu cause).inter ≡ cpu.inter)
  unfolding cpu_exception pushed_sr update_status_register pushed
  cpu_exception_lem cpu cause h =
      let e = entered cpu cause h in
      let frame = logged-Frame cpu cause in
      (
        e.resume ∙ frame.current_pc,
        e.code,
        rw (entry_sr cpu cause h) (ground arith),
        e.inter ∙ frame.inter,
      )
