-- ===== src/Cpu/Wf/Cop0.antt =====
-- The system control coprocessor of cpu_instructions.c.
use zonistation_one.Base.{if◌then◌else◌, ℕ, Bool, true, false, arith}
use zonistation_one.Base.Bits.{bit_or-lt, bit_and-lt, bit_and_right-lt}
use zonistation_one.Cpu.Cop0.{
  popped_sr, written_cause, written_sr, op_illegal, op_syscall, op_break, op_coprocessor_unusable,
  op_mtc0, op_rfe, op_mfc0, op_cop0_co, op_cop0,
}
use zonistation_one.Cpu.Exceptions.{ExceptionCause}
use zonistation_one.Cpu.Fields.{instr_t}
use zonistation_one.Cpu.Regs.{cpu_reg}
use zonistation_one.Cpu.Wf.Alu.{reg-IsWord}
use zonistation_one.Cpu.Wf.Core.{IsWord, IsWf, exception-IsWf, Keeps, schedule_load-IsWf}
use zonistation_one.Machine.{Cpu}

pub if-IsWf :
    {D G : Type 0} {x y : Cpu D G} (b : Bool) → IsWf x → IsWf y → IsWf (if b then x else y)
if-IsWf true p q = p
if-IsWf false p q = q

written_sr-IsWord : (sr value : ℕ) → IsWord value → IsWord (written_sr sr value)
unfolding written_sr
written_sr-IsWord sr value h =
    bit_or-lt 32 _ _ (bit_and_right-lt 32 sr _ (omega arith)) (bit_and-lt 32 value _ h)

written_cause-IsWord : (cause value : ℕ) → IsWord cause → IsWord (written_cause cause value)
unfolding written_cause
written_cause-IsWord cause value h = omega arith

popped_sr-IsWord : (sr : ℕ) → IsWord sr → IsWord (popped_sr sr)
unfolding popped_sr
popped_sr-IsWord sr h = omega arith

module _ {D G : Type 0} where
  pub op_illegal-IsWf : Keeps {D = D} {G = G} op_illegal
  unfolding op_illegal
  op_illegal-IsWf cpu i w = exception-IsWf ExceptionCause.illegal_instruction w

  pub op_syscall-IsWf : Keeps {D = D} {G = G} op_syscall
  unfolding op_syscall
  op_syscall-IsWf cpu i w = exception-IsWf ExceptionCause.syscall w

  pub op_break-IsWf : Keeps {D = D} {G = G} op_break
  unfolding op_break
  op_break-IsWf cpu i w = exception-IsWf ExceptionCause.break_point w

  pub op_coprocessor_unusable-IsWf : Keeps {D = D} {G = G} op_coprocessor_unusable
  unfolding op_coprocessor_unusable
  op_coprocessor_unusable-IsWf cpu i w = exception-IsWf ExceptionCause.coprocessor_error w

  cop0-IsWf :
      (cpu : Cpu D G) (sr cause tar dcic bpc bda bdam bpcm : ℕ)
      → IsWf cpu
      → IsWord sr
        × IsWord cause
        × IsWord tar
        × IsWord dcic
        × IsWord bpc
        × IsWord bda
        × IsWord bdam
        × IsWord bpcm
      → IsWf (record cpu {
        sr = sr;
        cause = cause;
        cop0_tar = tar;
        cop0_dcic = dcic;
        cop0_bpc = bpc;
        cop0_bda = bda;
        cop0_bdam = bdam;
        cop0_bpcm = bpcm;
      })
  cop0-IsWf cpu sr cause tar dcic bpc bda bdam bpcm w h = record {
    regs = w.regs;
    flow = w.flow;
    delay = w.delay;
    muldiv = w.muldiv;
    cop0 = (h.0, h.1, w.cop0.2, w.cop0.3, w.cop0.4, h.2, h.3, h.4, h.5, h.6, h.7);
    memory = w.memory;
  }

  pub op_rfe-IsWf : Keeps {D = D} {G = G} op_rfe
  unfolding op_rfe
  op_rfe-IsWf cpu i w = record {
    regs = w.regs;
    flow = w.flow;
    delay = w.delay;
    muldiv = w.muldiv;
    cop0 = omega (arith, w.cop0, popped_sr-IsWord cpu.sr w.cop0.0);
    memory = w.memory;
  }

  pub op_mtc0-IsWf : Keeps {D = D} {G = G} op_mtc0
  unfolding op_mtc0
  op_mtc0-IsWf cpu i w =
      if-IsWf _
        (cop0-IsWf cpu cpu.sr cpu.cause cpu.cop0_tar cpu.cop0_dcic (cpu_reg cpu (instr_t i))
          cpu.cop0_bda cpu.cop0_bdam cpu.cop0_bpcm w
          (
            w.cop0.0,
            w.cop0.1,
            w.cop0.5,
            w.cop0.6,
            reg-IsWord (instr_t i) w,
            w.cop0.8,
            w.cop0.9,
            w.cop0.10,
          ))
        (if-IsWf _
          (cop0-IsWf cpu cpu.sr cpu.cause cpu.cop0_tar cpu.cop0_dcic cpu.cop0_bpc
            (cpu_reg cpu (instr_t i)) cpu.cop0_bdam cpu.cop0_bpcm w
            (
              w.cop0.0,
              w.cop0.1,
              w.cop0.5,
              w.cop0.6,
              w.cop0.7,
              reg-IsWord (instr_t i) w,
              w.cop0.9,
              w.cop0.10,
            ))
          (if-IsWf _
            (cop0-IsWf cpu cpu.sr cpu.cause cpu.cop0_tar cpu.cop0_dcic cpu.cop0_bpc cpu.cop0_bda
              (cpu_reg cpu (instr_t i)) cpu.cop0_bpcm w
              (
                w.cop0.0,
                w.cop0.1,
                w.cop0.5,
                w.cop0.6,
                w.cop0.7,
                w.cop0.8,
                reg-IsWord (instr_t i) w,
                w.cop0.10,
              ))
            (if-IsWf _
              (cop0-IsWf cpu cpu.sr cpu.cause cpu.cop0_tar cpu.cop0_dcic cpu.cop0_bpc cpu.cop0_bda
                cpu.cop0_bdam (cpu_reg cpu (instr_t i)) w
                (
                  w.cop0.0,
                  w.cop0.1,
                  w.cop0.5,
                  w.cop0.6,
                  w.cop0.7,
                  w.cop0.8,
                  w.cop0.9,
                  reg-IsWord (instr_t i) w,
                ))
              (if-IsWf _
                (cop0-IsWf cpu cpu.sr cpu.cause (cpu_reg cpu (instr_t i)) cpu.cop0_dcic cpu.cop0_bpc
                  cpu.cop0_bda cpu.cop0_bdam cpu.cop0_bpcm w
                  (
                    w.cop0.0,
                    w.cop0.1,
                    reg-IsWord (instr_t i) w,
                    w.cop0.6,
                    w.cop0.7,
                    w.cop0.8,
                    w.cop0.9,
                    w.cop0.10,
                  ))
                (if-IsWf _
                  (cop0-IsWf cpu cpu.sr cpu.cause cpu.cop0_tar (cpu_reg cpu (instr_t i))
                    cpu.cop0_bpc cpu.cop0_bda cpu.cop0_bdam cpu.cop0_bpcm w
                    (
                      w.cop0.0,
                      w.cop0.1,
                      w.cop0.5,
                      reg-IsWord (instr_t i) w,
                      w.cop0.7,
                      w.cop0.8,
                      w.cop0.9,
                      w.cop0.10,
                    ))
                  (if-IsWf _
                    (cop0-IsWf cpu (written_sr cpu.sr (cpu_reg cpu (instr_t i))) cpu.cause
                      cpu.cop0_tar cpu.cop0_dcic cpu.cop0_bpc cpu.cop0_bda cpu.cop0_bdam
                      cpu.cop0_bpcm w
                      (
                        written_sr-IsWord cpu.sr _ (reg-IsWord (instr_t i) w),
                        w.cop0.1,
                        w.cop0.5,
                        w.cop0.6,
                        w.cop0.7,
                        w.cop0.8,
                        w.cop0.9,
                        w.cop0.10,
                      ))
                    (if-IsWf _
                      (cop0-IsWf cpu cpu.sr (written_cause cpu.cause (cpu_reg cpu (instr_t i)))
                        cpu.cop0_tar cpu.cop0_dcic cpu.cop0_bpc cpu.cop0_bda cpu.cop0_bdam
                        cpu.cop0_bpcm w
                        (
                          w.cop0.0,
                          written_cause-IsWord cpu.cause (cpu_reg cpu (instr_t i)) w.cop0.1,
                          w.cop0.5,
                          w.cop0.6,
                          w.cop0.7,
                          w.cop0.8,
                          w.cop0.9,
                          w.cop0.10,
                        ))
                      (if-IsWf _ (w) (exception-IsWf ExceptionCause.illegal_instruction w)))))))))

  pub op_mfc0-IsWf : Keeps {D = D} {G = G} op_mfc0
  unfolding op_mfc0
  op_mfc0-IsWf cpu i w = if-IsWf _ (schedule_load-IsWf (instr_t i) w w.cop0.7) (
      if-IsWf _ (schedule_load-IsWf (instr_t i) w w.cop0.8) (
        if-IsWf _ (schedule_load-IsWf (instr_t i) w w.cop0.5) (
          if-IsWf _ (schedule_load-IsWf (instr_t i) w w.cop0.6) (
            if-IsWf _ (schedule_load-IsWf (instr_t i) w w.cop0.3) (
              if-IsWf _ (schedule_load-IsWf (instr_t i) w w.cop0.9) (
                if-IsWf _ (schedule_load-IsWf (instr_t i) w w.cop0.10) (
                  if-IsWf _ (schedule_load-IsWf (instr_t i) w w.cop0.0) (
                    if-IsWf _ (schedule_load-IsWf (instr_t i) w w.cop0.1) (
                      if-IsWf _ (schedule_load-IsWf (instr_t i) w w.cop0.2) (
                        if-IsWf _ (schedule_load-IsWf (instr_t i) w w.cop0.4)
                          (exception-IsWf ExceptionCause.illegal_instruction w)))))))))))

  op_cop0_co-IsWf : Keeps {D = D} {G = G} op_cop0_co
  unfolding op_cop0_co
  op_cop0_co-IsWf cpu i w = if-IsWf _ (op_rfe-IsWf cpu i w) (op_illegal-IsWf cpu i w)

  pub op_cop0-IsWf : Keeps {D = D} {G = G} op_cop0
  unfolding op_cop0
  op_cop0-IsWf cpu i w = if-IsWf _ (op_mfc0-IsWf cpu i w) (
      if-IsWf _ (op_mtc0-IsWf cpu i w)
        (if-IsWf _ (op_cop0_co-IsWf cpu i w) (exception-IsWf ExceptionCause.illegal_instruction w)))
