-- ===== src/Cpu/Wf/Core.antt =====
-- The invariant of the CPU, over cpu_registers.c and cpu_exceptions.c.
use zonistation_one.Base.{
  ◌!=◌, if◌then◌else◌, Bool-cases, ℕ, ◌^◌, ◌<◌, ◌≡◌, ◌≢◌, inl, inr, Bool, true, false, arith,
}
use zonistation_one.Base.Map.{update}
use zonistation_one.Bus.Bytes.{IsBytes}
use zonistation_one.Cpu.Exceptions.{
  exception_entry, ExceptionCause, cause_code, log_exception_details, update_status_register,
  update_cause_and_epc, cpu_exception, get_exception_vector,
}
use zonistation_one.Cpu.Regs.{
  cpu_set_reg, schedule_load, cpu_retire_load_delay, flush_delayed, flush_issued,
  cpu_flush_load_delay,
}
use zonistation_one.Machine.{Interconnect, Cpu}

abbrev pub IsWord : ℕ → Type 0
IsWord n = n < 2 ^ 32

-- A register file: words, and 0 in R0.
pub record RegsIsWf (regs : ℕ → ℕ) : Type 0 where
  pub words : (r : ℕ) → IsWord (regs r)
  pub zero_reg : regs 0 ≡ 0

-- RAM, scratchpad and BIOS are arrays of bytes.
pub record MemIsWf {D : Type 0} (inter : Interconnect D) : Type 0 where
  pub ram : IsBytes inter.ram
  pub scratchpad : IsBytes inter.scratchpad
  pub bios : IsBytes inter.bios

module _ {D G : Type 0} where
  abbrev pub Cop0Words : Cpu D G → Type 0
  Cop0Words cpu =
      IsWord cpu.sr
      × IsWord cpu.cause
      × IsWord cpu.epc
      × IsWord cpu.badvaddr
      × IsWord cpu.prid
      × IsWord cpu.cop0_tar
      × IsWord cpu.cop0_dcic
      × IsWord cpu.cop0_bpc
      × IsWord cpu.cop0_bda
      × IsWord cpu.cop0_bdam
      × IsWord cpu.cop0_bpcm

  -- The CPU between two operations.
  pub record IsWf (cpu : Cpu D G) : Type 0 where
    pub regs : RegsIsWf cpu.regs
    pub flow : IsWord cpu.pc × IsWord cpu.next_pc × IsWord cpu.current_pc
    pub delay : IsWord cpu.load_value × IsWord cpu.delay_load_value
    pub muldiv : IsWord cpu.hi × IsWord cpu.lo
    pub cop0 : Cop0Words cpu
    pub memory : MemIsWf cpu.inter

pub cause_code-lt : (c : ExceptionCause) → cause_code c < 32
cause_code-lt ExceptionCause.interrupt = omega arith
cause_code-lt _ = omega arith

update-RegsIsWf :
    (regs : ℕ → ℕ) (k v : ℕ) → RegsIsWf regs → k ≢ 0 → IsWord v → RegsIsWf (update regs k v)
update-RegsIsWf regs k v w ne h = record {
  words = λ r. ground (arith, w.words r);
  zero_reg = ground (arith, w.zero_reg);
}

retired_regs :
    (regs : ℕ → ℕ) (k v : ℕ)
    → RegsIsWf regs
    → IsWord v
    → RegsIsWf (if k != 0 then update regs k v else regs)
retired_regs regs k v w h = elim (Bool-cases (k != 0)) [
  | inl ne ↦ rw ne (update-RegsIsWf regs k v w (ground arith) h)
  | inr e ↦ rw e w
]

module _ {D G : Type 0} where
  pub set_reg-IsWf :
      {cpu : Cpu D G} (index : ℕ) {value : ℕ}
      → IsWf cpu
      → IsWord value
      → IsWf (cpu_set_reg cpu index value)
  unfolding cpu_set_reg
  set_reg-IsWf {cpu} index {value} w h = elim (Bool-cases (index != 0)) [
    | inl ne ↦ rw ne (record {
      regs = update-RegsIsWf cpu.regs index value w.regs (ground arith) h;
      flow = w.flow;
      delay = w.delay;
      muldiv = w.muldiv;
      cop0 = w.cop0;
      memory = w.memory;
    })
    | inr e ↦ rw e w
  ]

  pub schedule_load-IsWf :
      {cpu : Cpu D G} (rt : ℕ) {value : ℕ}
      → IsWf cpu
      → IsWord value
      → IsWf (schedule_load cpu rt value)
  unfolding schedule_load
  schedule_load-IsWf rt w h = record {
    regs = w.regs;
    flow = w.flow;
    delay = (h, w.delay.1);
    muldiv = w.muldiv;
    cop0 = w.cop0;
    memory = w.memory;
  }

  pub retire_load-IsWf : {cpu : Cpu D G} → IsWf cpu → IsWf (cpu_retire_load_delay cpu)
  unfolding cpu_retire_load_delay
  retire_load-IsWf {cpu} w = record {
    regs = retired_regs cpu.regs cpu.delay_load_reg cpu.delay_load_value w.regs w.delay.1;
    flow = w.flow;
    delay = (w.delay.0, w.delay.0);
    muldiv = w.muldiv;
    cop0 = w.cop0;
    memory = w.memory;
  }

  flush_delayed-IsWf : {cpu : Cpu D G} → IsWf cpu → IsWf (flush_delayed cpu)
  unfolding flush_delayed
  flush_delayed-IsWf {cpu} w = elim (Bool-cases (cpu.delay_load_reg != 0)) [
    | inl ne ↦ rw ne (record {
      regs =
          update-RegsIsWf cpu.regs cpu.delay_load_reg cpu.delay_load_value w.regs (ground arith)
            w.delay.1;
      flow = w.flow;
      delay = w.delay;
      muldiv = w.muldiv;
      cop0 = w.cop0;
      memory = w.memory;
    })
    | inr e ↦ rw e w
  ]

  flush_issued-IsWf : {cpu : Cpu D G} → IsWf cpu → IsWf (flush_issued cpu)
  unfolding flush_issued
  flush_issued-IsWf {cpu} w = elim (Bool-cases (cpu.load_reg_idx != 0)) [
    | inl ne ↦ rw ne (record {
      regs =
          update-RegsIsWf cpu.regs cpu.load_reg_idx cpu.load_value w.regs (ground arith) w.delay.0;
      flow = w.flow;
      delay = w.delay;
      muldiv = w.muldiv;
      cop0 = w.cop0;
      memory = w.memory;
    })
    | inr e ↦ rw e w
  ]

  pub flush_load-IsWf : {cpu : Cpu D G} → IsWf cpu → IsWf (cpu_flush_load_delay cpu)
  unfolding cpu_flush_load_delay
  flush_load-IsWf w = flush_issued-IsWf (flush_delayed-IsWf w)

  log_exception-IsWf :
      {cpu : Cpu D G} (c : ExceptionCause) → IsWf cpu → IsWf (log_exception_details cpu c)
  unfolding log_exception_details
  log_exception-IsWf {cpu} c w = record {
    regs = ground arith;
    flow = ground arith;
    delay = ground arith;
    muldiv = ground arith;
    cop0 = ground arith;
    memory = ground arith;
  }

  status-IsWf : {cpu : Cpu D G} → IsWf cpu → IsWf (update_status_register cpu)
  unfolding update_status_register
  status-IsWf {cpu} w = record {
    regs = w.regs;
    flow = w.flow;
    delay = w.delay;
    muldiv = w.muldiv;
    cop0 = omega (arith, w.cop0);
    memory = w.memory;
  }

  cause-IsWf : {cpu : Cpu D G} (c : ExceptionCause) → IsWf cpu → IsWf (update_cause_and_epc cpu c)
  unfolding update_cause_and_epc
  cause-IsWf {cpu} c w = record {
    regs = ground arith;
    flow = ground arith;
    delay = ground arith;
    muldiv = ground arith;
    cop0 = ground (arith, cause_code-lt c);
    memory = ground arith;
  }

  pending-IsWf : {cpu : Cpu D G} → IsWf cpu → IsWf (record cpu { exception_pending = true })
  pending-IsWf w = record {
    regs = w.regs;
    flow = w.flow;
    delay = w.delay;
    muldiv = w.muldiv;
    cop0 = w.cop0;
    memory = w.memory;
  }

  entry-IsWf : {cpu : Cpu D G} (c : ExceptionCause) → IsWf cpu → IsWf (exception_entry cpu c)
  unfolding exception_entry
  entry-IsWf c w =
      cause-IsWf c (status-IsWf (log_exception-IsWf c (flush_load-IsWf (pending-IsWf w))))

  vector-IsWord : (cpu : Cpu D G) → IsWord (get_exception_vector cpu)
  vector-IsWord cpu = ground arith

  -- Entry into a handler keeps the CPU well formed.
  pub exception-IsWf : {cpu : Cpu D G} (c : ExceptionCause) → IsWf cpu → IsWf (cpu_exception cpu c)
  unfolding cpu_exception
  exception-IsWf {cpu} c w =
      let inside = entry-IsWf c w in
      record {
        regs = inside.regs;
        flow = (vector-IsWord (exception_entry cpu c), omega arith, inside.flow.2);
        delay = inside.delay;
        muldiv = inside.muldiv;
        cop0 = inside.cop0;
        memory = inside.memory;
      }

  -- A handler of an instruction keeps the CPU well formed, whatever the instruction word.
  abbrev pub Keeps : (Cpu D G → ℕ → Cpu D G) → Type 0
  Keeps handler = (cpu : Cpu D G) (i : ℕ) → IsWf cpu → IsWf (handler cpu i)

  -- The CPU that an operation returns beside its result is well formed.
  pub record AfterIsWf {A : Type 0} (r : A × Cpu D G) : Type 0 where
    pub cpu : IsWf r.1

  pub if-AfterIsWf :
      {A : Type 0} {x y : A × Cpu D G} (b : Bool)
      → AfterIsWf x
      → AfterIsWf y
      → AfterIsWf (if b then x else y)
  if-AfterIsWf true p q = p
  if-AfterIsWf false p q = q
