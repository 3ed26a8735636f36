-- ===== src/Cpu/Wf/Devices.antt =====
-- What the CPU relies on in the devices, and the memories of the bus (src/core/bus.c, ram.c).
use native.Mathlib.Nat.{one-le-pow}
use zonistation_one.Base.{if◌then◌else◌, u8, ℕ, ◌+◌, ◌%◌, ◌^◌, ◌<◌, Bool, true, false, arith}
use zonistation_one.Base.Map.{update}
use zonistation_one.Bus.Access.{
  bios_load32, dma_doc_cpu_read, bus_charge_cpu_load, bus_charge_cpu_store, charged_load,
}
use zonistation_one.Bus.Bytes.{IsBytes, load_le16, load_le32, store_le16, store_le32}
use zonistation_one.Bus.Ram.{ram_load32, ram_load16, ram_load8}
use zonistation_one.Cpu.Wf.Core.{IsWord, MemIsWf, IsWf}
use zonistation_one.Machine.{Interconnect, Cpu, Env}

module _ {D G : Type 0} where
  -- What the CPU relies on in the devices, the GTE and the hooks.
  pub record EnvIsWf (env : Env D G) : Type 0 where
    pub hw_read_word : (inter : Interconnect D) (phys : ℕ) → (env.hw_read inter phys 4).0 < 2 ^ 32
    pub hw_read_mem :
        (inter : Interconnect D) (phys size : ℕ)
        → MemIsWf inter
        → MemIsWf (env.hw_read inter phys size).1
    pub hw_write_mem :
        (inter : Interconnect D) (phys v size : ℕ)
        → MemIsWf inter
        → MemIsWf (env.hw_write inter phys v size)
    pub read_watchpoint_mem :
        (inter : Interconnect D) (a size : ℕ)
        → MemIsWf inter
        → MemIsWf (env.check_read_watchpoint inter a size)
    pub write_watchpoint_mem :
        (inter : Interconnect D) (a size : ℕ)
        → MemIsWf inter
        → MemIsWf (env.check_write_watchpoint inter a size)
    pub tty_mem : (inter : Interconnect D) (c : ℕ) → MemIsWf inter → MemIsWf (env.tty_char inter c)
    pub gte_data_word : (g : G) (r : ℕ) → env.gte_read_data_register g r < 2 ^ 32
    pub gte_control_word : (g : G) (r : ℕ) → env.gte_read_control_register g r < 2 ^ 32
    pub a0_wf : (cpu : Cpu D G) → IsWf cpu → IsWf (env.handle_a0_syscall cpu).1
    pub b0_wf : (cpu : Cpu D G) → IsWf cpu → IsWf (env.handle_b0_syscall cpu)
    pub c0_wf : (cpu : Cpu D G) → IsWf cpu → IsWf (env.handle_c0_syscall cpu)
    pub breakpoint_mem : (cpu : Cpu D G) → MemIsWf cpu.inter → MemIsWf (env.check_breakpoint cpu)
    pub dispatch_mem :
        (inter : Interconnect D) → MemIsWf inter → MemIsWf (env.dispatch_due_events inter)

  -- The rest of the CPU is as it was.
  pub with_inter-IsWf :
      {cpu : Cpu D G} {inter : Interconnect D}
      → IsWf cpu
      → MemIsWf inter
      → IsWf (record cpu { inter = inter })
  with_inter-IsWf w m = record {
    regs = w.regs;
    flow = w.flow;
    delay = w.delay;
    muldiv = w.muldiv;
    cop0 = w.cop0;
    memory = m;
  }

  pub with_badvaddr-IsWf :
      {cpu : Cpu D G} {a : ℕ} → IsWf cpu → IsWord a → IsWf (record cpu { badvaddr = a })
  with_badvaddr-IsWf w h = record {
    regs = w.regs;
    flow = w.flow;
    delay = w.delay;
    muldiv = w.muldiv;
    cop0 = omega (arith, w.cop0, h);
    memory = w.memory;
  }

-- Little-endian loads and stores of bytes.
pub load_le32-word : (f : ℕ → ℕ) (off : ℕ) → IsBytes f → load_le32 f off < 2 ^ 32
load_le32-word f off h = omega (arith, h off, h (off + 1), h (off + 2), h (off + 3))

pub load_le16-half : (f : ℕ → ℕ) (off : ℕ) → IsBytes f → load_le16 f off < 2 ^ 16
load_le16-half f off h = omega (arith, h off, h (off + 1))

pub update-IsBytes : (f : ℕ → ℕ) (k v : ℕ) → IsBytes f → v < 256 → IsBytes (update f k v)
update-IsBytes f k v h lt i = ground (arith, h i)

pub store_le16-IsBytes : (f : ℕ → ℕ) (off v : ℕ) → IsBytes f → IsBytes (store_le16 f off v)
store_le16-IsBytes f off v h =
    update-IsBytes _ (off + 1) _ (update-IsBytes f off (u8 v) h (omega arith)) (omega arith)

pub store_le32-IsBytes : (f : ℕ → ℕ) (off v : ℕ) → IsBytes f → IsBytes (store_le32 f off v)
store_le32-IsBytes f off v h =
    update-IsBytes _ (off + 3) _
      (update-IsBytes _ (off + 2) _ (store_le16-IsBytes f off v h) (omega arith)) (omega arith)

pub ram_load32-word : (ram : ℕ → ℕ) (off : ℕ) → IsBytes ram → ram_load32 ram off < 2 ^ 32
unfolding ram_load32
ram_load32-word ram off h = ground (arith, load_le32-word ram off h)

pub ram_load16-half : (ram : ℕ → ℕ) (off : ℕ) → IsBytes ram → ram_load16 ram off < 2 ^ 16
unfolding ram_load16
ram_load16-half ram off h = ground (arith, load_le16-half ram off h)

pub ram_load8-byte : (ram : ℕ → ℕ) (off : ℕ) → IsBytes ram → ram_load8 ram off < 2 ^ 8
unfolding ram_load8
ram_load8-byte ram off h = ground (arith, h off)

pub bios_load32-word : (bios : ℕ → ℕ) (off : ℕ) → IsBytes bios → bios_load32 bios off < 2 ^ 32
unfolding bios_load32
bios_load32-word bios off h = ground (arith, load_le32-word bios off h)

pub if-IsBytes : (b : Bool) {f g : ℕ → ℕ} → IsBytes f → IsBytes g → IsBytes (if b then f else g)
if-IsBytes true p q = p
if-IsBytes false p q = q

pub mod-pow-lt : (v k : ℕ) → v % 2 ^ k < 2 ^ k
mod-pow-lt v k = omega (arith, one-le-pow k 2)

module _ {D : Type 0} where
  pub if-MemIsWf :
      {x y : Interconnect D} (b : Bool) → MemIsWf x → MemIsWf y → MemIsWf (if b then x else y)
  if-MemIsWf true p q = p
  if-MemIsWf false p q = q

  -- A value of the width, and the memory still bytes.
  pub record ReadIsWf (bound : ℕ) (r : ℕ × Interconnect D) : Type 0 where
    pub value : r.0 < bound
    pub memory : MemIsWf r.1

  pub if-ReadIsWf :
      (bound : ℕ) {x y : ℕ × Interconnect D} (b : Bool)
      → ReadIsWf bound x
      → ReadIsWf bound y
      → ReadIsWf bound (if b then x else y)
  if-ReadIsWf bound true p q = p
  if-ReadIsWf bound false p q = q

  pub const-ReadIsWf :
      (bound v : ℕ) {inter : Interconnect D} → MemIsWf inter → v < bound → ReadIsWf bound (v, inter)
  const-ReadIsWf bound v m h = record { value = h; memory = m }

  pub narrow-ReadIsWf :
      (k : ℕ) (r : ℕ × Interconnect D) → MemIsWf r.1 → ReadIsWf (2 ^ k) (r.0 % 2 ^ k, r.1)
  narrow-ReadIsWf k r m = record { value = mod-pow-lt r.0 k; memory = m }

  pub doc_read-MemIsWf :
      (inter : Interconnect D) (phys : ℕ) → MemIsWf inter → MemIsWf (dma_doc_cpu_read inter phys)
  unfolding dma_doc_cpu_read
  doc_read-MemIsWf inter phys m =
      if-MemIsWf _
        (if-MemIsWf _ (record { ram = m.ram; scratchpad = m.scratchpad; bios = m.bios })
          (record { ram = m.ram; scratchpad = m.scratchpad; bios = m.bios }))
        m

  pub charge_load-MemIsWf :
      (inter : Interconnect D) (phys : ℕ) → MemIsWf inter → MemIsWf (bus_charge_cpu_load inter phys)
  unfolding bus_charge_cpu_load charged_load
  charge_load-MemIsWf inter phys m =
      let charged : MemIsWf (charged_load inter phys) = (record {
        ram = m.ram;
        scratchpad = m.scratchpad;
        bios = m.bios;
      }) in
      if-MemIsWf _ (doc_read-MemIsWf _ phys charged) charged

  pub charge_store-MemIsWf :
      (inter : Interconnect D) (phys : ℕ)
      → MemIsWf inter
      → MemIsWf (bus_charge_cpu_store inter phys)
  unfolding bus_charge_cpu_store
  charge_store-MemIsWf inter phys m =
      if-MemIsWf _ (record { ram = m.ram; scratchpad = m.scratchpad; bios = m.bios }) m
