-- ===== src/Cpu/Wf/Loads.antt =====
-- The loads of src/core/bus.c and include/cpu_mem.h.
use zonistation_one.Base.{
  ltb, leb, ◌!=◌, if◌then◌else◌, ℕ, ◌-◌, ◌%◌, ◌^◌, ◌<◌, Bool, true, false, ◌&&◌, arith,
}
use zonistation_one.Bus.Access.{
  mask_region, address_error, read_mapped32, read_mapped16, read_mapped8, begin_load,
  interconnect_load32, interconnect_load16, interconnect_load8, charge_ram, cpu_load32, cpu_load16,
  cpu_load8, within, bios_size, cpu_ram_fast_ok,
}
use zonistation_one.Bus.Ram.{ram_size}
use zonistation_one.Cpu.Exceptions.{ExceptionCause}
use zonistation_one.Cpu.Wf.Core.{IsWord, MemIsWf, IsWf, exception-IsWf}
use zonistation_one.Cpu.Wf.Devices.{
  EnvIsWf, with_inter-IsWf, with_badvaddr-IsWf, load_le32-word, load_le16-half, ram_load32-word,
  ram_load16-half, ram_load8-byte, bios_load32-word, ReadIsWf, if-ReadIsWf, const-ReadIsWf,
  narrow-ReadIsWf, charge_load-MemIsWf,
}
use zonistation_one.Machine.{Interconnect, Cpu, Env}

module _ {D G : Type 0} where
  -- A load gives a value of its width and a CPU that is well formed.
  pub record LoadIsWf (bound : ℕ) (r : ℕ × Cpu D G) : Type 0 where
    pub value : r.0 < bound
    pub cpu : IsWf r.1

  if-LoadIsWf :
      (bound : ℕ) {x y : ℕ × Cpu D G} (b : Bool)
      → LoadIsWf bound x
      → LoadIsWf bound y
      → LoadIsWf bound (if b then x else y)
  if-LoadIsWf bound true p q = p
  if-LoadIsWf bound false p q = q

  failed-LoadIsWf : (bound : ℕ) {cpu : Cpu D G} → 0 < bound → IsWf cpu → LoadIsWf bound (0, cpu)
  failed-LoadIsWf bound h w = record { value = h; cpu = w }

module _ {D G : Type 0} {env : Env D G} (ok : EnvIsWf env) where
  read32-ReadIsWf :
      (inter : Interconnect D) (address phys : ℕ)
      → MemIsWf inter
      → ReadIsWf (2 ^ 32) (read_mapped32 env inter address phys)
  unfolding read_mapped32
  read32-ReadIsWf inter address phys m =
      if-ReadIsWf (2 ^ 32) (ltb phys 0x80_0000)
        (record { value = ram_load32-word _ _ m.ram; memory = m })
        (if-ReadIsWf (2 ^ 32) (within 0x1F80_0000 0x1F80_0400 phys && ltb address 0xA000_0000)
          (record {
            value = load_le32-word inter.scratchpad (phys - 0x1F80_0000) m.scratchpad;
            memory = m;
          })
          (if-ReadIsWf (2 ^ 32) (within 0x1F00_0000 0x1F80_0000 phys)
            (const-ReadIsWf (2 ^ 32) 0 m (omega arith))
            (if-ReadIsWf (2 ^ 32) (within 0x1F80_1000 0x1F80_2000 phys)
              (record {
                value = ok.hw_read_word inter phys;
                memory = ok.hw_read_mem inter phys 4 m;
              })
              (if-ReadIsWf (2 ^ 32) (within 0x1F80_2000 0x1F80_4000 phys)
                (const-ReadIsWf (2 ^ 32) 0xFFFF_FFFF m (omega arith))
                (if-ReadIsWf (2 ^ 32) (within 0x1FA0_0000 0x1FC0_0000 phys)
                  (const-ReadIsWf (2 ^ 32) 0 m (omega arith))
                  (if-ReadIsWf (2 ^ 32) (within 0x1FC0_0000 0x2000_0000 phys)
                    (record {
                      value = bios_load32-word inter.bios ((phys - 0x1FC0_0000) % bios_size) m.bios;
                      memory = m;
                    })
                    (if-ReadIsWf (2 ^ 32) (leb 0x2000_0000 phys)
                      (const-ReadIsWf (2 ^ 32) 0 m (omega arith))
                      (const-ReadIsWf (2 ^ 32) 0xFFFF_FFFF m (omega arith)))))))))

  read16-ReadIsWf :
      (inter : Interconnect D) (address phys : ℕ)
      → MemIsWf inter
      → ReadIsWf (2 ^ 16) (read_mapped16 env inter address phys)
  unfolding read_mapped16
  read16-ReadIsWf inter address phys m =
      if-ReadIsWf (2 ^ 16) (ltb phys 0x80_0000)
        (record { value = ram_load16-half _ _ m.ram; memory = m })
        (if-ReadIsWf (2 ^ 16) (within 0x1F80_0000 0x1F80_0400 phys && ltb address 0xA000_0000)
          (record {
            value = load_le16-half inter.scratchpad (phys - 0x1F80_0000) m.scratchpad;
            memory = m;
          })
          (if-ReadIsWf (2 ^ 16) (within 0x1F00_0000 0x1F80_0000 phys)
            (const-ReadIsWf (2 ^ 16) 0 m (omega arith))
            (if-ReadIsWf (2 ^ 16) (within 0x1F80_1000 0x1F80_2000 phys)
              (narrow-ReadIsWf 16 _ (ok.hw_read_mem inter phys 2 m))
              (if-ReadIsWf (2 ^ 16) (within 0x1F80_2000 0x1F80_4000 phys)
                (const-ReadIsWf (2 ^ 16) 0xFFFF m (omega arith))
                (if-ReadIsWf (2 ^ 16) (within 0x1FA0_0000 0x1FC0_0000 phys)
                  (const-ReadIsWf (2 ^ 16) 0 m (omega arith))
                  (if-ReadIsWf (2 ^ 16) (within 0x1FC0_0000 0x2000_0000 phys)
                    (record {
                      value = load_le16-half inter.bios ((phys - 0x1FC0_0000) % bios_size) m.bios;
                      memory = m;
                    })
                    (if-ReadIsWf (2 ^ 16) (leb 0x2000_0000 phys)
                      (const-ReadIsWf (2 ^ 16) 0 m (omega arith))
                      (const-ReadIsWf (2 ^ 16) 0xFFFF m (omega arith)))))))))

  read8-ReadIsWf :
      (inter : Interconnect D) (address phys : ℕ)
      → MemIsWf inter
      → ReadIsWf (2 ^ 8) (read_mapped8 env inter address phys)
  unfolding read_mapped8
  read8-ReadIsWf inter address phys m =
      if-ReadIsWf (2 ^ 8) (ltb phys 0x80_0000)
        (record { value = ram_load8-byte _ _ m.ram; memory = m })
        (if-ReadIsWf (2 ^ 8) (within 0x1F80_0000 0x1F80_0400 phys && ltb address 0xA000_0000)
          (record { value = m.scratchpad (phys - 0x1F80_0000); memory = m })
          (if-ReadIsWf (2 ^ 8) (within 0x1F00_0000 0x1F80_0000 phys)
            (const-ReadIsWf (2 ^ 8) 0 m (omega arith))
            (if-ReadIsWf (2 ^ 8) (within 0x1F80_1000 0x1F80_2000 phys)
              (narrow-ReadIsWf 8 _ (ok.hw_read_mem inter phys 1 m))
              (if-ReadIsWf (2 ^ 8) (within 0x1F80_2000 0x1F80_4000 phys)
                (const-ReadIsWf (2 ^ 8) 0xFF m (omega arith))
                (if-ReadIsWf (2 ^ 8) (within 0x1FA0_0000 0x1FC0_0000 phys)
                  (const-ReadIsWf (2 ^ 8) 0 m (omega arith))
                  (if-ReadIsWf (2 ^ 8) (within 0x1FC0_0000 0x2000_0000 phys)
                    (record { value = m.bios ((phys - 0x1FC0_0000) % bios_size); memory = m })
                    (if-ReadIsWf (2 ^ 8) (leb 0x2000_0000 phys)
                      (const-ReadIsWf (2 ^ 8) 0 m (omega arith))
                      (const-ReadIsWf (2 ^ 8) 0xFF m (omega arith)))))))))

  begin_load-MemIsWf :
      (inter : Interconnect D) (a size : ℕ) → MemIsWf inter → MemIsWf (begin_load env inter a size)
  unfolding begin_load
  begin_load-MemIsWf inter a size m =
      charge_load-MemIsWf _ (mask_region a) (ok.read_watchpoint_mem inter a size m)

  pub interconnect_load32-IsWf :
      (cpu : Cpu D G) (a : ℕ)
      → IsWf cpu
      → IsWord a
      → LoadIsWf (2 ^ 32) (interconnect_load32 env cpu a)
  unfolding interconnect_load32 address_error
  interconnect_load32-IsWf cpu a w h =
      let begun = begin_load-MemIsWf cpu.inter a 4 w.memory in
      let done = read32-ReadIsWf (begin_load env cpu.inter a 4) a (mask_region a) begun in
      if-LoadIsWf (2 ^ 32) (a % 4 != 0)
        (failed-LoadIsWf (2 ^ 32) (omega arith)
          (exception-IsWf ExceptionCause.load_address_error (with_badvaddr-IsWf w h)))
        (record { value = done.value; cpu = with_inter-IsWf w done.memory })

  pub interconnect_load16-IsWf :
      (cpu : Cpu D G) (a : ℕ)
      → IsWf cpu
      → IsWord a
      → LoadIsWf (2 ^ 16) (interconnect_load16 env cpu a)
  unfolding interconnect_load16 address_error
  interconnect_load16-IsWf cpu a w h =
      let begun = begin_load-MemIsWf cpu.inter a 2 w.memory in
      let done = read16-ReadIsWf (begin_load env cpu.inter a 2) a (mask_region a) begun in
      if-LoadIsWf (2 ^ 16) (a % 2 != 0)
        (failed-LoadIsWf (2 ^ 16) (omega arith)
          (exception-IsWf ExceptionCause.load_address_error (with_badvaddr-IsWf w h)))
        (record { value = done.value; cpu = with_inter-IsWf w done.memory })

  pub interconnect_load8-IsWf :
      (cpu : Cpu D G) (a : ℕ) → IsWf cpu → LoadIsWf (2 ^ 8) (interconnect_load8 env cpu a)
  unfolding interconnect_load8
  interconnect_load8-IsWf cpu a w =
      let begun = begin_load-MemIsWf cpu.inter a 1 w.memory in
      let done = read8-ReadIsWf (begin_load env cpu.inter a 1) a (mask_region a) begun in
      (record { value = done.value; cpu = with_inter-IsWf w done.memory })

  pub cpu_load32-IsWf :
      (cpu : Cpu D G) (a : ℕ) → IsWf cpu → IsWord a → LoadIsWf (2 ^ 32) (cpu_load32 env cpu a)
  unfolding cpu_load32 charge_ram
  cpu_load32-IsWf cpu a w h =
      if-LoadIsWf (2 ^ 32) (cpu_ram_fast_ok env cpu.inter a 4)
        (record {
          value = load_le32-word cpu.inter.ram (mask_region a % ram_size) w.memory.ram;
          cpu = with_inter-IsWf w (record {
            ram = w.memory.ram;
            scratchpad = w.memory.scratchpad;
            bios = w.memory.bios;
          });
        })
        (interconnect_load32-IsWf cpu a w h)

  pub cpu_load16-IsWf :
      (cpu : Cpu D G) (a : ℕ) → IsWf cpu → IsWord a → LoadIsWf (2 ^ 16) (cpu_load16 env cpu a)
  unfolding cpu_load16 charge_ram
  cpu_load16-IsWf cpu a w h =
      if-LoadIsWf (2 ^ 16) (cpu_ram_fast_ok env cpu.inter a 2)
        (record {
          value = load_le16-half cpu.inter.ram (mask_region a % ram_size) w.memory.ram;
          cpu = with_inter-IsWf w (record {
            ram = w.memory.ram;
            scratchpad = w.memory.scratchpad;
            bios = w.memory.bios;
          });
        })
        (interconnect_load16-IsWf cpu a w h)

  pub cpu_load8-IsWf : (cpu : Cpu D G) (a : ℕ) → IsWf cpu → LoadIsWf (2 ^ 8) (cpu_load8 env cpu a)
  unfolding cpu_load8 charge_ram
  cpu_load8-IsWf cpu a w =
      if-LoadIsWf (2 ^ 8) (cpu_ram_fast_ok env cpu.inter a 1)
        (record {
          value = w.memory.ram (mask_region a % ram_size);
          cpu = with_inter-IsWf w (record {
            ram = w.memory.ram;
            scratchpad = w.memory.scratchpad;
            bios = w.memory.bios;
          });
        })
        (interconnect_load8-IsWf cpu a w)
