-- ===== src/Cpu/Wf/Stores.antt =====
-- The stores of src/core/bus.c.
use zonistation_one.Base.{ltb, ◌==◌, ◌!=◌, ℕ, ◌-◌, ◌%◌, ◌<◌, ◌||◌}
use zonistation_one.Bus.Access.{
  mask_region, store_error, begin_store, write_mapped32, write_mapped16, write_mapped8,
  interconnect_store32, interconnect_store16, interconnect_store8, within,
}
use zonistation_one.Bus.Ram.{ram_store32, ram_store16, ram_store8, ram_size, is_out_of_bounds}
use zonistation_one.Cpu.Exceptions.{ExceptionCause}
use zonistation_one.Cpu.Wf.Cop0.{if-IsWf}
use zonistation_one.Cpu.Wf.Core.{IsWord, MemIsWf, IsWf, exception-IsWf}
use zonistation_one.Cpu.Wf.Devices.{
  EnvIsWf, with_inter-IsWf, with_badvaddr-IsWf, update-IsBytes, store_le16-IsBytes,
  store_le32-IsBytes, if-IsBytes, if-MemIsWf, charge_store-MemIsWf,
}
use zonistation_one.Machine.{Interconnect, Cpu, Env}

module _ {D G : Type 0} {env : Env D G} (ok : EnvIsWf env) where
  begin_store-MemIsWf :
      (inter : Interconnect D) (a size : ℕ) → MemIsWf inter → MemIsWf (begin_store env inter a size)
  unfolding begin_store
  begin_store-MemIsWf inter a size m =
      charge_store-MemIsWf _ (mask_region a) (ok.write_watchpoint_mem inter a size m)

  write32-MemIsWf :
      (inter : Interconnect D) (phys v : ℕ)
      → MemIsWf inter
      → MemIsWf (write_mapped32 env inter phys v)
  unfolding write_mapped32 ram_store32
  write32-MemIsWf inter phys v m =
      if-MemIsWf (ltb phys 0x80_0000)
        (record {
          ram =
              if-IsBytes (is_out_of_bounds (phys % ram_size) 4) m.ram
                (store_le32-IsBytes inter.ram (phys % ram_size) v m.ram);
          scratchpad = m.scratchpad;
          bios = m.bios;
        })
        (if-MemIsWf (within 0x1F80_0000 0x1F80_0400 phys)
          (record {
            ram = m.ram;
            scratchpad = store_le32-IsBytes inter.scratchpad (phys - 0x1F80_0000) v m.scratchpad;
            bios = m.bios;
          })
          (if-MemIsWf (within 0x1F80_1000 0x1F80_2000 phys) (ok.hw_write_mem inter phys v 4 m) m))

  write16-MemIsWf :
      (inter : Interconnect D) (phys v : ℕ)
      → MemIsWf inter
      → MemIsWf (write_mapped16 env inter phys v)
  unfolding write_mapped16 ram_store16
  write16-MemIsWf inter phys v m =
      if-MemIsWf (ltb phys 0x80_0000)
        (record {
          ram =
              if-IsBytes (is_out_of_bounds (phys % ram_size) 2) m.ram
                (store_le16-IsBytes inter.ram (phys % ram_size) v m.ram);
          scratchpad = m.scratchpad;
          bios = m.bios;
        })
        (if-MemIsWf (within 0x1F80_0000 0x1F80_0400 phys)
          (record {
            ram = m.ram;
            scratchpad = store_le16-IsBytes inter.scratchpad (phys - 0x1F80_0000) v m.scratchpad;
            bios = m.bios;
          })
          (if-MemIsWf (within 0x1F80_1000 0x1F80_2000 phys) (ok.hw_write_mem inter phys v 2 m) m))

  write8-MemIsWf :
      (inter : Interconnect D) (phys v : ℕ)
      → v < 256
      → MemIsWf inter
      → MemIsWf (write_mapped8 env inter phys v)
  unfolding write_mapped8 ram_store8
  write8-MemIsWf inter phys v h m =
      if-MemIsWf (ltb phys 0x80_0000)
        (record {
          ram =
              if-IsBytes (is_out_of_bounds (phys % ram_size) 1) m.ram
                (update-IsBytes inter.ram (phys % ram_size) v m.ram h);
          scratchpad = m.scratchpad;
          bios = m.bios;
        })
        (if-MemIsWf (within 0x1F80_0000 0x1F80_0400 phys)
          (record {
            ram = m.ram;
            scratchpad = update-IsBytes inter.scratchpad (phys - 0x1F80_0000) v m.scratchpad h;
            bios = m.bios;
          })
          (if-MemIsWf (within 0x1F80_1000 0x1F80_2000 phys) (ok.hw_write_mem inter phys v 1 m) (
            if-MemIsWf (within 0x1F80_2000 0x1F80_4000 phys)
              (if-MemIsWf (phys - 0x1F80_2000 == 0x23 || phys - 0x1F80_2000 == 0x80)
                (ok.tty_mem inter v m) m)
              m)))

  pub interconnect_store32-IsWf :
      (cpu : Cpu D G) (a v : ℕ) → IsWf cpu → IsWord a → IsWf (interconnect_store32 env cpu a v)
  unfolding interconnect_store32 store_error
  interconnect_store32-IsWf cpu a v w h =
      if-IsWf (a % 4 != 0)
        (exception-IsWf ExceptionCause.store_address_error (with_badvaddr-IsWf w h))
        (with_inter-IsWf w (write32-MemIsWf _ _ v (begin_store-MemIsWf cpu.inter a 4 w.memory)))

  pub interconnect_store16-IsWf :
      (cpu : Cpu D G) (a v : ℕ) → IsWf cpu → IsWord a → IsWf (interconnect_store16 env cpu a v)
  unfolding interconnect_store16 store_error
  interconnect_store16-IsWf cpu a v w h =
      if-IsWf (a % 2 != 0)
        (exception-IsWf ExceptionCause.store_address_error (with_badvaddr-IsWf w h))
        (with_inter-IsWf w (write16-MemIsWf _ _ v (begin_store-MemIsWf cpu.inter a 2 w.memory)))

  pub interconnect_store8-IsWf :
      (cpu : Cpu D G) (a v : ℕ) → IsWf cpu → v < 256 → IsWf (interconnect_store8 env cpu a v)
  unfolding interconnect_store8
  interconnect_store8-IsWf cpu a v w h =
      with_inter-IsWf w (write8-MemIsWf _ _ v h (begin_store-MemIsWf cpu.inter a 1 w.memory))
