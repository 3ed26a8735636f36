-- ===== src/Bus/Access.antt =====
-- The loads and stores of src/core/bus.c, with the address map and the stall that a load from RAM
-- costs, and the CPU's fast path to RAM of include/cpu_mem.h.
use zonistation_one.Base.{
  ltb, leb, ◌==◌, ◌!=◌, if◌then◌else◌, u8, u16, add32, sub32, ◌>>>◌, lt_signed, ℕ, ◌-◌, ◌%◌, ◌^◌,
  Bool, false, not, ◌&&◌, ◌||◌,
}
use zonistation_one.Base.Map.{update}
use zonistation_one.Bus.Bytes.{load_le16, load_le32, store_le16, store_le32}
use zonistation_one.Bus.Ram.{
  ram_size, ram_load8, ram_load16, ram_load32, ram_store8, ram_store16, ram_store32,
}
use zonistation_one.Cpu.Exceptions.{cpu_exception, load_address_error, store_address_error}
use zonistation_one.Machine.{Interconnect, Cpu, Env}

-- `address & REGION_MASK[address >> 29]`: KSEG0 drops bit 31, KSEG1 bits 31-29.
unfoldable pub mask_region : ℕ → ℕ
mask_region addr =
    if addr >>> 29 == 4 then addr % 2 ^ 31 else if addr >>> 29 == 5 then addr % 2 ^ 29 else addr

abbrev pub within : ℕ → ℕ → ℕ → Bool
within lo hi x = leb lo x && ltb x hi

abbrev pub bios_size : ℕ
bios_size = 0x8_0000

unfoldable pub bios_load32 : (ℕ → ℕ) → ℕ → ℕ
bios_load32 bios offset = if ltb (bios_size - 4) offset then 0 else load_le32 bios offset

module _ {D : Type 0} where
  -- A read inside the busy window of a transfer waits for the end of the window.
  unfoldable pub dma_doc_cpu_read : Interconnect D → ℕ → Interconnect D
  dma_doc_cpu_read inter phys =
      let left =
        sub32 inter.dma_window_end (add32 inter.cpu_cycle_counter inter.cpu_mem_stall_cycles) in
      if ltb phys 0x80_0000 || within 0x1F80_1000 0x1F80_2000 phys
      then if lt_signed 0 left
        then record inter {
          cpu_cycle_counter = add32 inter.cpu_cycle_counter left;
          downcount = sub32 inter.downcount left;
          dma_window_open = false;
        }
        else record inter { dma_window_open = false }
      else inter

  unfoldable pub charged_load : Interconnect D → ℕ → Interconnect D
  charged_load inter phys = record inter {
    cpu_mem_stall_cycles =
        if ltb phys 0x80_0000
        then add32 inter.cpu_mem_stall_cycles inter.ram_load_stall
        else inter.cpu_mem_stall_cycles;
  }

  unfoldable pub bus_charge_cpu_load : Interconnect D → ℕ → Interconnect D
  bus_charge_cpu_load inter phys =
      let charged = charged_load inter phys in
      if charged.dma_window_open then dma_doc_cpu_read charged phys else charged

  -- `bus_charge_cpu_store` adds RAM_STORE_STALL, which is 0.
  unfoldable pub bus_charge_cpu_store : Interconnect D → ℕ → Interconnect D
  bus_charge_cpu_store inter phys =
      if ltb phys 0x80_0000
      then record inter { cpu_mem_stall_cycles = add32 inter.cpu_mem_stall_cycles 0 }
      else inter

module _ {D G : Type 0} (env : Env D G) where
  unfoldable pub address_error : Cpu D G → ℕ → Cpu D G
  address_error cpu address = cpu_exception (record cpu { badvaddr = address }) load_address_error

  unfoldable pub store_error : Cpu D G → ℕ → Cpu D G
  store_error cpu address = cpu_exception (record cpu { badvaddr = address }) store_address_error

  -- The address map of a load, after the watchpoint and the stall.
  unfoldable pub read_mapped32 : Interconnect D → ℕ → ℕ → ℕ × Interconnect D
  read_mapped32 inter address phys =
      if ltb phys 0x80_0000
      then (ram_load32 inter.ram (phys % ram_size), inter)
      else if within 0x1F80_0000 0x1F80_0400 phys && ltb address 0xA000_0000
      then (load_le32 inter.scratchpad (phys - 0x1F80_0000), inter)
      else if within 0x1F00_0000 0x1F80_0000 phys
      then (0, inter)
      else if within 0x1F80_1000 0x1F80_2000 phys
      then env.hw_read inter phys 4
      else if within 0x1F80_2000 0x1F80_4000 phys
      then (0xFFFF_FFFF, inter)
      else if within 0x1FA0_0000 0x1FC0_0000 phys
      then (0, inter)
      else if within 0x1FC0_0000 0x2000_0000 phys
      then (bios_load32 inter.bios ((phys - 0x1FC0_0000) % bios_size), inter)
      else if leb 0x2000_0000 phys
      then (0, inter)
      else (0xFFFF_FFFF, inter)

  unfoldable pub read_mapped16 : Interconnect D → ℕ → ℕ → ℕ × Interconnect D
  read_mapped16 inter address phys =
      if ltb phys 0x80_0000
      then (ram_load16 inter.ram (phys % ram_size), inter)
      else if within 0x1F80_0000 0x1F80_0400 phys && ltb address 0xA000_0000
      then (load_le16 inter.scratchpad (phys - 0x1F80_0000), inter)
      else if within 0x1F00_0000 0x1F80_0000 phys
      then (0, inter)
      else if within 0x1F80_1000 0x1F80_2000 phys
      then (let (v, inter') = env.hw_read inter phys 2 in (u16 v, inter'))
      else if within 0x1F80_2000 0x1F80_4000 phys
      then (0xFFFF, inter)
      else if within 0x1FA0_0000 0x1FC0_0000 phys
      then (0, inter)
      else if within 0x1FC0_0000 0x2000_0000 phys
      then (load_le16 inter.bios ((phys - 0x1FC0_0000) % bios_size), inter)
      else if leb 0x2000_0000 phys
      then (0, inter)
      else (0xFFFF, inter)

  unfoldable pub read_mapped8 : Interconnect D → ℕ → ℕ → ℕ × Interconnect D
  read_mapped8 inter address phys =
      if ltb phys 0x80_0000
      then (ram_load8 inter.ram (phys % ram_size), inter)
      else if within 0x1F80_0000 0x1F80_0400 phys && ltb address 0xA000_0000
      then (inter.scratchpad (phys - 0x1F80_0000), inter)
      else if within 0x1F00_0000 0x1F80_0000 phys
      then (0, inter)
      else if within 0x1F80_1000 0x1F80_2000 phys
      then (let (v, inter') = env.hw_read inter phys 1 in (u8 v, inter'))
      else if within 0x1F80_2000 0x1F80_4000 phys
      then (0xFF, inter)
      else if within 0x1FA0_0000 0x1FC0_0000 phys
      then (0, inter)
      else if within 0x1FC0_0000 0x2000_0000 phys
      then (inter.bios ((phys - 0x1FC0_0000) % bios_size), inter)
      else if leb 0x2000_0000 phys
      then (0, inter)
      else (0xFF, inter)

  -- What every load does before the address map: the read watchpoint, then the stall.
  unfoldable pub begin_load : Interconnect D → ℕ → ℕ → Interconnect D
  begin_load inter address size =
      bus_charge_cpu_load (env.check_read_watchpoint inter address size) (mask_region address)

  unfoldable pub interconnect_load32 : Cpu D G → ℕ → ℕ × Cpu D G
  interconnect_load32 cpu address =
      if address % 4 != 0
      then (0, address_error cpu address)
      else let (v, inter') =
          read_mapped32 (begin_load cpu.inter address 4) address (mask_region address) in
        (v, record cpu { inter = inter' })

  unfoldable pub interconnect_load16 : Cpu D G → ℕ → ℕ × Cpu D G
  interconnect_load16 cpu address =
      if address % 2 != 0
      then (0, address_error cpu address)
      else let (v, inter') =
          read_mapped16 (begin_load cpu.inter address 2) address (mask_region address) in
        (v, record cpu { inter = inter' })

  unfoldable pub interconnect_load8 : Cpu D G → ℕ → ℕ × Cpu D G
  interconnect_load8 cpu address =
      let (v, inter') =
        read_mapped8 (begin_load cpu.inter address 1) address (mask_region address) in
      (v, record cpu { inter = inter' })

  unfoldable pub begin_store : Interconnect D → ℕ → ℕ → Interconnect D
  begin_store inter address size =
      bus_charge_cpu_store (env.check_write_watchpoint inter address size) (mask_region address)

  unfoldable pub write_mapped32 : Interconnect D → ℕ → ℕ → Interconnect D
  write_mapped32 inter phys value =
      if ltb phys 0x80_0000
      then record inter { ram = ram_store32 inter.ram (phys % ram_size) value }
      else if within 0x1F80_0000 0x1F80_0400 phys
      then record inter { scratchpad = store_le32 inter.scratchpad (phys - 0x1F80_0000) value }
      else if within 0x1F80_1000 0x1F80_2000 phys
      then env.hw_write inter phys value 4
      else inter

  unfoldable pub write_mapped16 : Interconnect D → ℕ → ℕ → Interconnect D
  write_mapped16 inter phys value =
      if ltb phys 0x80_0000
      then record inter { ram = ram_store16 inter.ram (phys % ram_size) value }
      else if within 0x1F80_0000 0x1F80_0400 phys
      then record inter { scratchpad = store_le16 inter.scratchpad (phys - 0x1F80_0000) value }
      else if within 0x1F80_1000 0x1F80_2000 phys
      then env.hw_write inter phys value 2
      else inter

  -- In expansion 2 the offsets 23h and 80h are the character port.
  unfoldable pub write_mapped8 : Interconnect D → ℕ → ℕ → Interconnect D
  write_mapped8 inter phys value =
      if ltb phys 0x80_0000
      then record inter { ram = ram_store8 inter.ram (phys % ram_size) value }
      else if within 0x1F80_0000 0x1F80_0400 phys
      then record inter { scratchpad = update inter.scratchpad (phys - 0x1F80_0000) value }
      else if within 0x1F80_1000 0x1F80_2000 phys
      then env.hw_write inter phys value 1
      else if within 0x1F80_2000 0x1F80_4000 phys
      then if phys - 0x1F80_2000 == 0x23 || phys - 0x1F80_2000 == 0x80
        then env.tty_char inter value
        else inter
      else inter

  unfoldable pub interconnect_store32 : Cpu D G → ℕ → ℕ → Cpu D G
  interconnect_store32 cpu address value =
      if address % 4 != 0 then store_error cpu address else record cpu {
        inter = write_mapped32 (begin_store cpu.inter address 4) (mask_region address) value;
      }

  unfoldable pub interconnect_store16 : Cpu D G → ℕ → ℕ → Cpu D G
  interconnect_store16 cpu address value =
      if address % 2 != 0 then store_error cpu address else record cpu {
        inter = write_mapped16 (begin_store cpu.inter address 2) (mask_region address) value;
      }

  unfoldable pub interconnect_store8 : Cpu D G → ℕ → ℕ → Cpu D G
  interconnect_store8 cpu address value = record cpu {
    inter = write_mapped8 (begin_store cpu.inter address 1) (mask_region address) value;
  }

  -- `cpu_ram_fast_ok`: aligned, no read watchpoint, no busy window, and main RAM.
  abbrev pub cpu_ram_fast_ok : Interconnect D → ℕ → ℕ → Bool
  cpu_ram_fast_ok inter addr size =
      addr % size == 0
      && inter.read_watchpoint_count == 0
      && not inter.dma_window_open
      && ltb (mask_region addr) 0x80_0000

  unfoldable pub charge_ram : Cpu D G → Cpu D G
  charge_ram cpu = record cpu {
    inter = record (cpu.inter) {
      cpu_mem_stall_cycles = add32 cpu.inter.cpu_mem_stall_cycles cpu.inter.ram_load_stall;
    };
  }

  unfoldable pub cpu_load32 : Cpu D G → ℕ → ℕ × Cpu D G
  cpu_load32 cpu addr =
      if cpu_ram_fast_ok cpu.inter addr 4
      then (load_le32 cpu.inter.ram (mask_region addr % ram_size), charge_ram cpu)
      else interconnect_load32 cpu addr

  unfoldable pub cpu_load16 : Cpu D G → ℕ → ℕ × Cpu D G
  cpu_load16 cpu addr =
      if cpu_ram_fast_ok cpu.inter addr 2
      then (load_le16 cpu.inter.ram (mask_region addr % ram_size), charge_ram cpu)
      else interconnect_load16 cpu addr

  unfoldable pub cpu_load8 : Cpu D G → ℕ → ℕ × Cpu D G
  cpu_load8 cpu addr =
      if cpu_ram_fast_ok cpu.inter addr 1
      then (cpu.inter.ram (mask_region addr % ram_size), charge_ram cpu)
      else interconnect_load8 cpu addr
