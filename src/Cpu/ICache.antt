-- ===== src/Cpu/ICache.antt =====
-- src/cpu/cpu_icache.c: the instruction cache of 256 lines of 4 words.
use zonistation_one.Base.{
  ltb, leb, ◌==◌, if◌then◌else◌, u32, add32, sub32, ◌>>>◌, ℕ, zero, suc, ◌+◌, ◌-◌, ◌*◌, ◌%◌, ◌^◌,
  Bool, true, false, not, ◌&&◌, ◌||◌,
}
use zonistation_one.Base.Map.{update}
use zonistation_one.Bus.Access.{mask_region, interconnect_load32}
use zonistation_one.Machine.{ICacheLine, Cpu, Env}

abbrev pub bios_rom_phys_start : ℕ
bios_rom_phys_start = 0x1FC0_0000

abbrev pub bios_rom_phys_end : ℕ
bios_rom_phys_end = 0x1FC8_0000

abbrev pub line_index : ℕ → ℕ
line_index paddr = (paddr >>> 4) % 256

abbrev pub word_index : ℕ → ℕ
word_index paddr = (paddr >>> 2) % 4

-- `for (j = 0; j < word_index; ++j) line->valid[j] = false;`
unfoldable pub invalidate_below : ℕ → (ℕ → Bool) → ℕ → Bool
invalidate_below n valid j = if ltb j n then false else valid j

-- The cache isolated stores clear all four flags of a line.
unfoldable pub invalidate_line : ICacheLine → ICacheLine
invalidate_line line = record line { valid = invalidate_below 4 line.valid }

module _ {D G : Type 0} where
  -- The wait states of the BIOS ROM, 0 words elsewhere or when cycles are not counted.
  unfoldable pub charge_bios_rom_cycles : Cpu D G → ℕ → ℕ → Bool → Cpu D G
  charge_bios_rom_cycles cpu paddr word_count count_cycles =
      if not count_cycles || ltb paddr bios_rom_phys_start || leb bios_rom_phys_end paddr
      then cpu
      else let extra = u32 (cpu.inter.bios_access_cycles * word_count) in
        record cpu {
          inter = record (cpu.inter) {
            cpu_cycle_counter = add32 cpu.inter.cpu_cycle_counter extra;
            downcount = sub32 cpu.inter.downcount extra;
          };
        }

  unfoldable pub set_line : Cpu D G → ℕ → ICacheLine → Cpu D G
  set_line cpu index line = record cpu { icache = update cpu.icache index line }

  unfoldable pub invalidate : Cpu D G → ℕ → Cpu D G
  invalidate cpu paddr =
      set_line cpu (line_index paddr) (invalidate_line (cpu.icache (line_index paddr)))

module _ {D G : Type 0} (env : Env D G) where
  -- `ICACHE_FETCH_NO_DATA_STALL`: the load's own data stall is put back.
  unfoldable pub fetch_word : Cpu D G → ℕ → ℕ × Cpu D G
  fetch_word cpu address =
      let saved = cpu.inter.cpu_mem_stall_cycles in
      let (v, after) = interconnect_load32 env cpu address in
      (v, record after { inter = record (after.inter) { cpu_mem_stall_cycles = saved } })

  -- The words `j`, `j + 1`, ... of the line at `start`: `left` of them.
  unfoldable pub fill_line : ℕ → ℕ → ℕ → Cpu D G → ICacheLine → Cpu D G × ICacheLine
  fill_line zero j start cpu line = (cpu, line)
  fill_line (suc left) j start cpu line =
      let (v, after) = fetch_word cpu (start + j * 4) in
      fill_line left (j + 1) start after
        (record line { words = update line.words j v; valid = update line.valid j true })

  -- The line is written back once it is filled: the loads of the fill do not touch the cache.
  unfoldable pub cache_miss : Cpu D G → ℕ → Bool → ℕ × Cpu D G
  cache_miss cpu paddr count_cycles =
      let index = line_index paddr in
      let word = word_index paddr in
      let start = paddr - paddr % 16 in
      let line = cpu.icache index in
      let emptied = record line { tag = paddr >>> 12; valid = invalidate_below word line.valid } in
      let (fetched, filled) = fill_line (4 - word) word start cpu emptied in
      let stored = set_line fetched index filled in
      let charged = charge_bios_rom_cycles stored (start + word * 4) (4 - word) count_cycles in
      (filled.words word, charged)

  unfoldable pub cpu_icache_fetch : Cpu D G → ℕ → Bool → ℕ × Cpu D G
  cpu_icache_fetch cpu vaddr count_cycles =
      if vaddr >>> 29 == 5
      then (let (v, after) = fetch_word cpu vaddr in
          (v, charge_bios_rom_cycles after (vaddr % 2 ^ 29) 1 count_cycles))
      else let paddr = mask_region vaddr in
        let line = cpu.icache (line_index paddr) in
        if line.tag == paddr >>> 12 && line.valid (word_index paddr)
        then (line.words (word_index paddr), cpu)
        else cache_miss cpu paddr count_cycles
