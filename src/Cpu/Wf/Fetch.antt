-- ===== src/Cpu/Wf/Fetch.antt =====
-- The instruction cache of cpu_icache.c.
use zonistation_one.Base.{
  ltb, leb, ◌==◌, ◌>>>◌, ℕ, zero, suc, ◌+◌, ◌-◌, ◌*◌, ◌%◌, ◌^◌, ◌≤◌, Bool, not, ◌&&◌, ◌||◌, arith,
}
use zonistation_one.Bus.Access.{mask_region}
use zonistation_one.Cpu.ICache.{
  bios_rom_phys_start, bios_rom_phys_end, line_index, word_index, charge_bios_rom_cycles,
  fetch_word, fill_line, cache_miss, cpu_icache_fetch,
}
use zonistation_one.Cpu.Wf.Cop0.{if-IsWf}
use zonistation_one.Cpu.Wf.Core.{IsWord, IsWf, AfterIsWf, if-AfterIsWf}
use zonistation_one.Cpu.Wf.Devices.{EnvIsWf, with_inter-IsWf}
use zonistation_one.Cpu.Wf.LoadStore.{set_line-IsWf}
use zonistation_one.Cpu.Wf.Loads.{interconnect_load32-IsWf}
use zonistation_one.Machine.{ICacheLine, Cpu, Env}

module _ {D G : Type 0} where
  charge_rom-IsWf :
      {cpu : Cpu D G} (paddr n : ℕ) (count : Bool)
      → IsWf cpu
      → IsWf (charge_bios_rom_cycles cpu paddr n count)
  unfolding charge_bios_rom_cycles
  charge_rom-IsWf {cpu} paddr n count w =
      if-IsWf (not count || ltb paddr bios_rom_phys_start || leb bios_rom_phys_end paddr) w (
        with_inter-IsWf w
          (record { ram = w.memory.ram; scratchpad = w.memory.scratchpad; bios = w.memory.bios }))

module _ {D G : Type 0} {env : Env D G} (ok : EnvIsWf env) where
  fetch_word-IsWf : (cpu : Cpu D G) (a : ℕ) → IsWf cpu → IsWord a → IsWf (fetch_word env cpu a).1
  unfolding fetch_word
  fetch_word-IsWf cpu a w h =
      let done = interconnect_load32-IsWf ok cpu a w h in
      with_inter-IsWf done.cpu (record {
        ram = done.cpu.memory.ram;
        scratchpad = done.cpu.memory.scratchpad;
        bios = done.cpu.memory.bios;
      })

  fill_line-IsWf :
      (left j start : ℕ) (cpu : Cpu D G) (line : ICacheLine)
      → IsWf cpu
      → start + (j + left) * 4 ≤ 2 ^ 32
      → IsWf (fill_line env left j start cpu line).0
  unfolding fill_line
  fill_line-IsWf zero j start cpu line w h = w
  fill_line-IsWf (suc left) j start cpu line w h =
      fill_line-IsWf left (j + 1) start _ _ (fetch_word-IsWf cpu (start + j * 4) w (omega arith))
        (omega arith)

  cache_miss-IsWf :
      (cpu : Cpu D G) (paddr : ℕ) (count : Bool)
      → IsWf cpu
      → IsWord paddr
      → IsWf (cache_miss env cpu paddr count).1
  unfolding cache_miss
  cache_miss-IsWf cpu paddr count w h = charge_rom-IsWf _ (4 - word_index paddr) count (
      set_line-IsWf (line_index paddr) _ (
        fill_line-IsWf (4 - word_index paddr) (word_index paddr) (paddr - paddr % 16) cpu _ w
          (omega arith)))

  mask_region-IsWord : (a : ℕ) → IsWord a → IsWord (mask_region a)
  unfolding mask_region
  mask_region-IsWord a h = ground arith

  pub icache_fetch-IsWf :
      (cpu : Cpu D G) (a : ℕ) (count : Bool)
      → IsWf cpu
      → IsWord a
      → AfterIsWf (cpu_icache_fetch env cpu a count)
  unfolding cpu_icache_fetch
  icache_fetch-IsWf cpu a count w h =
      let paddr = mask_region a in
      let line = cpu.icache (line_index paddr) in
      if-AfterIsWf (a >>> 29 == 5)
        (record { cpu = charge_rom-IsWf (a % 2 ^ 29) 1 count (fetch_word-IsWf cpu a w h) })
        (if-AfterIsWf (line.tag == paddr >>> 12 && line.valid (word_index paddr))
          (record { cpu = w })
          (record { cpu = cache_miss-IsWf cpu paddr count w (mask_region-IsWord a h) }))
