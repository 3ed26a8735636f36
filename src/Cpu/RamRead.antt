-- ===== src/Cpu/RamRead.antt =====
-- An aligned load from RAM by the fast path of include/cpu_mem.h or by src/core/bus.c.
use zonistation_one.Base.{
  lt→ltb, if-true, if-false, if-holds, ℕ, ◌%◌, ◌<◌, ◌≡◌, refl, ap, ◌∙◌, false, arith,
}
use zonistation_one.Bus.Access.{
  mask_region, interconnect_load32, cpu_load32, cpu_ram_fast_ok, charge_ram, read_mapped32,
  begin_load,
}
use zonistation_one.Bus.Bytes.{load_le32}
use zonistation_one.Bus.Ram.{ram_size, is_out_of_bounds, ram_load32}
use zonistation_one.Bus.RoundTrip.{loaded_word, aligned_load, begin_load-ram, with_bus, in_bounds}
use zonistation_one.Machine.{Cpu, Env, Interconnect}

word_in_bounds : (b : ℕ) → b % 4 ≡ 0 → is_out_of_bounds (mask_region b % ram_size) 4 ≡ false
word_in_bounds b h = ground (arith, in_bounds b h)

ram_word :
    (ram : ℕ → ℕ) (b : ℕ)
    → b % 4 ≡ 0
    → ram_load32 ram (mask_region b % ram_size) ≡ load_le32 ram (mask_region b % ram_size)
unfolding ram_load32
ram_word ram b h = if-false 0 (word_in_bounds b h)

module _ {D G : Type 0} (env : Env D G) where
  -- An aligned load from RAM.
  pub record IsRamRead (cpu : Cpu D G) (b : ℕ) (r : ℕ × Cpu D G) : Type 0 where
    pub word : r.0 ≡ load_le32 cpu.inter.ram (mask_region b % ram_size)
    pub regs : r.1.regs ≡ cpu.regs
    pub sr : r.1.sr ≡ cpu.sr
    pub in_flight : r.1.delay_load_reg ≡ cpu.delay_load_reg
    pub ram : r.1.inter.ram ≡ cpu.inter.ram

  fast_read :
      (cpu : Cpu D G) (b : ℕ)
      → IsRamRead cpu b (load_le32 cpu.inter.ram (mask_region b % ram_size), charge_ram env cpu)
  unfolding charge_ram
  fast_read cpu b = record { word = refl; regs = refl; sr = refl; in_flight = refl; ram = refl }

  mapped_ram :
      (inter : Interconnect D) (b phys : ℕ)
      → phys < 0x80_0000
      → (read_mapped32 env inter b phys).1.ram ≡ inter.ram
  unfolding read_mapped32
  mapped_ram inter b phys h =
      ap (λ (r : ℕ × Interconnect D). r.1.ram) (if-true _ (lt→ltb phys 0x80_0000 h))

  slow_read :
      (cpu : Cpu D G) (b : ℕ)
      → (env.check_read_watchpoint cpu.inter b 4).ram ≡ cpu.inter.ram
      → b % 4 ≡ 0
      → mask_region b < 0x80_0000
      → IsRamRead cpu b (interconnect_load32 env cpu b)
  unfolding with_bus
  slow_read cpu b quiet aligned in_ram =
      let form = aligned_load env cpu b (ground (arith, aligned)) in
      record {
        word = loaded_word env cpu b quiet aligned in_ram ∙ ram_word cpu.inter.ram b aligned;
        regs = ap (λ (r : ℕ × Cpu D G). r.1.regs) form;
        sr = ap (λ (r : ℕ × Cpu D G). r.1.sr) form;
        in_flight = ap (λ (r : ℕ × Cpu D G). r.1.delay_load_reg) form;
        ram =
            ap (λ (r : ℕ × Cpu D G). r.1.inter.ram) form
            ∙ mapped_ram (begin_load env cpu.inter b 4) b (mask_region b) in_ram
            ∙ begin_load-ram env cpu.inter b
            ∙ quiet;
      }

  pub cpu_load32-IsRamRead :
      (cpu : Cpu D G) (b : ℕ)
      → (env.check_read_watchpoint cpu.inter b 4).ram ≡ cpu.inter.ram
      → b % 4 ≡ 0
      → mask_region b < 0x80_0000
      → IsRamRead cpu b (cpu_load32 env cpu b)
  unfolding cpu_load32
  cpu_load32-IsRamRead cpu b quiet aligned in_ram =
      if-holds (IsRamRead cpu b) (cpu_ram_fast_ok env cpu.inter b 4) (fast_read cpu b)
        (slow_read cpu b quiet aligned in_ram)
