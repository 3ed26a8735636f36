-- ===== src/Bus/FastPath.antt =====
-- The fast path to RAM of include/cpu_mem.h against the bus of src/core/bus.c.
use zonistation_one.Base.{
  ltb, ◌!=◌, if◌then◌else◌, if-true, if-false, add32, ℕ, ◌%◌, ◌≡◌, refl, sym, ap, ◌∙◌, Bool, true,
  false, arith,
}
use zonistation_one.Bus.Access.{
  interconnect_load32, cpu_load32, mask_region, charged_load, bus_charge_cpu_load, read_mapped32,
  begin_load, cpu_ram_fast_ok, charge_ram, read_mapped16, read_mapped8, interconnect_load16,
  interconnect_load8, cpu_load16, cpu_load8,
}
use zonistation_one.Bus.Bytes.{load_le32, load_le16}
use zonistation_one.Bus.Ram.{ram_size, ram_load32, is_out_of_bounds, ram_load16, ram_load8}
use zonistation_one.Machine.{Cpu, Env, Interconnect}

ram_word_in_bounds : (phys : ℕ) → phys % 4 ≡ 0 → is_out_of_bounds (phys % ram_size) 4 ≡ false
ram_word_in_bounds phys h = ground arith

ram_half_in_bounds : (phys : ℕ) → phys % 2 ≡ 0 → is_out_of_bounds (phys % ram_size) 2 ≡ false
ram_half_in_bounds phys h = ground arith

ram_byte_in_bounds : (phys : ℕ) → is_out_of_bounds (phys % ram_size) 1 ≡ false
ram_byte_in_bounds phys = ground arith

mask_region-mod_4 : (a : ℕ) → a % 4 ≡ 0 → mask_region a % 4 ≡ 0
unfolding mask_region
mask_region-mod_4 a h = ground arith

mask_region-mod_2 : (a : ℕ) → a % 2 ≡ 0 → mask_region a % 2 ≡ 0
unfolding mask_region
mask_region-mod_2 a h = ground arith

module _ {D G : Type 0} (env : Env D G) where
  either : (b : Bool) {x y : ℕ × Cpu D G} → (b ≡ true → x ≡ y) → (if b then x else y) ≡ y
  either true f = f refl
  either false f = refl

  charge_shut :
      (inter : Interconnect D) (phys : ℕ)
      → inter.dma_window_open ≡ false
      → bus_charge_cpu_load inter phys ≡ charged_load inter phys
  unfolding bus_charge_cpu_load charged_load
  charge_shut inter phys shut = if-false _ shut

  -- What is charged for a load from RAM.
  charged : Interconnect D → Interconnect D
  charged inter = record inter {
    cpu_mem_stall_cycles = add32 inter.cpu_mem_stall_cycles inter.ram_load_stall;
  }

  charged_ram :
      (inter : Interconnect D) (phys : ℕ)
      → ltb phys 0x80_0000 ≡ true
      → charged_load inter phys ≡ charged inter
  unfolding charged_load charged
  charged_ram inter phys in_ram =
      ap (λ s. record inter { cpu_mem_stall_cycles = s }) (if-true _ in_ram)

  quiet_begin_load :
      (inter : Interconnect D) (addr size : ℕ)
      → env.check_read_watchpoint inter addr size ≡ inter
      → inter.dma_window_open ≡ false
      → ltb (mask_region addr) 0x80_0000 ≡ true
      → begin_load env inter addr size ≡ charged inter
  unfolding begin_load
  quiet_begin_load inter addr size quiet shut in_ram =
      ap (λ i. bus_charge_cpu_load i (mask_region addr)) quiet
      ∙ charge_shut inter (mask_region addr) shut
      ∙ charged_ram inter (mask_region addr) in_ram

  with_bus : Cpu D G → ℕ × Interconnect D → ℕ × Cpu D G
  with_bus cpu r = (r.0, record cpu { inter = r.1 })

  loaded32 : Cpu D G → ℕ → Interconnect D → ℕ × Cpu D G
  loaded32 cpu addr inter = with_bus cpu (read_mapped32 env inter addr (mask_region addr))

  fast_load32 :
      (cpu : Cpu D G) (addr : ℕ)
      → (cpu.inter.read_watchpoint_count ≡ 0
          → env.check_read_watchpoint cpu.inter addr 4 ≡ cpu.inter)
      → cpu_ram_fast_ok env cpu.inter addr 4 ≡ true
      → (load_le32 cpu.inter.ram (mask_region addr % ram_size), charge_ram env cpu)
        ≡ interconnect_load32 env cpu addr
  unfolding interconnect_load32 loaded32 with_bus read_mapped32 charged charge_ram ram_load32
  fast_load32 cpu addr quiet e =
      let none : cpu.inter.read_watchpoint_count ≡ 0 = ground (arith, e) in
      let aligned : (addr % 4 != 0) ≡ false = ground (arith, e) in
      let shut : cpu.inter.dma_window_open ≡ false = ground (arith, e) in
      let in_ram : ltb (mask_region addr) 0x80_0000 ≡ true = ground (arith, e) in
      let begun = quiet_begin_load cpu.inter addr 4 (quiet none) shut in_ram in
      sym (
        if-false _ aligned
        ∙ ap (loaded32 cpu addr) begun
        ∙ ap (with_bus cpu) (if-true _ in_ram)
        ∙ ap (λ v. (v, charge_ram env cpu))
            (if-false _
              (ram_word_in_bounds (mask_region addr) (mask_region-mod_4 addr (ground (arith, e))))))

  loaded16 : Cpu D G → ℕ → Interconnect D → ℕ × Cpu D G
  loaded16 cpu addr inter = with_bus cpu (read_mapped16 env inter addr (mask_region addr))

  fast_load16 :
      (cpu : Cpu D G) (addr : ℕ)
      → (cpu.inter.read_watchpoint_count ≡ 0
          → env.check_read_watchpoint cpu.inter addr 2 ≡ cpu.inter)
      → cpu_ram_fast_ok env cpu.inter addr 2 ≡ true
      → (load_le16 cpu.inter.ram (mask_region addr % ram_size), charge_ram env cpu)
        ≡ interconnect_load16 env cpu addr
  unfolding interconnect_load16 loaded16 with_bus read_mapped16 charged charge_ram ram_load16
  fast_load16 cpu addr quiet e =
      let none : cpu.inter.read_watchpoint_count ≡ 0 = ground (arith, e) in
      let aligned : (addr % 2 != 0) ≡ false = ground (arith, e) in
      let shut : cpu.inter.dma_window_open ≡ false = ground (arith, e) in
      let in_ram : ltb (mask_region addr) 0x80_0000 ≡ true = ground (arith, e) in
      let begun = quiet_begin_load cpu.inter addr 2 (quiet none) shut in_ram in
      sym (
        if-false _ aligned
        ∙ ap (loaded16 cpu addr) begun
        ∙ ap (with_bus cpu) (if-true _ in_ram)
        ∙ ap (λ v. (v, charge_ram env cpu))
            (if-false _
              (ram_half_in_bounds (mask_region addr) (mask_region-mod_2 addr (ground (arith, e))))))

  loaded8 : Cpu D G → ℕ → Interconnect D → ℕ × Cpu D G
  loaded8 cpu addr inter = with_bus cpu (read_mapped8 env inter addr (mask_region addr))

  fast_load8 :
      (cpu : Cpu D G) (addr : ℕ)
      → (cpu.inter.read_watchpoint_count ≡ 0
          → env.check_read_watchpoint cpu.inter addr 1 ≡ cpu.inter)
      → cpu_ram_fast_ok env cpu.inter addr 1 ≡ true
      → (cpu.inter.ram (mask_region addr % ram_size), charge_ram env cpu)
        ≡ interconnect_load8 env cpu addr
  unfolding interconnect_load8 loaded8 with_bus read_mapped8 charged charge_ram ram_load8
  fast_load8 cpu addr quiet e =
      let none : cpu.inter.read_watchpoint_count ≡ 0 = ground (arith, e) in
      let shut : cpu.inter.dma_window_open ≡ false = ground (arith, e) in
      let in_ram : ltb (mask_region addr) 0x80_0000 ≡ true = ground (arith, e) in
      let begun = quiet_begin_load cpu.inter addr 1 (quiet none) shut in_ram in
      sym (
        ap (loaded8 cpu addr) begun
        ∙ ap (with_bus cpu) (if-true _ in_ram)
        ∙ ap (λ v. (v, charge_ram env cpu)) (if-false _ (ram_byte_in_bounds (mask_region addr))))

  -- While no read watchpoint is set (and the check then leaves the bus alone), the inlined loads of
  -- 32, 16 and 8 bits give the same value and the same CPU, stall included, as the loads through
  -- the bus, at every address, aligned or not, in RAM or not.
  pub cpu_load-interconnect_load :
      (cpu : Cpu D G) (addr : ℕ)
      → ((size : ℕ)
          → cpu.inter.read_watchpoint_count ≡ 0
          → env.check_read_watchpoint cpu.inter addr size ≡ cpu.inter)
      → (cpu_load32 env cpu addr ≡ interconnect_load32 env cpu addr)
        × (cpu_load16 env cpu addr ≡ interconnect_load16 env cpu addr)
        × (cpu_load8 env cpu addr ≡ interconnect_load8 env cpu addr)
  unfolding cpu_load32 cpu_load16 cpu_load8
  cpu_load-interconnect_load cpu addr quiet = (
    either _ (fast_load32 cpu addr (quiet 4)),
    either _ (fast_load16 cpu addr (quiet 2)),
    either _ (fast_load8 cpu addr (quiet 1)),
  )
