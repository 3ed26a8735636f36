-- ===== src/Bus/RoundTrip.antt =====
-- A word stored through the bus and loaded back: src/core/bus.c over src/core/ram.c.
use zonistation_one.Base.{
  ltb, ◌!=◌, lt→ltb, if-true, if-false, if-same, add32, sub32, lt_signed, ℕ, ◌+◌, ◌%◌, ◌^◌, ◌≤◌,
  ◌<◌, ◌≡◌, refl, ap, ◌∙◌, true, false, ◌||◌, arith,
}
use zonistation_one.Bus.Access.{
  mask_region, dma_doc_cpu_read, charged_load, bus_charge_cpu_load, interconnect_load32,
  interconnect_store32, within, read_mapped32, begin_load, begin_store, write_mapped32,
}
use zonistation_one.Bus.Bytes.{load_le32, store_le32}
use zonistation_one.Bus.Ram.{ram_size, is_out_of_bounds, ram_load32, ram_store32}
use zonistation_one.Cpu.Arithmetic.{fits}
use zonistation_one.Machine.{Interconnect, Cpu, Env}

load_le32-store_le32 : (f : ℕ → ℕ) (off v : ℕ) → v < 2 ^ 32 → load_le32 (store_le32 f off v) off ≡ v
load_le32-store_le32 f off v h = ground arith

ram_load32-ram_store32 :
    (ram : ℕ → ℕ) (off v : ℕ)
    → off + 4 ≤ ram_size
    → v < 2 ^ 32
    → ram_load32 (ram_store32 ram off v) off ≡ v
unfolding ram_load32 ram_store32
ram_load32-ram_store32 ram off v fits h =
    let inside : is_out_of_bounds off 4 ≡ false = ground arith in
    if-false 0 inside
    ∙ ap (λ r. load_le32 r off) (if-false ram inside)
    ∙ load_le32-store_le32 ram off v h

pub in_bounds : (b : ℕ) → b % 4 ≡ 0 → mask_region b % ram_size + 4 ≤ ram_size
unfolding mask_region
in_bounds b h = ground arith

module _ {D : Type 0} where
  abbrev ram_of : Interconnect D → ℕ → ℕ
  ram_of inter = inter.ram

  doc_read-ram : (inter : Interconnect D) (phys : ℕ) → (dma_doc_cpu_read inter phys).ram ≡ inter.ram
  unfolding dma_doc_cpu_read
  doc_read-ram inter phys =
      let waits =
        lt_signed 0
          (sub32 inter.dma_window_end (add32 inter.cpu_cycle_counter inter.cpu_mem_stall_cycles)) in
      if-same ram_of (ltb phys 0x80_0000 || within 0x1F80_1000 0x1F80_2000 phys)
        (if-same ram_of waits refl refl) refl

  charge_load-ram :
      (inter : Interconnect D) (phys : ℕ) → (bus_charge_cpu_load inter phys).ram ≡ inter.ram
  unfolding bus_charge_cpu_load charged_load
  charge_load-ram inter phys =
      if-same ram_of inter.dma_window_open (doc_read-ram (charged_load inter phys) phys) refl

module _ {D G : Type 0} (env : Env D G) where
  read_ram :
      (inter : Interconnect D) (address phys : ℕ)
      → ltb phys 0x80_0000 ≡ true
      → read_mapped32 env inter address phys ≡ (ram_load32 inter.ram (phys % ram_size), inter)
  unfolding read_mapped32
  read_ram inter address phys e = if-true _ e

  unfoldable pub with_bus : Cpu D G → ℕ × Interconnect D → ℕ × Cpu D G
  with_bus cpu r = (r.0, record cpu { inter = r.1 })

  pub aligned_load :
      (cpu : Cpu D G) (b : ℕ)
      → (b % 4 != 0) ≡ false
      → interconnect_load32 env cpu b
        ≡ with_bus cpu (read_mapped32 env (begin_load env cpu.inter b 4) b (mask_region b))
  unfolding interconnect_load32 with_bus
  aligned_load cpu b e = if-false _ e

  pub begin_load-ram :
      (inter : Interconnect D) (b : ℕ)
      → (begin_load env inter b 4).ram ≡ (env.check_read_watchpoint inter b 4).ram
  unfolding begin_load
  begin_load-ram inter b = charge_load-ram (env.check_read_watchpoint inter b 4) (mask_region b)

  pub loaded_word :
      (cpu : Cpu D G) (b : ℕ)
      → (env.check_read_watchpoint cpu.inter b 4).ram ≡ cpu.inter.ram
      → b % 4 ≡ 0
      → mask_region b < 0x80_0000
      → (interconnect_load32 env cpu b).0 ≡ ram_load32 cpu.inter.ram (mask_region b % ram_size)
  unfolding with_bus
  loaded_word cpu b quiet hb rb =
      let aligned : (b % 4 != 0) ≡ false = ground arith in
      let begun = begin_load env cpu.inter b 4 in
      let read = read_ram begun b (mask_region b) (lt→ltb (mask_region b) 0x80_0000 rb) in
      ap (λ (r : ℕ × Cpu D G). r.0) (aligned_load cpu b aligned ∙ ap (with_bus cpu) read)
      ∙ ap (λ m. ram_load32 m (mask_region b % ram_size)) (begin_load-ram cpu.inter b ∙ quiet)

  aligned_store :
      (cpu : Cpu D G) (a v : ℕ)
      → (a % 4 != 0) ≡ false
      → interconnect_store32 env cpu a v ≡ record cpu {
        inter = write_mapped32 env (begin_store env cpu.inter a 4) (mask_region a) v;
      }
  unfolding interconnect_store32
  aligned_store cpu a v e = if-false _ e

  write_ram :
      (inter : Interconnect D) (phys v : ℕ)
      → ltb phys 0x80_0000 ≡ true
      → write_mapped32 env inter phys v
        ≡ record inter { ram = ram_store32 inter.ram (phys % ram_size) v }
  unfolding write_mapped32
  write_ram inter phys v e = if-true _ e

  stored_ram :
      (cpu : Cpu D G) (a v : ℕ)
      → a % 4 ≡ 0
      → mask_region a < 0x80_0000
      → (interconnect_store32 env cpu a v).inter.ram
        ≡ ram_store32 (begin_store env cpu.inter a 4).ram (mask_region a % ram_size) v
  stored_ram cpu a v ha ra =
      let aligned : (a % 4 != 0) ≡ false = ground arith in
      let begun = begin_store env cpu.inter a 4 in
      ap (λ (c : Cpu D G). c.inter.ram) (aligned_store cpu a v aligned)
      ∙ ap (λ (inter : Interconnect D). inter.ram)
          (write_ram begun (mask_region a) v (lt→ltb (mask_region a) 0x80_0000 ra))

  -- A word stored at an aligned address of RAM is loaded back from every aligned address that is
  -- the same byte of RAM, in any of its four mirrors and through any cached or uncached segment, if
  -- the read watchpoint check leaves RAM alone.
  pub interconnect_load32-interconnect_store32 :
      (cpu : Cpu D G) (a b v : ℕ)
      → ((inter : Interconnect D) → (env.check_read_watchpoint inter b 4).ram ≡ inter.ram)
      → a % 4 ≡ 0
      → b % 4 ≡ 0
      → mask_region a < 0x80_0000
      → mask_region b < 0x80_0000
      → mask_region a % ram_size ≡ mask_region b % ram_size
      → v < 2 ^ 32
      → (interconnect_load32 env (interconnect_store32 env cpu a v) b).0 ≡ v
  interconnect_load32-interconnect_store32 cpu a b v quiet ha hb ra rb same h =
      let off = mask_region b % ram_size in
      let fits : off + 4 ≤ ram_size = in_bounds b hb in
      loaded_word (interconnect_store32 env cpu a v) b (quiet _) hb rb
      ∙ ap (λ m. ram_load32 m off)
          (stored_ram cpu a v ha ra
            ∙ ap (λ o. ram_store32 (begin_store env cpu.inter a 4).ram o v) same)
      ∙ ram_load32-ram_store32 (begin_store env cpu.inter a 4).ram off v fits h
