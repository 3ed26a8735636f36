-- ===== src/Spu/Transfer.antt =====
-- The transfers to and from the sound RAM: src/spu/spu_dma.c. The counter of the debug log is left
-- out.
use zonistation_one.Base.{
  ltb, leb, ◌==◌, ◌!=◌, if◌then◌else◌, u16, add32, ◌>>>◌, set_bit, clear_bit, ℕ, zero, suc, ◌/◌,
  ◌%◌, Bool, ◌&&◌, List, [], ◌∷◌,
}
use zonistation_one.Base.Map.{update}
use zonistation_one.Spu.Trap.{SpuPort, SpuOnBus, spu_ram_size, spu_check_irq}

-- SPUCNT bits 4 and 5.
abbrev pub transfer_mode : SpuPort → ℕ
transfer_mode spu = (spu.control >>> 4) % 4

abbrev pub wrapped_addr : ℕ → ℕ
wrapped_addr addr = if ltb addr spu_ram_size then addr else addr % spu_ram_size

abbrev pub next_addr : ℕ → ℕ
next_addr addr = let next = add32 addr 2 in if ltb next spu_ram_size then next else 0

abbrev pub set_addr_reg : SpuPort → SpuPort
set_addr_reg spu = record spu { transfer_addr_reg = u16 (spu.transfer_addr / 8) }

abbrev pub begin_busy : SpuPort → SpuPort
begin_busy spu = record spu { status = set_bit spu.status 10 }

abbrev pub end_busy : SpuPort → SpuPort
end_busy spu = record spu { status = clear_bit spu.status 10 }

module _ {D : Type 0} where
  abbrev pub on_spu : (SpuPort → SpuPort) → SpuOnBus D → SpuOnBus D
  on_spu f s = record s { spu = f s.spu }

  abbrev pub advance_addr : SpuOnBus D → SpuOnBus D
  advance_addr s = on_spu (λ spu. record spu { transfer_addr = next_addr spu.transfer_addr }) s

  -- One halfword to the transfer address, with the check of the IRQ address.
  unfoldable pub store_halfword : SpuOnBus D → ℕ → SpuOnBus D
  store_halfword s value =
      let addr = wrapped_addr s.spu.transfer_addr in
      let stored =
        on_spu (λ spu. record spu { ram = update spu.ram (addr / 2) value; transfer_addr = addr })
          s in
      advance_addr (spu_check_irq stored addr).1

  unfoldable pub store_halfwords : SpuOnBus D → List ℕ → SpuOnBus D
  store_halfwords s [] = s
  store_halfwords s (value ∷ values) = store_halfwords (store_halfword s value) values

  unfoldable pub spu_dma_write_halfwords : SpuOnBus D → List ℕ → SpuOnBus D
  spu_dma_write_halfwords s values =
      on_spu (λ spu. end_busy (set_addr_reg spu)) (store_halfwords (on_spu begin_busy s) values)

  -- `last_val` is kept where the address is out of range.
  unfoldable pub load_halfwords : SpuOnBus D → ℕ → ℕ → List ℕ × SpuOnBus D
  load_halfwords s last zero = ([], s)
  load_halfwords s last (suc count) =
      let addr = wrapped_addr s.spu.transfer_addr in
      let value = if ltb (addr / 2) (spu_ram_size / 2) then s.spu.ram (addr / 2) else last in
      let moved = on_spu (λ spu. record spu { transfer_addr = addr }) s in
      let rest = load_halfwords (advance_addr (spu_check_irq moved addr).1) value count in
      (value ∷ rest.0, rest.1)

  unfoldable pub spu_dma_read_halfwords : SpuOnBus D → ℕ → List ℕ × SpuOnBus D
  spu_dma_read_halfwords s count =
      let loaded = load_halfwords (on_spu begin_busy s) 0 count in
      (loaded.0, on_spu (λ spu. end_busy (set_addr_reg spu)) loaded.1)

  unfoldable pub spu_transfer_write : SpuOnBus D → ℕ → SpuOnBus D
  spu_transfer_write s value =
      if transfer_mode s.spu != 1 && transfer_mode s.spu != 2
      then s
      else on_spu set_addr_reg (store_halfword s value)

  unfoldable pub spu_transfer_read : SpuOnBus D → ℕ × SpuOnBus D
  spu_transfer_read s =
      let addr = wrapped_addr s.spu.transfer_addr in
      let moved = on_spu (λ spu. record spu { transfer_addr = addr }) s in
      if transfer_mode s.spu != 3 then (0, s) else (
        moved.spu.ram (addr / 2),
        on_spu set_addr_reg (advance_addr (spu_check_irq moved addr).1),
      )

  -- A 33rd halfword is dropped.
  unfoldable pub spu_manual_fifo_push : SpuOnBus D → ℕ → SpuOnBus D
  spu_manual_fifo_push s value =
      if leb 32 s.spu.manual_fifo_count
      then s
      else on_spu
          (λ spu. record spu {
            manual_fifo = update spu.manual_fifo spu.manual_fifo_count value;
            manual_fifo_count = suc spu.manual_fifo_count;
          })
          s

  -- `count` halfwords from index `i` on.
  unfoldable pub flush_from : SpuOnBus D → ℕ → ℕ → SpuOnBus D
  flush_from s i zero = s
  flush_from s i (suc count) = flush_from (spu_transfer_write s (s.spu.manual_fifo i)) (suc i) count

  unfoldable pub spu_manual_fifo_flush : SpuOnBus D → SpuOnBus D
  spu_manual_fifo_flush s =
      let n = s.spu.manual_fifo_count in
      flush_from (on_spu (λ spu. record spu { manual_fifo_count = 0 }) s) 0
        (if ltb n 32 then n else 32)

unfoldable pub spu_dma_write_request : SpuPort → Bool
spu_dma_write_request spu = transfer_mode spu == 2

unfoldable pub spu_dma_read_request : SpuPort → Bool
spu_dma_read_request spu = transfer_mode spu == 3
