-- ===== src/Bus/Irq.antt =====
-- src/core/bus_irq.c: the edge-detected interrupt lines, and the acknowledge and mask writes of
-- src/core/bus.c.
use zonistation_one.Base.{
  ◌==◌, if◌then◌else◌, u8, u16, u32, ◌<<<◌, bit, set_bit, clear_bit, ℕ, ◌-◌, ◌*◌, ◌%◌, bit_and,
  Bool, true, false, not, ◌&&◌,
}
use zonistation_one.Machine.{Interconnect}

abbrev pub irq_cdrom : ℕ
irq_cdrom = 2

abbrev pub irq_status_addr : ℕ
irq_status_addr = 0x1f80_1070

abbrev pub irq_mask_addr : ℕ
irq_mask_addr = 0x1f80_1074

module _ {D : Type 0} where
  -- The status bit is set on a rising edge of the line only.
  unfoldable pub interconnect_set_irq_line : Interconnect D → ℕ → Bool → Interconnect D
  interconnect_set_irq_line inter irq_line state =
      let prev = inter.irq_line_state in
      let line = u16 (if state then set_bit prev irq_line else clear_bit prev irq_line) in
      let moved = record inter { irq_line_state = line } in
      if line == prev
      then moved
      else if not (bit prev irq_line) && state
      then record moved { irq_status = u16 (set_bit inter.irq_status irq_line) }
      else moved

  unfoldable pub interconnect_request_irq : Interconnect D → ℕ → Interconnect D
  unfolding interconnect_set_irq_line
  interconnect_request_irq inter irq_line = interconnect_set_irq_line inter irq_line true

  unfoldable pub interconnect_clear_irq : Interconnect D → ℕ → Interconnect D
  unfolding interconnect_set_irq_line
  interconnect_clear_irq inter irq_line = interconnect_set_irq_line inter irq_line false

  -- The line is forced low, then high.
  unfoldable pub interconnect_trigger_cdrom_irq : Interconnect D → Interconnect D
  unfolding interconnect_request_irq interconnect_clear_irq
  interconnect_trigger_cdrom_irq inter =
      interconnect_request_irq (interconnect_clear_irq inter irq_cdrom) irq_cdrom

  -- The registers I_STAT and I_MASK; `size` is 1, 2 or 4 bytes.
  unfoldable pub hw_irq_read : Interconnect D → ℕ → ℕ → ℕ
  hw_irq_read inter addr size =
      let v32 = if addr == irq_status_addr then inter.irq_status else inter.irq_mask in
      if size == 4 then v32 else if size == 2 then u16 v32 else u8 v32

  -- A partial store latches the word shifted by the byte offset. Writing 0 to a bit of I_STAT
  -- acknowledges it, and lets its line raise a new edge.
  unfoldable pub hw_irq_write : Interconnect D → ℕ → ℕ → ℕ → Interconnect D
  hw_irq_write inter addr val size =
      let word = if size == 4 then val else u32 (val <<< (addr % 4 * 8)) in
      let base = if size == 4 then addr else addr - addr % 4 in
      let wv = word % 0x800 in
      if base == irq_status_addr
      then record inter {
        irq_status = bit_and inter.irq_status wv;
        irq_line_state = bit_and inter.irq_line_state wv;
        downcount = 0;
      }
      else if base == irq_mask_addr
      then record inter { irq_mask = wv; downcount = 0 }
      else inter
