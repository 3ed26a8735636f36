-- ===== src/Dma/Registers.antt =====
-- dma.c: the first state, and the registers at their offsets.
use zonistation_one.Base.{
  ltb, ◌==◌, ◌!=◌, if◌then◌else◌, to_nat, u16, ◌<<<◌, ◌>>>◌, bit, set_bit, ℕ, ◌+◌, ◌-◌, ◌%◌, ◌^◌,
  bit_and, Bool, false,
}
use zonistation_one.Base.Int.{pos}
use zonistation_one.Dma.State.{
  DmaDirection, DmaStep, DmaSync, DmaChannel, Slice, Dma, Controller, channel_get_control,
  channel_set_control, dma_channel_is_active, dma_cancel_slice, dma_slice_running, dma_update_irq,
  set_channel,
}

abbrev pub idle_slice : Slice
idle_slice = record { addr = 0; remaining = 0; step = pos 4; active = false }

abbrev pub init_channel : DmaChannel → DmaChannel
init_channel ch = record ch {
  enable = false;
  direction = DmaDirection.to_ram;
  step = DmaStep.increment;
  sync = DmaSync.manual;
  trigger = false;
  base_addr = 0;
  block_size = 0;
  block_count = 0;
}

abbrev pub init_channels : (ℕ → DmaChannel) → ℕ → DmaChannel
init_channels channels i = if ltb i 7 then init_channel (channels i) else channels i

-- DICR as a word.
unfoldable pub dicr_word : Dma → ℕ
dicr_word dma =
    dma.dicr_unknown_rw % 2 ^ 6
    + to_nat (dma.force_irq) <<< 15
    + dma.channel_irq_enable <<< 16
    + to_nat (dma.master_irq_enable) <<< 23
    + dma.channel_irq_flags <<< 24
    + to_nat (dma.master_irq_flag) <<< 31

-- Bits 24 to 30 acknowledge the flags that they name.
unfoldable pub write_dicr : Dma → ℕ → Dma
write_dicr dma value = record dma {
  dicr_unknown_rw = value % 2 ^ 6;
  force_irq = bit value 15;
  channel_irq_enable = (value >>> 16) % 2 ^ 7;
  master_irq_enable = bit value 23;
  channel_irq_flags =
      if (value >>> 24) % 2 ^ 7 != 0
      then bit_and dma.channel_irq_flags (2 ^ 8 - 1 - (value >>> 24) % 2 ^ 7)
      else dma.channel_irq_flags;
}

module _ {D : Type 0} where
  unfoldable pub dma_init : Controller D → Controller D
  dma_init c = record c {
    dma = record {
      control = 0x0765_4321;
      force_irq = false;
      channel_irq_enable = 0;
      master_irq_enable = false;
      channel_irq_flags = 0;
      master_irq_flag = false;
      dicr_unknown_rw = 0;
      channels = init_channels c.dma.channels;
      gpu_ll_addr = 0;
      gpu_ll_active = false;
      gpu_req = idle_slice;
      mdec_in = idle_slice;
      mdec_out = idle_slice;
    };
    guest_regs_during_transfer = 0;
  }

  unfoldable pub dma_read : Controller D → ℕ → ℕ
  dma_read c offset =
      let channel_index = (offset >>> 4) % 8 in
      let register_offset = offset % 16 in
      let ch = c.dma.channels channel_index in
      if ltb channel_index 7
      then (if register_offset == 0
          then ch.base_addr
          else if register_offset == 4
          then ch.block_count <<< 16 + ch.block_size
          else if register_offset == 8
          then channel_get_control ch
          else 0)
      else if offset == 0x70
      then c.dma.control
      else if offset == 0x74
      then dicr_word c.dma
      else 0

  -- The guest has written MADR or BCR during a transfer.
  abbrev pub note_guest_write : Controller D → ℕ → Controller D
  note_guest_write c channel =
      if dma_slice_running c.dma channel
      then record c { guest_regs_during_transfer = set_bit c.guest_regs_during_transfer channel }
      else c

  -- Clearing the start bit aborts the transfer.
  unfoldable pub write_chcr : Controller D → ℕ → ℕ → Bool × Controller D
  write_chcr c channel value =
      let ch = channel_set_control (c.dma.channels channel) value in
      let written = set_channel c channel ch in
      (
        dma_channel_is_active ch,
        if dma_channel_is_active ch
            then written
            else record written { dma = dma_cancel_slice written.dma channel },
      )

  -- The Boolean says whether the write made a channel active.
  unfoldable pub dma_write : Controller D → ℕ → ℕ → Bool × Controller D
  dma_write c offset value =
      let channel_index = (offset >>> 4) % 8 in
      let register_offset = offset % 16 in
      let ch = c.dma.channels channel_index in
      if ltb channel_index 7
      then (if register_offset == 0
          then (
            false,
            note_guest_write
                (set_channel c channel_index (record ch { base_addr = value % 2 ^ 24 }))
                channel_index,
          )
          else if register_offset == 4
          then (
            false,
            note_guest_write
                (set_channel c channel_index
                  (record ch { block_size = u16 value; block_count = u16 (value >>> 16) }))
                channel_index,
          )
          else if register_offset == 8
          then write_chcr c channel_index value
          else (false, c))
      else if offset == 0x70
      then (false, record c { dma = record (c.dma) { control = value } })
      else if offset == 0x74
      then (false, dma_update_irq (record c { dma = write_dicr c.dma value }))
      else (false, c)
