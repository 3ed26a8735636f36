-- ===== src/Dma/Interrupt.antt =====
-- The DMA interrupt, over dma_update_irq and the writes of dma.c, and over bus_irq.c.
use zonistation_one.Base.{
  ltb, ◌==◌, if◌then◌else◌, if-true, if-holds, ◌>>>◌, bit, ℕ, ◌%◌, ◌≡◌, refl, ap, ◌∙◌, Bool, true,
  false, not, ◌&&◌, arith,
}
use zonistation_one.Bus.Irq.{interconnect_set_irq_line}
use zonistation_one.Bus.IrqEdges.{interconnect_set_irq_line_lem, rising_edge}
use zonistation_one.Dma.Registers.{write_dicr, note_guest_write, write_chcr, dma_write}
use zonistation_one.Dma.State.{
  DmaChannel, Dma, Controller, irq_dma, channel_set_control, dma_channel_is_active,
  dma_cancel_slice, dma_slice_running, master_of, dma_update_irq, dma_flag_bus_error, set_channel,
}
use zonistation_one.Machine.{Interconnect}

module _ {D : Type 0} where
  -- The master flag is what DICR says it is, and the line is down while the flag is clear.
  pub record IrqIsWf (c : Controller D) : Type 0 where
    pub current : c.dma.master_irq_flag ≡ master_of c.dma
    pub follows : c.dma.master_irq_flag ≡ false → bit c.inter.irq_line_state irq_dma ≡ false

  driven-line :
      (inter : Interconnect D) (prev now : Bool)
      → (prev ≡ false → bit inter.irq_line_state irq_dma ≡ false)
      → now ≡ false
      → bit
          (if not prev && now
            then interconnect_set_irq_line inter irq_dma true
            else if prev && not now
            then interconnect_set_irq_line inter irq_dma false
            else inter).irq_line_state
          irq_dma
        ≡ false
  driven-line inter prev true h e = absurd (ground (arith, e))
  driven-line inter true false h e =
      (interconnect_set_irq_line_lem inter irq_dma false (omega arith)).1
  driven-line inter false false h e = h refl

  -- The flag may be stale before it is recomputed; the line may not.
  pub dma_update_irq-IrqIsWf :
      (c : Controller D)
      → (c.dma.master_irq_flag ≡ false → bit c.inter.irq_line_state irq_dma ≡ false)
      → IrqIsWf (dma_update_irq c)
  unfolding dma_update_irq
  dma_update_irq-IrqIsWf c h = record {
    current = refl;
    follows = λ e. driven-line c.inter c.dma.master_irq_flag (master_of c.dma) h e;
  }

  pub dma_flag_bus_error-IrqIsWf : (c : Controller D) → IrqIsWf c → IrqIsWf (dma_flag_bus_error c)
  unfolding dma_flag_bus_error
  dma_flag_bus_error-IrqIsWf c w =
      if-holds IrqIsWf c.dma.force_irq w
        (dma_update_irq-IrqIsWf (record c { dma = record (c.dma) { force_irq = true } }) w.follows)

  Writes : Bool × Controller D → Type 0
  Writes r = IrqIsWf r.1

  note_guest_write-IrqIsWf : (c : Controller D) (i : ℕ) → IrqIsWf c → IrqIsWf (note_guest_write c i)
  note_guest_write-IrqIsWf c i w =
      if-holds IrqIsWf (dma_slice_running c.dma i)
        (record { current = w.current; follows = w.follows }) w

  set_channel-IrqIsWf :
      (c : Controller D) (i : ℕ) (ch : DmaChannel) → IrqIsWf c → IrqIsWf (set_channel c i ch)
  set_channel-IrqIsWf c i ch w = record { current = w.current; follows = w.follows }

  cancelled-IrqIsWf :
      (c : Controller D) (i : ℕ) → IrqIsWf c → IrqIsWf (record c { dma = dma_cancel_slice c.dma i })
  unfolding dma_cancel_slice
  cancelled-IrqIsWf c i w =
      let P = λ (d : Dma). IrqIsWf (record c { dma = d }) in
      if-holds P (i == 0) (record { current = w.current; follows = w.follows })
        (if-holds P (i == 1) (record { current = w.current; follows = w.follows })
          (if-holds P (i == 2) (record { current = w.current; follows = w.follows })
            (record { current = w.current; follows = w.follows })))

  write_chcr-IrqIsWf :
      (c : Controller D) (i value : ℕ) → IrqIsWf c → IrqIsWf (write_chcr c i value).1
  unfolding write_chcr
  write_chcr-IrqIsWf c i value w =
      let ch = channel_set_control (c.dma.channels i) value in
      let written = set_channel-IrqIsWf c i ch w in
      if-holds IrqIsWf (dma_channel_is_active ch) written (cancelled-IrqIsWf _ i written)

  -- A write to any register, in any state of the transfers, keeps the master flag equal to what DICR
  -- says it is and the interrupt line down while the flag is clear.
  pub dma_write-IrqIsWf :
      (c : Controller D) (offset value : ℕ) → IrqIsWf c → IrqIsWf (dma_write c offset value).1
  unfolding dma_write Writes write_dicr
  dma_write-IrqIsWf c offset value w =
      let i = (offset >>> 4) % 8 in
      let ch = c.dma.channels i in
      if-holds Writes (ltb i 7)
        (if-holds Writes (offset % 16 == 0)
          (note_guest_write-IrqIsWf _ i (set_channel-IrqIsWf c i _ w))
          (if-holds Writes (offset % 16 == 4)
            (note_guest_write-IrqIsWf _ i (set_channel-IrqIsWf c i _ w))
            (if-holds Writes (offset % 16 == 8) {x = write_chcr c i value} {y = (false, c)}
              (write_chcr-IrqIsWf c i value w) w)))
        (if-holds Writes (offset == 0x70) (record { current = w.current; follows = w.follows })
          (if-holds Writes (offset == 0x74) {y = (false, c)}
            (dma_update_irq-IrqIsWf (record c { dma = write_dicr c.dma value }) w.follows) w))

  -- A channel's completion.
  abbrev pub complete : Controller D → ℕ → Controller D
  complete c flags =
      dma_update_irq (record c { dma = record (c.dma) { channel_irq_flags = flags } })

  -- If a write to DICR leaves no cause for the interrupt, the next completion that gives one is an
  -- edge: it sets the DMA bit of I_STAT, whatever was pending before.
  pub complete-dma_write :
      (c : Controller D) (value flags : ℕ)
      → IrqIsWf c
      → master_of (write_dicr c.dma value) ≡ false
      → master_of (record (write_dicr c.dma value) { channel_irq_flags = flags }) ≡ true
      → bit (complete (dma_write c 0x74 value).1 flags).inter.irq_status irq_dma ≡ true
  unfolding dma_update_irq dma_write write_dicr
  complete-dma_write c value flags w quiet cause =
      let u = dma_update_irq (record c { dma = write_dicr c.dma value }) in
      let low : bit u.inter.irq_line_state irq_dma ≡ false =
        (dma_update_irq-IrqIsWf (record c { dma = write_dicr c.dma value }) w.follows).follows
          quiet in
      let rises : (not (master_of (write_dicr c.dma value))
            && master_of (record (write_dicr c.dma value) { channel_irq_flags = flags }))
          ≡ true =
        rw quiet cause in
      ap (λ (inter : Interconnect D). bit inter.irq_status irq_dma) (if-true _ rises)
      ∙ rising_edge u.inter irq_dma (omega arith) low
