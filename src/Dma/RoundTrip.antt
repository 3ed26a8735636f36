-- ===== src/Dma/RoundTrip.antt =====
-- Reading back a channel's registers, and aborting its transfer, over dma.c.
use zonistation_one.Base.{
  ltb, ◌==◌, if◌then◌else◌, if-false, u16, ◌<<<◌, ◌>>>◌, bit, ℕ, zero, suc, ◌+◌, ◌*◌, ◌%◌, ◌^◌, ◌<◌,
  ◌≡◌, refl, ap, ◌∙◌, Bool, true, false, arith,
}
use zonistation_one.Dma.Registers.{dma_write, note_guest_write, write_chcr}
use zonistation_one.Dma.State.{
  DmaChannel, channel_set_control, Controller, Dma, dma_channel_is_active, dma_cancel_slice,
  dma_slice_running, set_channel,
}

-- The bits of CHCR that are kept: 0, 1, 8 to 10, 16 to 18, 20 to 22, 24 and 28.
abbrev pub chcr_kept : ℕ → ℕ
chcr_kept v =
    v % 4
    + ((v >>> 8) % 8) <<< 8
    + ((v >>> 16) % 8) <<< 16
    + ((v >>> 20) % 8) <<< 20
    + ((v >>> 24) % 2) <<< 24
    + ((v >>> 28) % 2) <<< 28

-- The offset of register `k` of channel `i`.
abbrev pub register_at : ℕ → ℕ → ℕ
register_at i k = 16 * i + k

module _ {D : Type 0} (c : Controller D) (i k : ℕ) (channel : i < 7) (small : k < 16) where
  index : (register_at i k >>> 4) % 8 ≡ i
  index = omega arith

  register : register_at i k % 16 ≡ k
  register = omega arith

  present : ltb i 7 ≡ true
  present = ground arith

  written : ℕ → Bool × Controller D
  written v =
      let ch = c.dma.channels i in
      if k == 0
      then (false, note_guest_write (set_channel c i (record ch { base_addr = v % 2 ^ 24 })) i)
      else if k == 4
      then (
        false,
        note_guest_write
            (set_channel c i (record ch { block_size = u16 v; block_count = u16 (v >>> 16) })) i,
      )
      else if k == 8
      then write_chcr c i v
      else (false, c)

  dma_write-register_at : (v : ℕ) → dma_write c (register_at i k) v ≡ written v
  unfolding dma_write written
  dma_write-register_at v = rw index (rw register (rw present refl))

cancelled : (dma : Dma) (i : ℕ) → dma_slice_running (dma_cancel_slice dma i) i ≡ false
unfolding dma_slice_running dma_cancel_slice
cancelled dma zero = refl
cancelled dma (suc zero) = refl
cancelled dma (suc (suc zero)) = refl
cancelled dma (suc (suc (suc n))) =
    let i = suc (suc (suc n)) in
    let first : (i == 0) ≡ false = ground arith in
    let second : (i == 1) ≡ false = ground arith in
    let third : (i == 2) ≡ false = ground arith in
    if-false _ first ∙ if-false _ second ∙ if-false _ third

stopped_channel :
    (ch : DmaChannel) (v : ℕ)
    → bit v 24 ≡ false
    → dma_channel_is_active (channel_set_control ch v) ≡ false
unfolding dma_channel_is_active channel_set_control
stopped_channel ch v e = if-false _ e

module _ {D : Type 0} where
  channels_of : Controller D → ℕ → DmaChannel
  channels_of c = c.dma.channels

  -- Writing CHCR with the start bit clear reports no active channel and leaves no slice of the
  -- channel running.
  pub dma_slice_running-dma_write :
      (c : Controller D) (i v : ℕ)
      → i < 7
      → bit v 24 ≡ false
      → (dma_write c (register_at i 8) v).0 ≡ false
        × dma_slice_running (dma_write c (register_at i 8) v).1.dma i ≡ false
  unfolding written write_chcr
  dma_slice_running-dma_write c i v channel stopped =
      let idle = stopped_channel (c.dma.channels i) v stopped in
      let here = dma_write-register_at c i 8 channel (omega arith) v in
      (
        ap (λ (r : Bool × Controller D). r.0) here ∙ idle,
        ap (λ (r : Bool × Controller D). dma_slice_running r.1.dma i) here
            ∙ ap (λ (x : Controller D). dma_slice_running x.dma i) (if-false _ idle)
            ∙ cancelled _ i,
      )
