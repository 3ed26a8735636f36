-- ===== src/Bus/IrqEdges.antt =====
-- The interrupt lines of src/core/bus_irq.c: when a status bit is set.
-- `||` with a second operand whose value is known.
use zonistation_one.Base.{
  ◌==◌, if◌then◌else◌, ==_iff, Bool-cases, if-true, if-false, u16, bit, set_bit, clear_bit, ℕ, ◌<◌,
  ◌≡◌, refl, sym, ap, ◌∙◌, inl, inr, Bool, true, false, not, ◌&&◌, ◌||◌, arith,
}
use zonistation_one.Base.Bits.{bit-set_bit, bit-clear_bit, bit-u16}
use zonistation_one.Bus.Irq.{
  irq_cdrom, interconnect_set_irq_line, interconnect_request_irq, interconnect_clear_irq,
  interconnect_trigger_cdrom_irq,
}
use zonistation_one.Machine.{Interconnect}

same_level : (s b state : Bool) → b ≡ state → s ≡ (s || not b && state)
same_level true b state e = refl
same_level false true true e = refl
same_level false true false e = refl
same_level false false true e = e
same_level false false false e = refl

or_true : (s b : Bool) → b ≡ true → true ≡ (s || b)
or_true true b e = refl
or_true false b e = sym e

or_false : (s b : Bool) → b ≡ false → s ≡ (s || b)
or_false true b e = refl
or_false false b e = sym e

-- The line word after a call, and what its own bit is.
moved_line : ℕ → ℕ → Bool → ℕ
moved_line prev k state = u16 (if state then set_bit prev k else clear_bit prev k)

bit-moved_line : (prev k : ℕ) (state : Bool) → k < 16 → bit (moved_line prev k state) k ≡ state
unfolding moved_line
bit-moved_line prev k true h = bit-u16 (set_bit prev k) k h ∙ bit-set_bit prev k
bit-moved_line prev k false h = bit-u16 (clear_bit prev k) k h ∙ bit-clear_bit prev k

module _ {D : Type 0} where
  -- The status word after a call.
  raised_status : (inter : Interconnect D) (k : ℕ) (state same : Bool) → ℕ
  raised_status inter k state same =
      if same
      then inter.irq_status
      else if not (bit inter.irq_line_state k) && state
      then u16 (set_bit inter.irq_status k)
      else inter.irq_status

  bit-raised_status :
      (inter : Interconnect D) (k : ℕ) (state same : Bool)
      → k < 16
      → (same ≡ true → bit inter.irq_line_state k ≡ state)
      → bit (raised_status inter k state same) k
        ≡ (bit inter.irq_status k || not (bit inter.irq_line_state k) && state)
  unfolding raised_status
  bit-raised_status inter k state true h agree =
      same_level (bit inter.irq_status k) (bit inter.irq_line_state k) state (agree refl)
  bit-raised_status inter k state false h agree =
      let rising = not (bit inter.irq_line_state k) && state in
      let held = inter.irq_status in
      elim (Bool-cases rising) [
        | inl e ↦
            ap (λ x. bit x k) (if-true {x = u16 (set_bit held k)} held e)
            ∙ bit-u16 (set_bit held k) k h
            ∙ bit-set_bit held k
            ∙ or_true (bit held k) rising e
        | inr e ↦
            ap (λ x. bit x k) (if-false (u16 (set_bit held k)) {y = held} e)
            ∙ or_false (bit held k) rising e
      ]

  outcome :
      (moved : Interconnect D) (status : ℕ) (same rising : Bool)
      → ((if same
            then moved
            else if rising
            then record moved { irq_status = status }
            else moved).irq_status
          ≡ (if same then moved.irq_status else if rising then status else moved.irq_status))
        × ((if same
              then moved
              else if rising
              then record moved { irq_status = status }
              else moved).irq_line_state
            ≡ moved.irq_line_state)
        × ((if same
              then moved
              else if rising
              then record moved { irq_status = status }
              else moved).irq_mask
            ≡ moved.irq_mask)
  outcome moved status true rising = (refl, refl, refl)
  outcome moved status false true = (refl, refl, refl)
  outcome moved status false false = (refl, refl, refl)

  -- The three words after a call.
  set_line_parts :
      (inter : Interconnect D) (k : ℕ) (state : Bool)
      → ((interconnect_set_irq_line inter k state).irq_status
          ≡ raised_status inter k state
              (moved_line inter.irq_line_state k state == inter.irq_line_state))
        × ((interconnect_set_irq_line inter k state).irq_line_state
            ≡ moved_line inter.irq_line_state k state)
        × ((interconnect_set_irq_line inter k state).irq_mask ≡ inter.irq_mask)
  unfolding interconnect_set_irq_line raised_status moved_line
  set_line_parts inter k state =
      outcome (record inter { irq_line_state = moved_line inter.irq_line_state k state })
        (u16 (set_bit inter.irq_status k))
        (moved_line inter.irq_line_state k state == inter.irq_line_state)
        (not (bit inter.irq_line_state k) && state)

  -- A line drives its own status bit on a rising edge only: the bit is set afterwards exactly when
  -- it was set before or the line went from low to high; no mask is touched.
  pub interconnect_set_irq_line_lem :
      (inter : Interconnect D) (irq_line : ℕ) (state : Bool)
      → irq_line < 16
      → (bit (interconnect_set_irq_line inter irq_line state).irq_status irq_line
          ≡ (bit inter.irq_status irq_line || not (bit inter.irq_line_state irq_line) && state))
        × (bit (interconnect_set_irq_line inter irq_line state).irq_line_state irq_line ≡ state)
        × ((interconnect_set_irq_line inter irq_line state).irq_mask ≡ inter.irq_mask)
  interconnect_set_irq_line_lem inter k state hk =
      let line = moved_line inter.irq_line_state k state in
      let parts = set_line_parts inter k state in
      let agree = λ (e : (line == inter.irq_line_state) ≡ true).
        ap (λ x. bit x k) (sym ((==_iff line inter.irq_line_state).0 e))
        ∙ bit-moved_line inter.irq_line_state k state hk in
      (
        ap (λ x. bit x k) parts.0
            ∙ bit-raised_status inter k state (line == inter.irq_line_state) hk agree,
        ap (λ x. bit x k) parts.1 ∙ bit-moved_line inter.irq_line_state k state hk,
        parts.2,
      )

  -- The CD-ROM request always reaches I_STAT, whatever its line and its status bit were before.
  interconnect_trigger_cdrom_irq_lem :
      (inter : Interconnect D)
      → bit (interconnect_trigger_cdrom_irq inter).irq_status irq_cdrom ≡ true
  unfolding interconnect_trigger_cdrom_irq interconnect_request_irq interconnect_clear_irq
  interconnect_trigger_cdrom_irq_lem inter =
      let lowered = interconnect_set_irq_line inter irq_cdrom false in
      let low = (interconnect_set_irq_line_lem inter irq_cdrom false (omega arith)).1 in
      let raised = (interconnect_set_irq_line_lem lowered irq_cdrom true (omega arith)).0 in
      raised
      ∙ sym (
          or_true (bit lowered.irq_status irq_cdrom)
            (not (bit lowered.irq_line_state irq_cdrom) && true) (ap (λ b. not b && true) low))

  -- Raising a line that is low.
  pub rising_edge :
      (inter : Interconnect D) (irq : ℕ)
      → irq < 16
      → bit inter.irq_line_state irq ≡ false
      → bit (interconnect_set_irq_line inter irq true).irq_status irq ≡ true
  rising_edge inter irq k e =
      let either : (bit inter.irq_status irq || not (bit inter.irq_line_state irq) && true) ≡ true =
        rw e (either_true (bit inter.irq_status irq)) in
      (interconnect_set_irq_line_lem inter irq true k).0 ∙ either
    where
      either_true : (b : Bool) → (b || true) ≡ true
      either_true true = refl
      either_true false = refl
