-- ===== src/Timers/Raise.antt =====
-- That the interrupt line of a timer rises once, over timers.c and bus_irq.c.
use zonistation_one.Base.{
  ◌==◌, ==_iff, Bool-cases, if-true, if-same, u16, bit, set_bit, ℕ, ◌+◌, ◌^◌, ◌<◌, ◌≡◌, refl, ap,
  ◌∙◌, inl, inr, true, false, not, ◌&&◌, arith,
}
use zonistation_one.Bus.Irq.{interconnect_set_irq_line, interconnect_request_irq}
use zonistation_one.Bus.IrqEdges.{rising_edge}
use zonistation_one.Machine.{Interconnect}
use zonistation_one.Timers.State.{raise}

module _ {D : Type 0} where
  -- What a request does: nothing but the line and I_STAT.
  request-keeps :
      {A : Type 0} (f : Interconnect D → A) (inter : Interconnect D) (irq : ℕ)
      → ((line status : ℕ)
          → f (record inter { irq_line_state = line; irq_status = status }) ≡ f inter)
      → f (raise inter irq) ≡ f inter
  unfolding raise interconnect_request_irq interconnect_set_irq_line
  request-keeps f inter irq h = if-same f (bit inter.irq_status irq) refl (
      if-same f (u16 (set_bit inter.irq_line_state irq) == inter.irq_line_state)
        (h _ inter.irq_status)
        (if-same f (not (bit inter.irq_line_state irq) && true) (h _ _) (h _ inter.irq_status)))

  pub raise-cpu_cycle_counter :
      (inter : Interconnect D) (irq : ℕ)
      → (raise inter irq).cpu_cycle_counter ≡ inter.cpu_cycle_counter
  raise-cpu_cycle_counter inter irq =
      request-keeps (λ (r : Interconnect D). r.cpu_cycle_counter) inter irq (λ l s. refl)

  pub raise-devices : (inter : Interconnect D) (irq : ℕ) → (raise inter irq).devices ≡ inter.devices
  raise-devices inter irq =
      request-keeps (λ (r : Interconnect D). r.devices) inter irq (λ l s. refl)

  held_line :
      (inter : Interconnect D) (irq : ℕ)
      → inter.irq_line_state < 2 ^ 16
      → bit inter.irq_line_state irq ≡ true
      → interconnect_request_irq inter irq ≡ inter
  unfolding interconnect_request_irq interconnect_set_irq_line
  held_line inter irq h e =
      let prev = inter.irq_line_state in
      let same : u16 (set_bit prev irq) ≡ prev =
        ap u16 (if-true {x = prev} (prev + 2 ^ irq) e) ∙ omega arith in
      let test : (u16 (set_bit prev irq) == prev) ≡ true = (==_iff _ _).1 same in
      if-true _ test ∙ ap (λ (l : ℕ). record inter { irq_line_state = l }) same

  new_edge :
      (inter : Interconnect D) (irq : ℕ)
      → irq < 16
      → bit inter.irq_line_state irq ≡ false
      → bit (interconnect_request_irq inter irq).irq_status irq ≡ true
  unfolding interconnect_request_irq
  new_edge inter irq k e = rising_edge inter irq k e

  -- Raising a line twice is raising it once.
  pub raise-raise :
      (inter : Interconnect D) (irq : ℕ)
      → irq < 16
      → inter.irq_line_state < 2 ^ 16
      → raise (raise inter irq) irq ≡ raise inter irq
  unfolding raise
  raise-raise inter irq k h = elim (Bool-cases (bit inter.irq_status irq)) [
    | inl e ↦ rw e (rw e refl)
    | inr e ↦ rw e (elim (Bool-cases (bit inter.irq_line_state irq)) [
      | inl held ↦ rw (held_line inter irq h held) (rw e (held_line inter irq h held))
      | inr low ↦ rw (new_edge inter irq k low) refl
    ])
  ]
