-- ===== src/Spu/Window.antt =====
-- The block that a voice reads, of src/spu/spu_irq.c, against its single bytes.
use zonistation_one.Base.{
  ltb, ◌==◌, if◌then◌else◌, sub32, bit, ℕ, ◌+◌, ◌*◌, ◌%◌, ◌^◌, ◌≤◌, ◌<◌, ◌≡◌, refl, sym, ◌∙◌, ◌↔◌,
  Bool, true, false, not, ◌&&◌, arith,
}
use zonistation_one.Spu.Trap.{
  spu_check_irq, spu_check_irq_range, spu_raise_irq9, spu_ram_size, SpuOnBus,
}

-- How far behind `start` the trapped byte lies, in a RAM that wraps.
distance : ℕ → ℕ → ℕ
distance start byte = sub32 byte start % spu_ram_size

at_distance :
    (start byte : ℕ) → byte < spu_ram_size → (start + distance start byte) % spu_ram_size ≡ byte
unfolding distance
at_distance start byte h = omega (arith, h)

distance_of : (start byte k : ℕ) → byte ≡ (start + k) % spu_ram_size → distance start byte ≤ k
unfolding distance
distance_of start byte k e = omega (arith, e)

module _ {D : Type 0} where
  -- The interrupt is enabled and not raised yet.
  armed : SpuOnBus D → Bool
  armed s = bit s.spu.control 6 && not s.spu.irq9_flag

  outcome :
      (a b c : Bool) (s t : SpuOnBus D)
      → (let r : Bool × SpuOnBus D =
            if not a
            then (false, s)
            else if b
            then (false, s)
            else if not c
            then (false, s)
            else (true, t) in
          r.0)
        ≡ (a && not b && c)
  outcome false b c s t = refl
  outcome true true c s t = refl
  outcome true false false s t = refl
  outcome true false true s t = refl

  range_trap :
      (s : SpuOnBus D) (start len : ℕ)
      → (spu_check_irq_range s start len).0
        ≡ (armed s && ltb (distance start (s.spu.irq_addr * 8)) len)
  unfolding spu_check_irq_range armed distance
  range_trap s start len =
      outcome (bit s.spu.control 6) s.spu.irq9_flag (ltb (distance start (s.spu.irq_addr * 8)) len)
        s (spu_raise_irq9 s)

  byte_trap :
      (s : SpuOnBus D) (address : ℕ)
      → (spu_check_irq s address).0 ≡ (armed s && s.spu.irq_addr * 8 == address)
  unfolding spu_check_irq armed
  byte_trap s address =
      outcome (bit s.spu.control 6) s.spu.irq9_flag (s.spu.irq_addr * 8 == address) s
        (spu_raise_irq9 s)

  -- Reading a block traps exactly when an access to one of its bytes, counted round the end of the
  -- RAM, would, if the IRQ address is a 16-bit word.
  pub spu_check_irq_range-spu_check_irq :
      (s : SpuOnBus D) (start len : ℕ)
      → s.spu.irq_addr < 2 ^ 16
      → (spu_check_irq_range s start len).0 ≡ true
        ↔ ((k : ℕ) × (k < len) × ((spu_check_irq s ((start + k) % spu_ram_size)).0 ≡ true))
  spu_check_irq_range-spu_check_irq s start len h =
      let byte = s.spu.irq_addr * 8 in
      let reached = at_distance start byte (omega (arith, h)) in
      (
        λ e.
            let both = sym (range_trap s start len) ∙ e in
            (
              distance start byte,
              ground (arith, both),
              byte_trap s ((start + distance start byte) % spu_ram_size)
                  ∙ ground (arith, both, reached),
            ),
        λ inside.
            let both = sym (byte_trap s ((start + inside.0) % spu_ram_size)) ∙ inside.2 in
            let here : byte ≡ (start + inside.0) % spu_ram_size = ground (arith, both) in
            let near = distance_of start byte inside.0 here in
            range_trap s start len ∙ ground (arith, both, inside.1, near),
      )
