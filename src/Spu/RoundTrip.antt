-- ===== src/Spu/RoundTrip.antt =====
-- What the DMA writes of src/spu/spu_dma.c leave in the sound RAM, the DMA reads give back.
use mathlib.Core.Path.{subst}
use zonistation_one.Base.{
  ltb, ◌==◌, if◌then◌else◌, if-true, if-holds, length, bit, ℕ, ◌+◌, ◌-◌, ◌*◌, ◌/◌, ◌%◌, ◌≤◌, ◌<◌,
  ◌≡◌, refl, sym, ap, ap₂, ◌∙◌, Bool, not, List, [], ◌∷◌, arith,
}
use zonistation_one.Base.Map.{update, update_self, update_ne}
use zonistation_one.Spu.Transfer.{
  on_spu, wrapped_addr, next_addr, advance_addr, begin_busy, end_busy, set_addr_reg, store_halfword,
  store_halfwords, load_halfwords, spu_dma_write_halfwords, spu_dma_read_halfwords,
}
use zonistation_one.Spu.Trap.{SpuOnBus, spu_ram_size, spu_check_irq}

abbrev ram_halfwords : ℕ
ram_halfwords = 0x4_0000

abbrev next_index : ℕ → ℕ
next_index p = (p + 1) % ram_halfwords

-- How far index `j` lies ahead of `p`, round the end of the RAM.
abbrev ahead : ℕ → ℕ → ℕ
ahead p j = (j + ram_halfwords - p) % ram_halfwords

-- The halfwords of a list from index `p` on.
IsStored : (ℕ → ℕ) → ℕ → List ℕ → Type 0
IsStored ram p [] = Unit
IsStored ram p (v ∷ vs) = (ram p ≡ v) × IsStored ram (next_index p) vs

next_of : (p : ℕ) → p < ram_halfwords → next_addr (p * 2) ≡ next_index p * 2
next_of p h = ground (arith, h)

wrapped_of : (p : ℕ) → p < ram_halfwords → wrapped_addr (p * 2) ≡ p * 2
wrapped_of p h = ground (arith, h)

module _ {D : Type 0} where
  -- The RAM and the transfer address, which the interrupt leaves alone.
  record At (s : SpuOnBus D) (ram : ℕ → ℕ) (p : ℕ) : Type 0 where
    words : s.spu.ram ≡ ram
    index : s.spu.transfer_addr ≡ p * 2
    inside : p < ram_halfwords

  Steps : (t : SpuOnBus D) → Bool × SpuOnBus D → Type 0
  Steps t r = (r.1.spu.ram ≡ t.spu.ram) × (r.1.spu.transfer_addr ≡ t.spu.transfer_addr)

  check-Steps : (s : SpuOnBus D) (address : ℕ) → Steps s (spu_check_irq s address)
  unfolding spu_check_irq Steps
  check-Steps s address =
      if-holds (Steps s) (not (bit s.spu.control 6)) (refl, refl)
        (if-holds (Steps s) s.spu.irq9_flag (refl, refl)
          (if-holds (Steps s) (not (s.spu.irq_addr * 8 == address)) (refl, refl) (refl, refl)))

  -- The address moves on to the next index.
  advanced :
      (t : SpuOnBus D) (ram : ℕ → ℕ) (p : ℕ)
      → At t ram p
      → At (advance_addr (spu_check_irq t (p * 2)).1) ram (next_index p)
  unfolding Steps
  advanced t ram p at =
      let kept = check-Steps t (p * 2) in
      record {
        words = kept.0 ∙ at.words;
        index = ap next_addr (kept.1 ∙ at.index) ∙ next_of p at.inside;
        inside = omega arith;
      }

  store-At :
      (s : SpuOnBus D) (ram : ℕ → ℕ) (p v : ℕ)
      → At s ram p
      → At (store_halfword s v) (update ram p v) (next_index p)
  unfolding store_halfword
  store-At s ram p v at =
      let here : wrapped_addr s.spu.transfer_addr ≡ p * 2 =
        ap wrapped_addr at.index ∙ wrapped_of p at.inside in
      let stored : ℕ → SpuOnBus D = λ addr.
        on_spu (λ spu. record spu { ram = update spu.ram (addr / 2) v; transfer_addr = addr }) s in
      let half : (p * 2 / 2) ≡ p = omega arith in
      subst
        (λ addr.
          At (advance_addr (spu_check_irq (stored addr) addr).1) (update ram p v) (next_index p))
        (sym here)
        (advanced (stored (p * 2)) (update ram p v) p (record {
          words = ap₂ (λ r i. update r i v) at.words half;
          index = refl;
          inside = at.inside;
        }))

  store_all-kept :
      (s : SpuOnBus D) (ram : ℕ → ℕ) (p j : ℕ) (vs : List ℕ)
      → At s ram p
      → j < ram_halfwords
      → length vs ≤ ahead p j
      → (store_halfwords s vs).spu.ram j ≡ ram j
  unfolding store_halfwords
  store_all-kept s ram p j [] at hj h = ap (λ r. r j) at.words
  store_all-kept s ram p j (v ∷ vs) at hj h =
      store_all-kept (store_halfword s v) (update ram p v) (next_index p) j vs
        (store-At s ram p v at) hj (omega (arith, h, hj, at.inside))
      ∙ update_ne ram p j v (λ e. omega (arith, h, hj, e, at.inside))

  store_all-IsStored :
      (s : SpuOnBus D) (ram : ℕ → ℕ) (p : ℕ) (vs : List ℕ)
      → At s ram p
      → length vs ≤ ram_halfwords
      → IsStored (store_halfwords s vs).spu.ram p vs
  unfolding store_halfwords IsStored
  store_all-IsStored s ram p [] at h = tt
  store_all-IsStored s ram p (v ∷ vs) at h =
      let after = store-At s ram p v at in
      (
        store_all-kept (store_halfword s v) (update ram p v) (next_index p) p vs after at.inside
              (omega (arith, h, at.inside))
            ∙ update_self ram p v,
        store_all-IsStored (store_halfword s v) (update ram p v) (next_index p) vs after
            (omega (arith, h)),
      )

  loaded :
      (s : SpuOnBus D) (ram : ℕ → ℕ) (p last : ℕ) (vs : List ℕ)
      → At s ram p
      → IsStored ram p vs
      → (load_halfwords s last (length vs)).0 ≡ vs
  unfolding load_halfwords IsStored
  loaded s ram p last [] at h = refl
  loaded s ram p last (v ∷ vs) at h =
      let here : wrapped_addr s.spu.transfer_addr ≡ p * 2 =
        ap wrapped_addr at.index ∙ wrapped_of p at.inside in
      let value : ℕ → ℕ =
        λ addr. if ltb (addr / 2) (spu_ram_size / 2) then s.spu.ram (addr / 2) else last in
      let moved : ℕ → SpuOnBus D = λ addr. on_spu (λ spu. record spu { transfer_addr = addr }) s in
      let half : (p * 2 / 2) ≡ p = omega arith in
      let read : value (p * 2) ≡ v =
        if-true {x = s.spu.ram (p * 2 / 2)} last (ground (arith, at.inside))
        ∙ ap s.spu.ram half
        ∙ ap (λ r. r p) at.words
        ∙ h.0 in
      subst
        (λ addr.
          (value addr
            ∷ (load_halfwords (advance_addr (spu_check_irq (moved addr) addr).1) (value addr)
                (length vs)).0)
          ≡ v ∷ vs)
        (sym here)
        (ap₂ (λ x xs. x ∷ xs) read
          (loaded (advance_addr (spu_check_irq (moved (p * 2)) (p * 2)).1) ram (next_index p)
            (value (p * 2)) vs
            (advanced (moved (p * 2)) ram p
              (record { words = at.words; index = refl; inside = at.inside }))
            h.1))

  -- What a DMA write stores at an even transfer address in the RAM, a DMA read from that address
  -- gives back, round the end of the RAM too, if it is not longer than the RAM.
  pub spu_dma_read_halfwords-spu_dma_write_halfwords :
      (s : SpuOnBus D) (values : List ℕ)
      → s.spu.transfer_addr < spu_ram_size
      → s.spu.transfer_addr % 2 ≡ 0
      → length values ≤ 0x4_0000
      → (spu_dma_read_halfwords
          (on_spu
            (λ spu. record spu { transfer_addr = s.spu.transfer_addr })
            (spu_dma_write_halfwords s values))
          (length values)).0
        ≡ values
  unfolding spu_dma_read_halfwords spu_dma_write_halfwords
  spu_dma_read_halfwords-spu_dma_write_halfwords s values inside even long =
      let p = s.spu.transfer_addr / 2 in
      let index : s.spu.transfer_addr ≡ p * 2 = omega (arith, even) in
      let written = store_halfwords (on_spu begin_busy s) values in
      let start = on_spu begin_busy (
        on_spu (λ spu. record spu { transfer_addr = s.spu.transfer_addr })
          (on_spu (λ spu. end_busy (set_addr_reg spu)) written)) in
      loaded start written.spu.ram p 0 values
        (record { words = refl; index = index; inside = omega (arith, inside) })
        (store_all-IsStored (on_spu begin_busy s) s.spu.ram p values
          (record { words = refl; index = index; inside = omega (arith, inside) }) long)
