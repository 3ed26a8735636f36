-- ===== src/Cpu/PlannedStore.antt =====
-- A planned store of include/cpu_mem.h through the bus of src/core/bus.c into the scratchpad.
use zonistation_one.Base.{
  ltb, ◌!=◌, if-true, if-false, if-same, All, u8, u16, add32, ℕ, ◌+◌, ◌-◌, ◌*◌, ◌%◌, ◌^◌, ◌<◌, ◌≡◌,
  refl, ap, ◌∙◌, true, false, List, [], ◌∷◌, arith,
}
use zonistation_one.Base.Map.{update}
use zonistation_one.Bus.Access.{
  within, mask_region, interconnect_store8, interconnect_store16, interconnect_store32, begin_store,
  bus_charge_cpu_store, write_mapped8, write_mapped16, write_mapped32,
}
use zonistation_one.Bus.Bytes.{store_le16, store_le32}
use zonistation_one.Cpu.LoadStore.{store_planned, run_plan}
use zonistation_one.Cpu.Partial.{PartialStore}
use zonistation_one.Cpu.Unaligned.{stored, stored_plan}
use zonistation_one.Machine.{Env, Interconnect, Cpu}

abbrev pub scratchpad_base : ℕ
scratchpad_base = 0x1F80_0000

-- A store that fits an aligned word and lies on a multiple of its size.
pub data IsNatural : PartialStore → Type 0 where
  byte : {off value : ℕ} → off < 4 → IsNatural (record { off = off; size = 1; value = value })
  half :
      {off value : ℕ}
      → off % 2 ≡ 0
      → off < 4
      → IsNatural (record { off = off; size = 2; value = value })
  whole : {value : ℕ} → IsNatural (record { off = 0; size = 4; value = value })

region_offset :
    (a k : ℕ) → a < 2 ^ 32 → a % 4 ≡ 0 → k < 4 → mask_region (add32 a k) ≡ mask_region a + k
unfolding mask_region
region_offset a k h al lt = ground (arith, h, al, lt)

-- Where the bus finds the offset.
record Mapped (off : ℕ) : Type 0 where
  not_ram : ltb (scratchpad_base + off) 0x80_0000 ≡ false
  inside : within scratchpad_base (scratchpad_base + 0x400) (scratchpad_base + off) ≡ true
  offset : scratchpad_base + off - scratchpad_base ≡ off

mapped : (off : ℕ) → off < 0x400 → Mapped off
mapped off h = record {
  not_ram = ground (arith, h);
  inside = ground (arith, h);
  offset = omega arith;
}

module _ {D G : Type 0} (env : Env D G) where
  scratch : Interconnect D → ℕ → ℕ
  scratch inter = inter.scratchpad

  write8 :
      (inter : Interconnect D) (off v : ℕ)
      → off < 0x400
      → (write_mapped8 env inter (scratchpad_base + off) v).scratchpad
        ≡ update inter.scratchpad off v
  unfolding write_mapped8 scratch
  write8 inter off v h =
      let at = mapped off h in
      ap scratch (if-false _ at.not_ram ∙ if-true _ at.inside)
      ∙ ap (λ o. update inter.scratchpad o v) at.offset

  write16 :
      (inter : Interconnect D) (off v : ℕ)
      → off < 0x400
      → (write_mapped16 env inter (scratchpad_base + off) v).scratchpad
        ≡ store_le16 inter.scratchpad off v
  unfolding write_mapped16 scratch
  write16 inter off v h =
      let at = mapped off h in
      ap scratch (if-false _ at.not_ram ∙ if-true _ at.inside)
      ∙ ap (λ o. store_le16 inter.scratchpad o v) at.offset

  write32 :
      (inter : Interconnect D) (off v : ℕ)
      → off < 0x400
      → (write_mapped32 env inter (scratchpad_base + off) v).scratchpad
        ≡ store_le32 inter.scratchpad off v
  unfolding write_mapped32 scratch
  write32 inter off v h =
      let at = mapped off h in
      ap scratch (if-false _ at.not_ram ∙ if-true _ at.inside)
      ∙ ap (λ o. store_le32 inter.scratchpad o v) at.offset

module _ {D G : Type 0} (env : Env D G)
    (quiet : (inter : Interconnect D) (b size : ℕ)
      → (env.check_write_watchpoint inter b size).scratchpad ≡ inter.scratchpad)
    (a q : ℕ) (word : a < 2 ^ 32) (aligned : a % 4 ≡ 0)
    (place : mask_region a ≡ scratchpad_base + q * 4) (small : q < 0x100) where
  begun :
      (inter : Interconnect D) (b size : ℕ)
      → (begin_store env inter b size).scratchpad ≡ inter.scratchpad
  unfolding begin_store bus_charge_cpu_store
  begun inter b size =
      if-same (λ (i : Interconnect D). i.scratchpad) (ltb (mask_region b) 0x80_0000)
        (quiet inter b size) (quiet inter b size)

  moved : (k : ℕ) → k < 4 → mask_region (add32 a k) ≡ scratchpad_base + (q * 4 + k)
  moved k h = omega (arith, region_offset a k word aligned h, place)

  -- A planned store reaches the scratchpad, since it is aligned.
  store_planned-stored :
      (cpu : Cpu D G) (p : PartialStore)
      → IsNatural p
      → (store_planned env cpu a p).inter.scratchpad ≡ stored cpu.inter.scratchpad (q * 4) p
  unfolding store_planned stored interconnect_store8 interconnect_store16 interconnect_store32
  store_planned-stored cpu _ (IsNatural.byte {off} {value} h) =
      let b = begin_store env cpu.inter (add32 a off) 1 in
      ap (λ m. (write_mapped8 env b m (u8 value)).scratchpad) (moved off h)
      ∙ write8 env b (q * 4 + off) (u8 value) (omega (arith, h, small))
      ∙ ap (λ f. update f (q * 4 + off) (u8 value)) (begun cpu.inter (add32 a off) 1)
  store_planned-stored cpu _ (IsNatural.half {off} {value} e h) =
      let b = begin_store env cpu.inter (add32 a off) 2 in
      let even : (add32 a off % 2 != 0) ≡ false = ground (arith, e, aligned) in
      ap (λ (c : Cpu D G). c.inter.scratchpad) (if-false _ even)
      ∙ ap (λ m. (write_mapped16 env b m (u16 value)).scratchpad) (moved off h)
      ∙ write16 env b (q * 4 + off) (u16 value) (omega (arith, h, small))
      ∙ ap (λ f. store_le16 f (q * 4 + off) (u16 value)) (begun cpu.inter (add32 a off) 2)
  store_planned-stored cpu _ (IsNatural.whole {value}) =
      let b = begin_store env cpu.inter (add32 a 0) 4 in
      let whole : (add32 a 0 % 4 != 0) ≡ false = ground (arith, aligned) in
      ap (λ (c : Cpu D G). c.inter.scratchpad) (if-false _ whole)
      ∙ ap (λ m. (write_mapped32 env b m value).scratchpad) (moved 0 (omega arith))
      ∙ write32 env b (q * 4 + 0) value (omega (arith, small))
      ∙ ap (λ f. store_le32 f (q * 4 + 0) value) (begun cpu.inter (add32 a 0) 4)

  pub run_plan-stored_plan :
      (cpu : Cpu D G) (ps : List PartialStore)
      → All IsNatural ps
      → (run_plan env cpu a ps).inter.scratchpad ≡ stored_plan cpu.inter.scratchpad (q * 4) ps
  unfolding run_plan stored_plan
  run_plan-stored_plan cpu [] h = refl
  run_plan-stored_plan cpu (p ∷ ps) h =
      run_plan-stored_plan (store_planned env cpu a p) ps h.1
      ∙ ap (λ f. stored_plan f (q * 4) ps) (store_planned-stored cpu p h.0)
