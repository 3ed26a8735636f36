-- ===== src/Cpu/Division.antt =====
-- DIV of cpu_instructions.c against the division of integers.
use native.Mathlib.Nat.{div-add-mod, div-le_self, mod-le}
use zonistation_one.Base.{
  ltb, ◌==◌, Bool-cases, if-false, ℕ, zero, suc, ◌+◌, ◌-◌, ◌*◌, ◌/◌, ◌^◌, ◌≤◌, ◌<◌, ◌≡◌, refl, ap,
  ap₂, ◌∙◌, ◌≢◌, inl, inr, true, false, ◌&&◌, arith,
}
use zonistation_one.Base.Int.{
  ℤ, ◌+ℤ◌, ◌*ℤ◌, eq_of_parts, signed32, to_word, quot, rem, pos, negsuc, pos_part, neg_part,
}
use zonistation_one.Cpu.Arithmetic.{fits}
use zonistation_one.Cpu.Fields.{instr_s, instr_t}
use zonistation_one.Cpu.MulDiv.{div_ticks, start_muldiv, op_div}
use zonistation_one.Cpu.Regs.{cpu_reg}
use zonistation_one.Cpu.Wf.Alu.{reg-IsWord}
use zonistation_one.Cpu.Wf.Core.{IsWf}
use zonistation_one.Machine.{Cpu}

-- Quotient and remainder give the dividend back, for each pair of signs.
quot-rem_pos_pos : (a b : ℕ) → quot (pos a) (pos b) *ℤ (pos b) +ℤ rem (pos a) (pos b) ≡ (pos a)
unfolding ◌+ℤ◌ ◌*ℤ◌
quot-rem_pos_pos a b = let e = div-add-mod a b in eq_of_parts _ _ (ground (arith, e))

quot-rem_pos_negsuc :
    (a b : ℕ) → quot (pos a) (negsuc b) *ℤ (negsuc b) +ℤ rem (pos a) (negsuc b) ≡ (pos a)
unfolding ◌+ℤ◌ ◌*ℤ◌
quot-rem_pos_negsuc a b = let e = div-add-mod a (suc b) in eq_of_parts _ _ (ground (arith, e))

quot-rem_negsuc_pos :
    (a b : ℕ) → quot (negsuc a) (pos b) *ℤ (pos b) +ℤ rem (negsuc a) (pos b) ≡ (negsuc a)
unfolding ◌+ℤ◌ ◌*ℤ◌
quot-rem_negsuc_pos a b = let e = div-add-mod (suc a) b in eq_of_parts _ _ (ground (arith, e))

quot-rem_negsuc_negsuc :
    (a b : ℕ) → quot (negsuc a) (negsuc b) *ℤ (negsuc b) +ℤ rem (negsuc a) (negsuc b) ≡ (negsuc a)
unfolding ◌+ℤ◌ ◌*ℤ◌
quot-rem_negsuc_negsuc a b =
    let e = div-add-mod (suc a) (suc b) in eq_of_parts _ _ (ground (arith, e))

quot-rem : (x y : ℤ) → quot x y *ℤ y +ℤ rem x y ≡ x
quot-rem (pos a) (pos b) = quot-rem_pos_pos a b
quot-rem (pos a) (negsuc b) = quot-rem_pos_negsuc a b
quot-rem (negsuc a) (pos b) = quot-rem_negsuc_pos a b
quot-rem (negsuc a) (negsuc b) = quot-rem_negsuc_negsuc a b

signed32-to_word : (x : ℤ) → fits x ≡ true → signed32 (to_word 32 x) ≡ x
signed32-to_word (pos n) h = ground (arith, h)
signed32-to_word (negsuc n) h = ground (arith, h)

abbrev pub magnitude : ℤ → ℕ
magnitude x = pos_part x + neg_part x

-- A quotient by a number other than 0, 1 and -1 is at most half the dividend.
half_quot : (a b : ℕ) → 2 ≤ b → a / b * 2 ≤ a
half_quot a b h = let e = div-add-mod a b in grind (arith, e)

fits-quot :
    (x y : ℤ)
    → fits x ≡ true
    → magnitude y ≢ 0
    → (x ≡ negsuc (2 ^ 31 - 1) → y ≡ negsuc 0 → ⊥)
    → fits (quot x y) ≡ true
fits-quot (pos a) (pos b) h ne ok = ground (arith, h, div-le_self a b)
fits-quot (pos a) (negsuc b) h ne ok = ground (arith, h, div-le_self a (suc b))
fits-quot (negsuc a) (pos b) h ne ok = ground (arith, h, div-le_self (suc a) b)
fits-quot (negsuc a) (negsuc zero) h ne ok = elim (Bool-cases (ltb a (2 ^ 31 - 1))) [
  | inl lt ↦ ground (arith, h, lt)
  | inr ge ↦
      let least : a ≡ 2 ^ 31 - 1 = ground (arith, h, ge) in absurd (ok (ap negsuc least) refl)
]
fits-quot (negsuc a) (negsuc (suc b)) h ne ok =
    let half = half_quot (suc a) (suc (suc b)) (omega arith) in ground (arith, h, half)

fits-rem : (x y : ℤ) → fits x ≡ true → fits (rem x y) ≡ true
fits-rem (pos a) (pos b) h = ground (arith, h, mod-le a b)
fits-rem (pos a) (negsuc b) h = ground (arith, h, mod-le a (suc b))
fits-rem (negsuc a) (pos b) h = ground (arith, h, mod-le (suc a) b)
fits-rem (negsuc a) (negsuc b) h = ground (arith, h, mod-le (suc a) (suc b))

magnitude-rem : (x y : ℤ) → magnitude y ≢ 0 → magnitude (rem x y) < magnitude y
magnitude-rem (pos a) (pos b) ne = ground arith
magnitude-rem (pos a) (negsuc b) ne = ground arith
magnitude-rem (negsuc a) (pos b) ne = ground arith
magnitude-rem (negsuc a) (negsuc b) ne = ground arith

fits-signed32 : (n : ℕ) → n < 2 ^ 32 → fits (signed32 n) ≡ true
fits-signed32 n h = ground arith

divisor : (d : ℕ) → (d == 0) ≡ false → magnitude (signed32 d) ≢ 0
divisor d h = ground (arith, h)

not_least :
    (n d : ℕ)
    → n < 2 ^ 32
    → d < 2 ^ 32
    → (n == 0x8000_0000 && d == 0xffff_ffff) ≡ false
    → signed32 n ≡ negsuc (2 ^ 31 - 1)
    → signed32 d ≡ negsuc 0
    → ⊥
not_least n d hn hd h p q = ground (arith, h, ap neg_part p, ap neg_part q)

module _ {D G : Type 0} where
  -- What DIV computes when neither of its special cases holds.
  divided :
      (cpu : Cpu D G) (i : ℕ)
      → (cpu_reg cpu (instr_t i) == 0) ≡ false
      → (cpu_reg cpu (instr_s i) == 0x8000_0000 && cpu_reg cpu (instr_t i) == 0xffff_ffff) ≡ false
      → op_div cpu i
        ≡ start_muldiv cpu
            (to_word 32
              (rem (signed32 (cpu_reg cpu (instr_s i))) (signed32 (cpu_reg cpu (instr_t i)))))
            (to_word 32
              (quot (signed32 (cpu_reg cpu (instr_s i))) (signed32 (cpu_reg cpu (instr_t i)))))
            div_ticks
  unfolding op_div
  divided cpu i nonzero small = if-false _ nonzero ∙ if-false _ small

  -- DIV on a well formed CPU, by a divisor other than 0 and unless it divides -2^31 by -1, leaves a
  -- signed quotient in LO and a signed remainder in HI that give the dividend back, the remainder
  -- smaller in magnitude than the divisor.
  pub op_div_lem :
      (cpu : Cpu D G) (i : ℕ)
      → IsWf cpu
      → (cpu_reg cpu (instr_t i) == 0) ≡ false
      → (cpu_reg cpu (instr_s i) == 0x8000_0000 && cpu_reg cpu (instr_t i) == 0xffff_ffff) ≡ false
      → (signed32 (op_div cpu i).lo *ℤ signed32 (cpu_reg cpu (instr_t i))
            +ℤ signed32 (op_div cpu i).hi
          ≡ signed32 (cpu_reg cpu (instr_s i)))
        × (magnitude (signed32 (op_div cpu i).hi) < magnitude (signed32 (cpu_reg cpu (instr_t i))))
  unfolding start_muldiv
  op_div_lem cpu i w nonzero small =
      let n = cpu_reg cpu (instr_s i) in
      let d = cpu_reg cpu (instr_t i) in
      let x = signed32 n in
      let y = signed32 d in
      let fx = fits-signed32 n (reg-IsWord (instr_s i) w) in
      let ne = divisor d nonzero in
      let q = signed32-to_word (quot x y) (
        fits-quot x y fx ne
          (not_least n d (reg-IsWord (instr_s i) w) (reg-IsWord (instr_t i) w) small)) in
      let r = signed32-to_word (rem x y) (fits-rem x y fx) in
      let e = divided cpu i nonzero small in
      let lo = ap (λ (c : Cpu D G). signed32 c.lo) e ∙ q in
      let hi = ap (λ (c : Cpu D G). signed32 c.hi) e ∙ r in
      (ap₂ (λ a b. a *ℤ y +ℤ b) lo hi ∙ quot-rem x y, rw hi (magnitude-rem x y ne))
