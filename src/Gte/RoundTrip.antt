-- ===== src/Gte/RoundTrip.antt =====
-- Reading back what was written to a register, over gte.c. Gte/RegisterMap says it by the names of
-- the registers.
use native.Mathlib.Decide.{dec_lt, ℕ_discrete}
use native.Mathlib.Nat.{pow-suc, one-le-pow, div-lt_iff_lt-mul, le-div_iff_mul-le}
use zonistation_one.Base.{
  ltb, leb, ◌==◌, if◌then◌else◌, Bool-cases, if-true, if-false, u16, ◌<<<◌, ◌>>>◌, bit, ℕ, zero,
  suc, ◌+◌, ◌-◌, ◌*◌, ◌/◌, ◌%◌, ◌^◌, ◌≤◌, ◌<◌, ◌≡◌, refl, ◌≢◌, inl, inr, true, false, ◌||◌, arith,
}
use zonistation_one.Base.Map.{update_self}
use zonistation_one.Gte.Divide.{leading_zeros}
use zonistation_one.Gte.Registers.{
  sign16, irgb_part, reads_signed16, reads_unsigned16, gte_read_data_register, write_irgb,
  gte_write_data_register, count_leading_bits,
}
use zonistation_one.Gte.State.{Gte, int16}

-- What a data register keeps of a value, as the branches of the read have it.
abbrev pub reads_as : ℕ → ℕ → ℕ
reads_as r v = if reads_signed16 r then sign16 v else if reads_unsigned16 r then u16 v else v

read_plain :
    (gte : Gte) (r v : ℕ)
    → gte.data_reg r ≡ v
    → r < 32
    → r ≢ 15
    → r ≢ 28
    → r ≢ 29
    → gte_read_data_register gte r ≡ reads_as r v
unfolding gte_read_data_register
read_plain gte r v e h n15 n28 n29 =
    let range : leb 32 r ≡ false = ground arith in
    let point : (r == 15) ≡ false = ground arith in
    let colour : (r == 28 || r == 29) ≡ false = ground arith in
    rw range (rw point (rw colour (rw e refl)))

write_plain :
    (gte : Gte) (r v : ℕ)
    → r < 32
    → r ≢ 15
    → r ≢ 28
    → r ≢ 29
    → r ≢ 31
    → (gte_write_data_register gte r v).data_reg r ≡ v
unfolding gte_write_data_register
write_plain gte r v h n15 n28 n29 n31 =
    let range : leb 32 r ≡ false = ground arith in
    let point : (r == 15) ≡ false = ground arith in
    let irgb : (r == 28) ≡ false = ground arith in
    let orgb : (r == 29) ≡ false = ground arith in
    let lzcr : (r == 31) ≡ false = ground arith in
    rw range (
      rw point (
        rw irgb (
          rw orgb (
            rw lzcr (elim (Bool-cases (r == 30)) [
              | inl e ↦ let at30 : r ≡ 30 = ground (arith, e) in rw at30 refl
              | inr e ↦ rw e (update_self gte.data_reg r v)
            ])))))

newest_point :
    (gte : Gte) (v : ℕ)
    → gte_read_data_register (gte_write_data_register gte 15 v) 15 ≡ reads_as 15 v
unfolding gte_read_data_register gte_write_data_register
newest_point gte v = refl

pub written_and_read :
    (gte : Gte) (r v : ℕ)
    → r < 32
    → r ≢ 28
    → r ≢ 29
    → r ≢ 31
    → gte_read_data_register (gte_write_data_register gte r v) r ≡ reads_as r v
written_and_read gte r v h n28 n29 n31 = elim (ℕ_discrete r 15) [
  | yes e ↦ rw e (newest_point gte v)
  | no n ↦
      read_plain (gte_write_data_register gte r v) r v (write_plain gte r v h n n28 n29 n31) h n n28
        n29
]

irgb_kept : (c : ℕ) → c < 32 → irgb_part (int16 (sign16 (c <<< 7))) ≡ c
irgb_kept c h = ground arith

irgb_sum :
    (v : ℕ)
    → irgb_part (int16 (sign16 ((v % 2 ^ 5) <<< 7)))
        + irgb_part (int16 (sign16 (((v >>> 5) % 2 ^ 5) <<< 7))) <<< 5
        + irgb_part (int16 (sign16 (((v >>> 10) % 2 ^ 5) <<< 7))) <<< 10
      ≡ v % 2 ^ 15
irgb_sum v =
    let r = irgb_kept (v % 2 ^ 5) (omega arith) in
    let g = irgb_kept ((v >>> 5) % 2 ^ 5) (omega arith) in
    let b = irgb_kept ((v >>> 10) % 2 ^ 5) (omega arith) in rw r (rw g (rw b (omega arith)))

-- IRGB reads as the low 15 bits of what was written to it, and so does ORGB: the three colours go
-- through IR1 to IR3 and come back.
pub irgb-gte_write_data_register :
    (gte : Gte) (v : ℕ)
    → gte_read_data_register (gte_write_data_register gte 28 v) 28 ≡ v % 2 ^ 15
      × gte_read_data_register (gte_write_data_register gte 28 v) 29 ≡ v % 2 ^ 15
unfolding gte_read_data_register gte_write_data_register write_irgb
irgb-gte_write_data_register gte v = (irgb_sum v, irgb_sum v)

-- The first 1 of `n` from bit `width - 1` down.
leading_zeros-bounds :
    (width n : ℕ)
    → n < 2 ^ width
    → n ≢ 0
    → n < 2 ^ (width - leading_zeros width n) × 2 ^ (width - leading_zeros width n) ≤ 2 * n
leading_zeros-bounds zero n h ne = absurd (omega arith)
leading_zeros-bounds (suc k) n h ne =
    let double = pow-suc 2 k in
    let positive : 0 < 2 ^ k = one-le-pow k 2 (omega arith) in
    elim (dec_lt n (2 ^ k)) [
      | yes below ↦
          let q : n / 2 ^ k < 1 = (div-lt_iff_lt-mul positive).1 (omega (arith, below)) in
          let clear : bit n k ≡ false = ground (arith, q) in
          let fewer : suc k - suc (leading_zeros k n) ≡ k - leading_zeros k n = omega arith in
          rw (if-false 0 {y = suc (leading_zeros k n)} clear)
            (rw fewer (leading_zeros-bounds k n below ne))
      | no above ↦
          let high : 1 ≤ n / 2 ^ k = (le-div_iff_mul-le positive).1 (omega (arith, above)) in
          let q : n / 2 ^ k < 2 = (div-lt_iff_lt-mul positive).1 (omega (arith, h, double)) in
          let set : bit n k ≡ true = ground (arith, q, high) in
          let whole : suc k - 0 ≡ suc k = omega arith in
          rw (if-true {x = 0} (suc (leading_zeros k n)) set)
            (rw whole (h, omega (arith, double, above)))
    ]

-- For a positive number in LZCS, LZCR reads as the count of zeros above its highest 1, which is bit
-- 31 minus the count.
pub lzcr-gte_write_data_register :
    (gte : Gte) (v : ℕ)
    → v < 2 ^ 31
    → v ≢ 0
    → v < 2 ^ (32 - gte_read_data_register (gte_write_data_register gte 30 v) 31)
      × 2 ^ (32 - gte_read_data_register (gte_write_data_register gte 30 v) 31) ≤ 2 * v
unfolding gte_read_data_register gte_write_data_register count_leading_bits
lzcr-gte_write_data_register gte v h ne =
    let positive : ltb v (2 ^ 31) ≡ true = ground arith in
    let some_bit : (v == 0) ≡ false = ground arith in
    rw positive (rw some_bit (leading_zeros-bounds 32 v (omega arith) ne))
