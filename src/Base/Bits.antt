-- ===== src/Base/Bits.antt =====
-- Bounds of the native bit operations, and how setting, clearing and casting act on a bit.
use Prim.Native.Nat.{
  ℕ, zero, suc, ◌+◌, ◌-◌, ◌*◌, ◌/◌, ◌%◌, ◌^◌, ◌≤◌, ◌<◌, min, max, bit_and, bit_or, bit_xor, digits,
  bit_and-bitwise, bit_or-bitwise, bit_xor-bitwise, differ,
}
use mathlib.Core.Bool.{true, false}
use mathlib.Core.Logic.{inl, inr}
use mathlib.Core.Path.{◌≡◌, sym, ap, ◌∙◌}
use native.Mathlib.Nat.{
  pow-suc, one-le-pow, add-mul-div_left, add-div_right, le-div_iff_mul-le, div-eq-sub-div,
  mod-add-div,
}
use native.Mathlib.Omega.{arith}
use zonistation_one.Base.Tests.{◌==◌, Bool-cases, if-true, if-false}
use zonistation_one.Base.Word.{u16, bit, set_bit, clear_bit}

-- A bound on what is left of the digits, for an operation that gives a digit and a tail that is no
-- larger than the second number.
module _ (z : ℕ → ℕ) (f : ℕ → ℕ → ℕ) (tail : (b : ℕ) → z b ≤ b)
    (digit : (u v : ℕ) → u < 2 → v < 2 → f u v < 2) where
  digits-lt : (count k a b : ℕ) → a < 2 ^ k → b < 2 ^ k → digits z f count a b < 2 ^ k
  digits-lt zero k a b ha hb = omega (arith, tail b)
  digits-lt (suc count) k zero b ha hb = omega (arith, tail b)
  digits-lt (suc count) zero (suc a) b ha hb = absurd (omega arith)
  digits-lt (suc count) (suc k) (suc a) b ha hb =
      let double = pow-suc 2 k in
      let rest =
        digits-lt count k (suc a / 2) (b / 2) (omega (arith, double)) (omega (arith, double)) in
      let low = digit (suc a % 2) (b % 2) (omega arith) (omega arith) in
      omega (arith, double, rest, low)

-- The common digits are bounded by either number.
common-le_left : (count a b : ℕ) → digits (λ b. 0) min count a b ≤ a
common-le_left zero a b = omega arith
common-le_left (suc count) zero b = omega arith
common-le_left (suc count) (suc a) b = omega (arith, common-le_left count (suc a / 2) (b / 2))

common-le_right : (count a b : ℕ) → digits (λ b. 0) min count a b ≤ b
common-le_right zero a b = omega arith
common-le_right (suc count) zero b = omega arith
common-le_right (suc count) (suc a) b = omega (arith, common-le_right count (suc a / 2) (b / 2))

pub bit_and-lt : (k a b : ℕ) → a < 2 ^ k → bit_and a b < 2 ^ k
bit_and-lt k a b h = rw (bit_and-bitwise a b) (omega (arith, common-le_left a a b))

pub bit_and_right-lt : (k a b : ℕ) → b < 2 ^ k → bit_and a b < 2 ^ k
bit_and_right-lt k a b h = rw (bit_and-bitwise a b) (omega (arith, common-le_right a a b))

max_digit : (u v : ℕ) → u < 2 → v < 2 → max u v < 2
max_digit u v p q = omega arith

pub bit_or-lt : (k a b : ℕ) → a < 2 ^ k → b < 2 ^ k → bit_or a b < 2 ^ k
bit_or-lt k a b p q =
    rw (bit_or-bitwise a b) (digits-lt (λ b. b) max (λ b. omega arith) max_digit a k a b p q)

differ_digit : (u v : ℕ) → u < 2 → v < 2 → differ u v < 2
differ_digit zero v p q = q
differ_digit (suc u) zero p q = p
differ_digit (suc zero) (suc zero) p q = omega arith
differ_digit (suc zero) (suc (suc v)) p q = absurd (omega arith)
differ_digit (suc (suc u)) (suc v) p q = absurd (omega arith)

pub bit_xor-lt : (k a b : ℕ) → a < 2 ^ k → b < 2 ^ k → bit_xor a b < 2 ^ k
bit_xor-lt k a b p q =
    rw (bit_xor-bitwise a b) (digits-lt (λ b. b) differ (λ b. omega arith) differ_digit a k a b p q)

-- Setting and clearing a bit, and casting, as reading a bit sees them.
pow_pos : (k : ℕ) → 0 < 2 ^ k
pow_pos k = omega (arith, one-le-pow k 2)

parity_below : (r k z : ℕ) → (r + 2 ^ k * (2 * z)) / 2 ^ k % 2 ≡ r / 2 ^ k % 2
parity_below r k z = rw (add-mul-div_left r (2 * z) (pow_pos k)) (omega arith)

pub bit-set_bit : (x k : ℕ) → bit (set_bit x k) k ≡ true
bit-set_bit x k = elim (Bool-cases (bit x k)) [
  | inl e ↦ rw (if-true {b = bit x k} {x = x} (x + 2 ^ k) e) e
  | inr e ↦
      rw (if-false {b = bit x k} x {y = x + 2 ^ k} e)
        (rw (add-div_right x (pow_pos k)) (ground (arith, e)))
]

pub bit-clear_bit : (x k : ℕ) → bit (clear_bit x k) k ≡ false
bit-clear_bit x k = elim (Bool-cases (bit x k)) [
  | inl e ↦
      let high : 1 ≤ x / 2 ^ k = ground (arith, e) in
      let le : 1 * 2 ^ k ≤ x = (le-div_iff_mul-le (pow_pos k)).0 high in
      let q : x / 2 ^ k ≡ (x - 2 ^ k) / 2 ^ k + 1 =
        div-eq-sub-div (pow_pos k) (omega (arith, le)) in
      rw (if-true {b = bit x k} {x = x - 2 ^ k} x e) (ground (arith, e, q))
  | inr e ↦ rw (if-false {b = bit x k} (x - 2 ^ k) {y = x} e) e
]

pow_split : (k j : ℕ) → 2 ^ (k + j) ≡ 2 ^ k * 2 ^ j
pow_split zero j = let e : 0 + j ≡ j = omega arith in omega (arith, ap (λ n. 2 ^ n) e)
pow_split (suc k) j =
    let p = pow-suc 2 k in let q = pow-suc 2 (k + j) in grind (arith, p, q, pow_split k j)

halves : (k j y : ℕ) → 2 ^ (k + suc j) * y ≡ 2 ^ k * (2 * (2 ^ j * y))
halves k j y = let e = pow_split k (suc j) in let p = pow-suc 2 j in rw e (rw p (grind arith))

cast-bit : (y k j : ℕ) → y % 2 ^ (k + suc j) / 2 ^ k % 2 ≡ y / 2 ^ k % 2
cast-bit y k j =
    let w = 2 ^ (k + suc j) in
    let whole : y ≡ y % w + 2 ^ k * (2 * (2 ^ j * (y / w))) =
      sym (mod-add-div y w) ∙ ap (λ z. y % w + z) (halves k j (y / w)) in
    sym (ap (λ z. z / 2 ^ k % 2) whole ∙ parity_below (y % w) k (2 ^ j * (y / w)))

pub bit-u16 : (y k : ℕ) → k < 16 → bit (u16 y) k ≡ bit y k
bit-u16 y k h =
    let e : k + suc (15 - k) ≡ 16 = omega arith in
    ap (λ z. z == 1) (ap (λ n. y % 2 ^ n / 2 ^ k % 2) (sym e) ∙ cast-bit y k (15 - k))
