-- ===== src/Gte/Reciprocal.antt =====
-- The division of gte_internal.h: its bounds, and that it stays inside the table.
use zonistation_one.Base.{
  ltb, leb, if◌then◌else◌, Bool-cases, length, get_or, ℕ, zero, suc, ◌+◌, ◌-◌, ◌*◌, ◌/◌, ◌%◌, ◌^◌,
  ◌≤◌, ◌<◌, ◌≡◌, refl, sym, ap, ◌∙◌, inl, inr, Bool, true, false, ◌&&◌, List, [], ◌∷◌, arith,
}
use zonistation_one.Base.Int.{◌+ℤ◌, ◌-ℤ◌, ◌*ℤ◌}
use zonistation_one.Gte.Divide.{unr_table, unr_index, unr_quotient, unr_reciprocal, gte_unr_divide}
use zonistation_one.Gte.State.{Gte}

all_below : ℕ → List ℕ → Bool
all_below n [] = true
all_below n (x ∷ xs) = if ltb x n then all_below n xs else false

get_or-lt : (n : ℕ) (xs : List ℕ) (i : ℕ) → 0 < n → all_below n xs ≡ true → get_or xs i 0 < n
unfolding all_below
get_or-lt n [] i h e = h
get_or-lt n (x ∷ xs) zero h e = ground arith
get_or-lt n (x ∷ xs) (suc i) h e = get_or-lt n xs i h (ground (arith, e))

unr_table-lt : (i : ℕ) → get_or unr_table i 0 < 256
unfolding all_below
unr_table-lt i = get_or-lt 256 unr_table i (omega arith) refl

-- The index of a divisor lies in the table of 257 entries.
pub unr_index-lt : (divisor : ℕ) → unr_index divisor < length unr_table
unr_index-lt divisor = let size : length unr_table ≡ 257 = refl in omega (arith, size)

pub unr_quotient-le : (lhs rhs : ℕ) → unr_quotient lhs rhs ≤ 0x1_FFFF
unfolding unr_quotient
unr_quotient-le lhs rhs = ground arith

-- Within 3 below and 2 above 2^32 / divisor.
is_close : ℕ → Bool
is_close d =
    let product = unr_reciprocal d * d in
    leb (2 ^ 32) (product + 3 * d) && leb product (2 ^ 32 + 2 * d)

-- A test at `n` numbers from `d` on.
all_from : (ℕ → Bool) → ℕ → ℕ → Bool
all_from test zero d = true
all_from test (suc n) d = if test d then all_from test n (suc d) else false

all_from-elim :
    (test : ℕ → Bool) (n d k : ℕ) → all_from test n d ≡ true → k < n → test (d + k) ≡ true
unfolding all_from
all_from-elim test zero d k e h = absurd (omega arith)
all_from-elim test (suc n) d zero e h =
    let here : test d ≡ true = ground (arith, e) in
    let same : d + 0 ≡ d = omega arith in rw same here
all_from-elim test (suc n) d (suc k) e h =
    let later : all_from test n (suc d) ≡ true = ground (arith, e) in
    let same : suc d + k ≡ d + suc k = omega arith in
    ap test (sym same) ∙ all_from-elim test n (suc d) k later (omega arith)

-- The 2^15 divisors, in 256 blocks of 128.
block_is_close : ℕ → Bool
block_is_close b = all_from is_close 128 (0x8000 + 128 * b)

blocks_are_close : all_from block_is_close 256 0 ≡ true
unfolding all_from block_is_close is_close unr_reciprocal ◌-ℤ◌ ◌+ℤ◌ ◌*ℤ◌
blocks_are_close = refl

is_close-normalised : (d : ℕ) → 0x8000 ≤ d → d < 0x1_0000 → is_close d ≡ true
unfolding block_is_close
is_close-normalised d lo hi =
    let b = (d - 0x8000) / 128 in
    let k = (d - 0x8000) % 128 in
    let place : 0x8000 + 128 * b + k ≡ d = omega arith in
    let zero_based : 0 + b ≡ b = omega arith in
    let block : block_is_close b ≡ true =
      ap block_is_close (sym zero_based)
      ∙ all_from-elim block_is_close 256 0 b blocks_are_close (omega arith) in
    ap is_close (sym place) ∙ all_from-elim is_close 128 (0x8000 + 128 * b) k block (omega arith)

-- For every divisor whose bit 15 is the highest, the table and the step of Newton give 2^32 divided
-- by it, at most 3 too low and at most 2 too high.
pub unr_reciprocal_lem :
    (d : ℕ)
    → 0x8000 ≤ d
    → d < 0x1_0000
    → 2 ^ 32 ≤ unr_reciprocal d * d + 3 * d × unr_reciprocal d * d ≤ 2 ^ 32 + 2 * d
unfolding is_close
unr_reciprocal_lem d lo hi = let e = is_close-normalised d lo hi in ground (arith, e)

-- Dividing never gives more than 0x1FFFF; it gives that, with the flags of the overflow, when H is
-- at least twice SZ3.
pub gte_unr_divide-le : (gte : Gte) (lhs rhs : ℕ) → (gte_unr_divide gte lhs rhs).0 ≤ 0x1_FFFF
unfolding gte_unr_divide
gte_unr_divide-le gte lhs rhs = elim (Bool-cases (leb (rhs * 2) lhs)) [
  | inl e ↦ rw e (omega arith)
  | inr e ↦ rw e (unr_quotient-le lhs rhs)
]
