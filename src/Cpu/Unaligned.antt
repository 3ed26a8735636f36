-- ===== src/Cpu/Unaligned.antt =====
-- The merges and plans of the unaligned accesses of include/cpu_mem.h and cpu_instructions.c, on an
-- array of bytes.
use zonistation_one.Base.{
  ◌==◌, if◌then◌else◌, u8, u16, ℕ, zero, suc, ◌+◌, ◌*◌, ◌/◌, ◌%◌, ◌^◌, ◌<◌, ◌≡◌, List, [], ◌∷◌,
  arith,
}
use zonistation_one.Base.Map.{update}
use zonistation_one.Bus.Bytes.{IsBytes, load_le32, store_le16, store_le32}
use zonistation_one.Cpu.Partial.{
  PartialStore, lwl_merge, lwr_merge, cpu_swl_merge, cpu_swr_merge, cpu_swl_plan, cpu_swr_plan,
}

-- What a store writes into an array of bytes, and what a plan does.
unfoldable pub stored : (ℕ → ℕ) → ℕ → PartialStore → ℕ → ℕ
stored f base p =
    if p.size == 1
    then update f (base + p.off) (u8 p.value)
    else if p.size == 2
    then store_le16 f (base + p.off) (u16 p.value)
    else store_le32 f (base + p.off) p.value

unfoldable pub stored_plan : (ℕ → ℕ) → ℕ → List PartialStore → ℕ → ℕ
stored_plan f base [] = f
stored_plan f base (p ∷ ps) = stored_plan (stored f base p) base ps

-- The merges of LWR at an address and of LWL three bytes further, in any alignment, make the
-- little-endian word at that address of whatever word they start from.
pub lwl_merge-lwr_merge :
    (ram : ℕ → ℕ) (current q k : ℕ)
    → IsBytes ram
    → current < 2 ^ 32
    → k < 4
    → lwl_merge
        (lwr_merge current (load_le32 ram (q * 4)) k)
        (load_le32 ram ((q * 4 + k + 3) / 4 * 4))
        ((k + 3) % 4)
      ≡ load_le32 ram (q * 4 + k)
unfolding lwl_merge lwr_merge
lwl_merge-lwr_merge ram current q zero b h lt =
    let e : (q * 4 + 0 + 3) / 4 * 4 ≡ q * 4 = omega arith in
    rw e (grind (arith, b (q * 4), b (q * 4 + 1), b (q * 4 + 2), b (q * 4 + 3), h))
lwl_merge-lwr_merge ram current q (suc zero) b h lt =
    let e : (q * 4 + 1 + 3) / 4 * 4 ≡ q * 4 + 4 = omega arith in
    rw e (
      grind (
        arith,
        b (q * 4),
        b (q * 4 + 1),
        b (q * 4 + 2),
        b (q * 4 + 3),
        b (q * 4 + 4),
        b (q * 4 + 5),
        b (q * 4 + 6),
        h,
      ))
lwl_merge-lwr_merge ram current q (suc (suc zero)) b h lt =
    let e : (q * 4 + 2 + 3) / 4 * 4 ≡ q * 4 + 4 = omega arith in
    rw e (
      grind (
        arith,
        b (q * 4),
        b (q * 4 + 1),
        b (q * 4 + 2),
        b (q * 4 + 3),
        b (q * 4 + 4),
        b (q * 4 + 5),
        b (q * 4 + 6),
        h,
      ))
lwl_merge-lwr_merge ram current q (suc (suc (suc zero))) b h lt =
    let e : (q * 4 + 3 + 3) / 4 * 4 ≡ q * 4 + 4 = omega arith in
    rw e (
      grind (
        arith,
        b (q * 4),
        b (q * 4 + 1),
        b (q * 4 + 2),
        b (q * 4 + 3),
        b (q * 4 + 4),
        b (q * 4 + 5),
        b (q * 4 + 6),
        h,
      ))
lwl_merge-lwr_merge ram current q (suc (suc (suc (suc k)))) b h lt = absurd (omega arith)

-- The stores planned for SWL and for SWR, written to an array at their offsets, leave the word that
-- the merge of the whole word gives, for every alignment.
pub stored_plan-merge :
    (f : ℕ → ℕ) (q rt k : ℕ)
    → IsBytes f
    → rt < 2 ^ 32
    → k < 4
    → (load_le32 (stored_plan f (q * 4) (cpu_swl_plan rt k)) (q * 4)
        ≡ cpu_swl_merge (load_le32 f (q * 4)) rt k)
      × (load_le32 (stored_plan f (q * 4) (cpu_swr_plan rt k)) (q * 4)
          ≡ cpu_swr_merge (load_le32 f (q * 4)) rt k)
unfolding stored stored_plan cpu_swl_plan cpu_swr_plan cpu_swl_merge cpu_swr_merge
stored_plan-merge f q rt zero b h lt = (
  grind (arith, b (q * 4), b (q * 4 + 1), b (q * 4 + 2), b (q * 4 + 3), h),
  grind (arith, b (q * 4), b (q * 4 + 1), b (q * 4 + 2), b (q * 4 + 3), h),
)
stored_plan-merge f q rt (suc zero) b h lt = (
  grind (arith, b (q * 4), b (q * 4 + 1), b (q * 4 + 2), b (q * 4 + 3), h),
  grind (arith, b (q * 4), b (q * 4 + 1), b (q * 4 + 2), b (q * 4 + 3), h),
)
stored_plan-merge f q rt (suc (suc zero)) b h lt = (
  grind (arith, b (q * 4), b (q * 4 + 1), b (q * 4 + 2), b (q * 4 + 3), h),
  grind (arith, b (q * 4), b (q * 4 + 1), b (q * 4 + 2), b (q * 4 + 3), h),
)
stored_plan-merge f q rt (suc (suc (suc zero))) b h lt = (
  grind (arith, b (q * 4), b (q * 4 + 1), b (q * 4 + 2), b (q * 4 + 3), h),
  grind (arith, b (q * 4), b (q * 4 + 1), b (q * 4 + 2), b (q * 4 + 3), h),
)
stored_plan-merge f q rt (suc (suc (suc (suc k)))) b h lt = absurd (omega arith)
