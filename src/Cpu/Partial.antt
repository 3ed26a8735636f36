-- ===== src/Cpu/Partial.antt =====
-- include/cpu_mem.h: the merge of SWL and SWR into a word of memory, and the same transfer as at
-- most two aligned stores. A mask of high bits keeps the rest of a division, `x & 0xFFFFFF00` being
-- `x / 2 ^ 8 * 2 ^ 8`; the `|` of disjoint fields is a sum.
use zonistation_one.Base.{
  ◌==◌, if◌then◌else◌, u32, ◌<<<◌, ◌>>>◌, ℕ, ◌+◌, ◌*◌, ◌/◌, ◌%◌, ◌^◌, List, [], ◌∷◌,
}

unfoldable pub cpu_swl_merge : ℕ → ℕ → ℕ → ℕ
cpu_swl_merge mem rt byte_off =
    if byte_off % 4 == 0
    then mem / 2 ^ 8 * 2 ^ 8 + (rt >>> 24)
    else if byte_off % 4 == 1
    then mem / 2 ^ 16 * 2 ^ 16 + (rt >>> 16)
    else if byte_off % 4 == 2
    then mem / 2 ^ 24 * 2 ^ 24 + (rt >>> 8)
    else rt

unfoldable pub cpu_swr_merge : ℕ → ℕ → ℕ → ℕ
cpu_swr_merge mem rt byte_off =
    if byte_off % 4 == 0
    then rt
    else if byte_off % 4 == 1
    then mem % 2 ^ 8 + u32 (rt <<< 8)
    else if byte_off % 4 == 2
    then mem % 2 ^ 16 + u32 (rt <<< 16)
    else mem % 2 ^ 24 + u32 (rt <<< 24)

-- One store of `CpuPartialStore`: offset from the aligned word, size in bytes, value.
pub record PartialStore : Type 0 where
  pub off : ℕ
  pub size : ℕ
  pub value : ℕ

unfoldable pub cpu_swl_plan : ℕ → ℕ → List PartialStore
cpu_swl_plan rt byte_off =
    if byte_off % 4 == 0
    then record { off = 0; size = 1; value = rt >>> 24 } ∷ []
    else if byte_off % 4 == 1
    then record { off = 0; size = 2; value = rt >>> 16 } ∷ []
    else if byte_off % 4 == 2
    then record { off = 0; size = 2; value = (rt >>> 8) % 0x1_0000 }
      ∷ record { off = 2; size = 1; value = rt >>> 24 }
      ∷ []
    else record { off = 0; size = 4; value = rt } ∷ []

unfoldable pub cpu_swr_plan : ℕ → ℕ → List PartialStore
cpu_swr_plan rt byte_off =
    if byte_off % 4 == 0
    then record { off = 0; size = 4; value = rt } ∷ []
    else if byte_off % 4 == 1
    then record { off = 1; size = 1; value = rt % 0x100 }
      ∷ record { off = 2; size = 2; value = (rt >>> 8) % 0x1_0000 }
      ∷ []
    else if byte_off % 4 == 2
    then record { off = 2; size = 2; value = rt % 0x1_0000 } ∷ []
    else record { off = 3; size = 1; value = rt % 0x100 } ∷ []

-- The merge of LWL and LWR: the target's old value, the aligned word, and `addr & 3`.
unfoldable pub lwl_merge : ℕ → ℕ → ℕ → ℕ
lwl_merge current word byte_off =
    if byte_off == 0
    then current % 2 ^ 24 + u32 (word <<< 24)
    else if byte_off == 1
    then current % 2 ^ 16 + u32 (word <<< 16)
    else if byte_off == 2
    then current % 2 ^ 8 + u32 (word <<< 8)
    else word

unfoldable pub lwr_merge : ℕ → ℕ → ℕ → ℕ
lwr_merge current word byte_off =
    if byte_off == 0
    then word
    else if byte_off == 1
    then current / 2 ^ 24 * 2 ^ 24 + (word >>> 8)
    else if byte_off == 2
    then current / 2 ^ 16 * 2 ^ 16 + (word >>> 16)
    else current / 2 ^ 8 * 2 ^ 8 + (word >>> 24)
