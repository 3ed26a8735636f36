-- ===== src/Gte/State.antt =====
-- gte.h and gte_internal.h: the registers of the geometry coprocessor and how the code reads them.
-- `data_reg` (`data` in the source) and `control` hold `int32_t` values as bit patterns. The `int64_t` sums of the commands
-- stay far below 2^63, so they are integers here.
use zonistation_one.Gte.Ctl
use zonistation_one.Gte.Reg
use zonistation_one.Base.{
  ltb, ◌==◌, ◌!=◌, if◌then◌else◌, u16, ◌>>>◌, bit, set_bit, ℕ, ◌+◌, ◌-◌, ◌*◌, ◌/◌, ◌%◌, ◌^◌, Bool,
  ◌||◌,
}
use zonistation_one.Base.Int.{ℤ, ◌+ℤ◌, ◌*ℤ◌, signed32, to_word, pos, negsuc}
use zonistation_one.Base.Map.{update}

pub record Gte : Type 0 where
  pub data_reg : ℕ → ℕ
  pub control : ℕ → ℕ

abbrev pub set_data : Gte → ℕ → ℕ → Gte
set_data gte r v = record gte { data_reg = update gte.data_reg r v }

abbrev pub set_control : Gte → ℕ → ℕ → Gte
set_control gte r v = record gte { control = update gte.control r v }

-- `(int16_t)x` and `(int16_t)(x >> 16)` of an `int32_t`.
abbrev pub int16 : ℕ → ℤ
int16 x = if ltb (u16 x) 0x8000 then pos (u16 x) else negsuc (0xFFFF - u16 x)

abbrev pub high16 : ℕ → ℤ
high16 x = int16 (x >>> 16)

-- `(int32_t)` and `(int16_t)` of a wider integer.
abbrev pub cast_int32 : ℤ → ℤ
cast_int32 v = signed32 (to_word 32 v)

abbrev pub cast_int16 : ℤ → ℤ
cast_int16 v = int16 (to_word 16 v)

abbrev pub shift_left : ℤ → ℕ → ℤ
shift_left v k = v *ℤ pos (2 ^ k)

unfoldable pub gte_init : Gte → Gte
gte_init gte = record { data_reg = λ r. 0; control = λ r. 0 }

unfoldable pub set_flag : Gte → ℕ → Gte
set_flag gte k = set_control gte Ctl.flag (set_bit (gte.control Ctl.flag) k)

-- `gte->control[GTE_CTL_FLAG] = 0`, with which every command starts.
unfoldable pub reset_flag : Gte → Gte
reset_flag gte = set_control gte Ctl.flag 0

-- `f & 0x7f87e000`: bits 30 to 23 and 18 to 13.
abbrev pub has_error : ℕ → Bool
has_error f = (f >>> 23) % 2 ^ 8 != 0 || (f >>> 13) % 2 ^ 6 != 0

unfoldable pub gte_update_error_flag : Gte → Gte
gte_update_error_flag gte =
    let f = gte.control Ctl.flag in
    set_control gte Ctl.flag (if has_error f then set_bit f 31 else f)

-- The bits of a command: `sf` shifts by 12, `lm` keeps IR1 to IR3 from going below 0.
abbrev pub shift_of : ℕ → ℕ
shift_of instruction = if bit instruction 19 then 12 else 0

abbrev pub lm_of : ℕ → Bool
lm_of instruction = bit instruction 10

-- A vector of three 16-bit numbers from VxXY and VxZ, and IR1 to IR3 as one.
unfoldable pub vector : Gte → ℕ → ℕ → ℤ
vector gte index i =
    if i == 0
    then int16 (gte.data_reg (index * 2))
    else if i == 1
    then high16 (gte.data_reg (index * 2))
    else int16 (gte.data_reg (index * 2 + 1))

abbrev pub ir : Gte → ℕ → ℤ
ir gte index = int16 (gte.data_reg (Reg.ir0 + index))

abbrev pub ir_vector : Gte → ℕ → ℤ
ir_vector gte i = ir gte (i + 1)

-- The nine numbers of a matrix, two to a register from `base` on.
unfoldable pub matrix : Gte → ℕ → ℕ → ℤ
matrix gte base i =
    if i % 2 == 0 then int16 (gte.control (base + i / 2)) else high16 (gte.control (base + i / 2))

-- Three `int32_t` from `base` on: TR, BK or FC.
abbrev pub triple : Gte → ℕ → ℕ → ℤ
triple gte base i = signed32 (gte.control (base + i))

-- Row `r` of `m` times `v`.
unfoldable pub row_dot : (ℕ → ℤ) → (ℕ → ℤ) → ℕ → ℤ
row_dot m v r = m (3 * r) *ℤ v 0 +ℤ m (3 * r + 1) *ℤ v 1 +ℤ m (3 * r + 2) *ℤ v 2
