-- ===== src/Gte/Registers.antt =====
-- gte.c: reading and writing the registers. Values are the bit patterns of `int32_t`.
use zonistation_one.Gte.Ctl
use zonistation_one.Gte.Reg
use zonistation_one.Base.{
  ltb, leb, ◌==◌, if◌then◌else◌, u16, not32, ◌<<<◌, ◌>>>◌, set_bit, sign_extend16, ℕ, ◌+◌, ◌%◌, ◌^◌,
  Bool, ◌||◌,
}
use zonistation_one.Base.Int.{ℤ, pos_part, ltb_ℤ, shift_right, pos}
use zonistation_one.Gte.Divide.{leading_zeros}
use zonistation_one.Gte.State.{Gte, set_data, set_control, has_error, ir}

-- `(int32_t)(int16_t)x` and `(int32_t)(uint16_t)x`.
abbrev pub sign16 : ℕ → ℕ
sign16 x = sign_extend16 (u16 x)

-- A colour of IRGB from an IR register: `ir >> 7`, from 0 to 31.
abbrev pub irgb_part : ℤ → ℕ
irgb_part v =
    let c = shift_right v 7 in
    if ltb_ℤ c (pos 0) then 0 else if ltb_ℤ (pos 31) c then 31 else pos_part c

-- V0Z, V1Z, V2Z and IR0 to IR3; OTZ and SZ0 to SZ3.
abbrev pub reads_signed16 : ℕ → Bool
reads_signed16 r = r == 1 || r == 3 || r == 5 || r == 8 || r == 9 || r == 10 || r == 11

abbrev pub reads_unsigned16 : ℕ → Bool
reads_unsigned16 r = r == 7 || r == 16 || r == 17 || r == 18 || r == 19

unfoldable pub gte_read_data_register : Gte → ℕ → ℕ
gte_read_data_register gte r =
    if leb 32 r
    then 0
    else if reads_signed16 r
    then sign16 (gte.data_reg r)
    else if reads_unsigned16 r
    then u16 (gte.data_reg r)
    else if r == 15
    then gte.data_reg Reg.sxy2
    else if r == 28 || r == 29
    then irgb_part (ir gte 1) + irgb_part (ir gte 2) <<< 5 + irgb_part (ir gte 3) <<< 10
    else gte.data_reg r

-- `(int32_t)val >= 0 ? val : ~val`, whose leading zeros are counted.
unfoldable pub count_leading_bits : ℕ → ℕ
count_leading_bits val =
    let bits = if ltb val (2 ^ 31) then val else not32 val in
    if bits == 0 then 32 else leading_zeros 32 bits

unfoldable pub write_irgb : Gte → ℕ → Gte
write_irgb gte value =
    let gte1 = set_data gte 9 (sign16 ((value % 2 ^ 5) <<< 7)) in
    let gte2 = set_data gte1 10 (sign16 (((value >>> 5) % 2 ^ 5) <<< 7)) in
    let gte3 = set_data gte2 11 (sign16 (((value >>> 10) % 2 ^ 5) <<< 7)) in set_data gte3 28 value

unfoldable pub gte_write_data_register : Gte → ℕ → ℕ → Gte
gte_write_data_register gte r value =
    if leb 32 r
    then gte
    else if r == 15
    then (let gte1 = set_data gte Reg.sxy0 (gte.data_reg Reg.sxy1) in
        let gte2 = set_data gte1 Reg.sxy1 (gte1.data_reg Reg.sxy2) in set_data gte2 Reg.sxy2 value)
    else if r == 28
    then write_irgb gte value
    else if r == 29
    then gte
    else if r == 30
    then set_data (set_data gte 30 value) Reg.lzcr (count_leading_bits value)
    else if r == 31
    then gte
    else set_data gte r value

unfoldable pub gte_read_control_register : Gte → ℕ → ℕ
gte_read_control_register gte r = if leb 32 r then 0 else gte.control r

-- RT33, L33, LB3, H, DQA, ZSF3 and ZSF4.
abbrev pub writes_signed16 : ℕ → Bool
writes_signed16 r = r == 4 || r == 12 || r == 20 || r == 26 || r == 27 || r == 29 || r == 30

-- `value & 0x7ffff000`, with the error bit.
abbrev pub written_flag : ℕ → ℕ
written_flag value =
    let f = ((value % 2 ^ 31) >>> 12) <<< 12 in if has_error f then set_bit f 31 else f

unfoldable pub gte_write_control_register : Gte → ℕ → ℕ → Gte
gte_write_control_register gte r value =
    if leb 32 r
    then gte
    else if writes_signed16 r
    then set_control gte r (sign16 value)
    else if r == 31
    then set_control gte Ctl.flag (written_flag value)
    else set_control gte r value
