-- ===== src/Gte/Saturate.antt =====
-- gte_internal.h: overflow checks, and the registers that saturate.
use zonistation_one.Gte.Reg
use zonistation_one.Base.{
  ltb, ◌==◌, if◌then◌else◌, u8, u32, ◌<<<◌, ◌>>>◌, ℕ, ◌+◌, ◌-◌, ◌^◌, Bool, ◌||◌,
}
use zonistation_one.Base.Int.{ℤ, ltb_ℤ, signed32, to_word, shift_right, pos, negsuc}
use zonistation_one.Gte.State.{Gte, set_data, cast_int16, set_flag}

-- A value brought into `low` to `high`, and the flag that says it was outside.
unfoldable pub saturate : Gte → ℕ → ℤ → ℤ → ℤ → ℤ × Gte
saturate gte flag low high value =
    if ltb_ℤ value low
    then (low, set_flag gte flag)
    else if ltb_ℤ high value
    then (high, set_flag gte flag)
    else (value, gte)

-- Bit 43 is the sign.
unfoldable pub sign_extend_44 : ℤ → ℤ
sign_extend_44 v = let p = to_word 44 v in if ltb p (2 ^ 43) then pos p else negsuc (2 ^ 44 - 1 - p)

abbrev pub mac_limit : ℕ → ℕ
mac_limit index = if index == 0 then 2 ^ 31 else 2 ^ 43

abbrev pub negative_flag : ℕ → ℕ
negative_flag index = if index == 0 then 15 else 28 - index

abbrev pub positive_flag : ℕ → ℕ
positive_flag index = if index == 0 then 16 else 31 - index

-- `index` is 0 to 3.
unfoldable pub check_mac_overflow : Gte → ℕ → ℤ → Gte
check_mac_overflow gte index value =
    if ltb_ℤ value (negsuc (mac_limit index - 1))
    then set_flag gte (negative_flag index)
    else if ltb_ℤ (pos (mac_limit index - 1)) value
    then set_flag gte (positive_flag index)
    else gte

unfoldable pub truncate_and_set_mac : Gte → ℕ → ℤ → ℕ → Gte
truncate_and_set_mac gte index value shift =
    set_data (check_mac_overflow gte index value) (Reg.mac0 + index)
      (to_word 32 (shift_right value shift))

-- `lm ? 0 : -32768`.
abbrev pub ir_min : Bool → ℤ
ir_min lm = if lm then pos 0 else negsuc 32767

unfoldable pub truncate_and_set_ir : Gte → ℕ → ℤ → Bool → Gte
truncate_and_set_ir gte index value lm =
    if index == 0
    then (let (v, after) = saturate gte 12 (pos 0) (pos 0x1000) value in
        set_data after Reg.ir0 (to_word 32 (cast_int16 v)))
    else (let (v, after) = saturate gte (24 - (index - 1)) (ir_min lm) (pos 32767) value in
        set_data after (Reg.ir0 + index) (to_word 32 (cast_int16 v)))

unfoldable pub gte_clamp_ir_nolm : Gte → ℕ → ℤ → ℤ × Gte
gte_clamp_ir_nolm gte index value = saturate gte (24 - (index - 1)) (negsuc 32767) (pos 32767) value

unfoldable pub truncate_rgb : Gte → ℕ → ℤ → ℤ × Gte
truncate_rgb gte index value = saturate gte (22 - index) (pos 0) (pos 0xFF) (shift_right value 4)

-- The value of MAC1 to MAC3.
abbrev pub mac : Gte → ℕ → ℤ
mac gte index = signed32 (gte.data_reg (Reg.mac0 + index))

-- The three colours and the CODE byte of RGBC enter the FIFO.
unfoldable pub push_rgb_from_mac : Gte → Gte
push_rgb_from_mac gte =
    let (r, gte1) = truncate_rgb gte 1 (mac gte 1) in
    let (g, gte2) = truncate_rgb gte1 2 (mac gte1 2) in
    let (b, gte3) = truncate_rgb gte2 3 (mac gte2 3) in
    let code = u8 (gte3.data_reg Reg.rgbc >>> 24) in
    let gte4 = set_data gte3 Reg.rgb0 (gte3.data_reg Reg.rgb1) in
    let gte5 = set_data gte4 Reg.rgb1 (gte4.data_reg Reg.rgb2) in
    set_data gte5 Reg.rgb2
      (u32 (to_word 32 r + to_word 32 g <<< 8 + to_word 32 b <<< 16 + code <<< 24))

unfoldable pub push_sz : Gte → ℤ → Gte
push_sz gte value =
    let (v, gte1) = saturate gte 18 (pos 0) (pos 0xFFFF) value in
    let gte2 = set_data gte1 Reg.sz0 (gte1.data_reg Reg.sz1) in
    let gte3 = set_data gte2 Reg.sz1 (gte2.data_reg Reg.sz2) in
    let gte4 = set_data gte3 Reg.sz2 (gte3.data_reg Reg.sz3) in set_data gte4 Reg.sz3 (to_word 32 v)

abbrev pub outside_screen : ℤ → Bool
outside_screen v = ltb_ℤ v (negsuc 1023) || ltb_ℤ (pos 1023) v

abbrev pub clamp_screen : ℤ → ℤ
clamp_screen v =
    if ltb_ℤ v (negsuc 1023) then negsuc 1023 else if ltb_ℤ (pos 1023) v then pos 1023 else v

-- A flag of its own and the error flag.
abbrev pub screen_flag : Gte → ℕ → ℤ → Gte
screen_flag gte k v = if outside_screen v then set_flag (set_flag gte k) 31 else gte

unfoldable pub push_sxy : Gte → ℤ → ℤ → Gte
push_sxy gte x y =
    let gte1 = screen_flag (screen_flag gte 14 x) 13 y in
    let gte2 = set_data gte1 Reg.sxy0 (gte1.data_reg Reg.sxy1) in
    let gte3 = set_data gte2 Reg.sxy1 (gte2.data_reg Reg.sxy2) in
    set_data gte3 Reg.sxy2 (to_word 16 (clamp_screen x) + to_word 16 (clamp_screen y) <<< 16)
