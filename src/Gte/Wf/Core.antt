-- ===== src/Gte/Wf/Core.antt =====
-- The invariant of the registers inside a command, over the helpers of gte_internal.h.
use zonistation_one.Gte.Ctl
use zonistation_one.Gte.Reg
use zonistation_one.Base.{
  leb, ◌==◌, if◌then◌else◌, ℕ, ◌+◌, ◌-◌, ◌*◌, ◌^◌, ◌≤◌, ◌<◌, Bool, true, false, arith,
}
use zonistation_one.Base.Int.{ℤ, ltb_ℤ, to_word, shift_right, pos, negsuc}
use zonistation_one.Base.Map.{update}
use zonistation_one.Gte.Divide.{unr_quotient, gte_unr_divide}
use zonistation_one.Gte.Saturate.{
  saturate, mac_limit, negative_flag, positive_flag, check_mac_overflow, truncate_and_set_mac,
  ir_min, truncate_and_set_ir, gte_clamp_ir_nolm, truncate_rgb, push_rgb_from_mac, push_sz,
  outside_screen, clamp_screen, screen_flag, push_sxy,
}
use zonistation_one.Gte.State.{Gte, set_data, set_control, set_flag, reset_flag}
use zonistation_one.Gte.Wf.Flag.{
  FlagIsMid, FlagIsWf, FlagIsWf-FlagIsMid, zero-FlagIsMid, set_bit-FlagIsMid, error_pair-FlagIsMid,
}

-- Every register is a 32-bit word, and FLAG is as a command may leave it.
pub record GteIsMid (gte : Gte) : Type 0 where
  pub data_words : (r : ℕ) → gte.data_reg r < 2 ^ 32
  pub control_words : (r : ℕ) → gte.control r < 2 ^ 32
  pub flag : FlagIsMid (gte.control Ctl.flag)

-- Between commands.
pub record GteIsWf (gte : Gte) : Type 0 where
  pub data_words : (r : ℕ) → gte.data_reg r < 2 ^ 32
  pub control_words : (r : ℕ) → gte.control r < 2 ^ 32
  pub flag : FlagIsWf (gte.control Ctl.flag)

pub GteIsWf-GteIsMid : {gte : Gte} → GteIsWf gte → GteIsMid gte
GteIsWf-GteIsMid w = record {
  data_words = w.data_words;
  control_words = w.control_words;
  flag = FlagIsWf-FlagIsMid w.flag;
}

pub to_word32-lt : (v : ℤ) → to_word 32 v < 2 ^ 32
to_word32-lt (pos n) = omega arith
to_word32-lt (negsuc n) = omega arith

pub to_word16-lt : (v : ℤ) → to_word 16 v < 2 ^ 16
to_word16-lt (pos n) = omega arith
to_word16-lt (negsuc n) = omega arith

update-words :
    (f : ℕ → ℕ) (k v : ℕ)
    → ((r : ℕ) → f r < 2 ^ 32)
    → v < 2 ^ 32
    → (r : ℕ) → update f k v r < 2 ^ 32
update-words f k v w h r = ground (arith, w r)

pub set_data-GteIsMid :
    {gte : Gte} (r v : ℕ) → v < 2 ^ 32 → GteIsMid gte → GteIsMid (set_data gte r v)
set_data-GteIsMid {gte} r v h w = record {
  data_words = update-words gte.data_reg r v w.data_words h;
  control_words = w.control_words;
  flag = w.flag;
}

pub with_flag-GteIsMid :
    {gte : Gte} (f : ℕ) → FlagIsMid f → GteIsMid gte → GteIsMid (set_control gte Ctl.flag f)
with_flag-GteIsMid {gte} f h w = record {
  data_words = w.data_words;
  control_words = update-words gte.control Ctl.flag f w.control_words h.word;
  flag = h;
}

pub reset_flag-GteIsMid : {gte : Gte} → GteIsMid gte → GteIsMid (reset_flag gte)
unfolding reset_flag
reset_flag-GteIsMid w = with_flag-GteIsMid 0 zero-FlagIsMid w

pub set_flag-GteIsMid :
    {gte : Gte} (k : ℕ) → 12 ≤ k → k < 31 → GteIsMid gte → GteIsMid (set_flag gte k)
unfolding set_flag
set_flag-GteIsMid k lo hi w = with_flag-GteIsMid _ (set_bit-FlagIsMid k lo hi w.flag) w

-- A flag and the error flag.
pub error_flags-GteIsMid :
    {gte : Gte} (j : ℕ) → j < 6 → GteIsMid gte → GteIsMid (set_flag (set_flag gte (13 + j)) 31)
unfolding set_flag
error_flags-GteIsMid {gte} j h w =
    with_flag-GteIsMid _ (error_pair-FlagIsMid j h w.flag)
      (with_flag-GteIsMid _ (set_bit-FlagIsMid (13 + j) (omega arith) (omega arith) w.flag) w)

pub if-GteIsMid : (b : Bool) {x y : Gte} → GteIsMid x → GteIsMid y → GteIsMid (if b then x else y)
if-GteIsMid true p q = p
if-GteIsMid false p q = q

-- The registers that come with a value.
pub record Keeps {A : Type 0} (r : A × Gte) : Type 0 where
  pub registers : GteIsMid r.1

if-Keeps : {A : Type 0} (b : Bool) {x y : A × Gte} → Keeps x → Keeps y → Keeps (if b then x else y)
if-Keeps true p q = p
if-Keeps false p q = q

pub saturate-GteIsMid :
    {gte : Gte} (k : ℕ) (low high v : ℤ)
    → 12 ≤ k
    → k < 31
    → GteIsMid gte
    → GteIsMid (saturate gte k low high v).1
unfolding saturate
saturate-GteIsMid {gte} k low high v lo hi w =
    let set = set_flag-GteIsMid k lo hi w in
    (if-Keeps (ltb_ℤ v low) {x = (low, set_flag gte k)} (record { registers = set })
      (if-Keeps (ltb_ℤ high v) {x = (high, set_flag gte k)} {y = (v, gte)}
        (record { registers = set }) (record { registers = w }))).registers

pub check_mac_overflow-GteIsMid :
    {gte : Gte} (index : ℕ) (v : ℤ)
    → index < 4
    → GteIsMid gte
    → GteIsMid (check_mac_overflow gte index v)
unfolding check_mac_overflow
check_mac_overflow-GteIsMid {gte} index v h w =
    if-GteIsMid (ltb_ℤ v (negsuc (mac_limit index - 1)))
      (set_flag-GteIsMid (negative_flag index) (ground arith) (ground arith) w)
      (if-GteIsMid (ltb_ℤ (pos (mac_limit index - 1)) v)
        (set_flag-GteIsMid (positive_flag index) (ground arith) (ground arith) w) w)

pub truncate_and_set_mac-GteIsMid :
    {gte : Gte} (index : ℕ) (v : ℤ) (shift : ℕ)
    → index < 4
    → GteIsMid gte
    → GteIsMid (truncate_and_set_mac gte index v shift)
unfolding truncate_and_set_mac
truncate_and_set_mac-GteIsMid index v shift h w =
    set_data-GteIsMid (Reg.mac0 + index) _ (to_word32-lt (shift_right v shift))
      (check_mac_overflow-GteIsMid index v h w)

pub truncate_and_set_ir-GteIsMid :
    {gte : Gte} (index : ℕ) (v : ℤ) (lm : Bool)
    → index < 4
    → GteIsMid gte
    → GteIsMid (truncate_and_set_ir gte index v lm)
unfolding truncate_and_set_ir
truncate_and_set_ir-GteIsMid {gte} index v lm h w =
    if-GteIsMid (index == 0)
      (set_data-GteIsMid Reg.ir0 _ (to_word32-lt _)
        (saturate-GteIsMid 12 (pos 0) (pos 0x1000) v (omega arith) (omega arith) w))
      (set_data-GteIsMid (Reg.ir0 + index) _ (to_word32-lt _) (
        saturate-GteIsMid (24 - (index - 1)) (ir_min lm) (pos 32767) v (omega arith) (omega arith)
          w))

pub gte_clamp_ir_nolm-GteIsMid :
    {gte : Gte} (index : ℕ) (v : ℤ)
    → index < 4
    → GteIsMid gte
    → GteIsMid (gte_clamp_ir_nolm gte index v).1
unfolding gte_clamp_ir_nolm
gte_clamp_ir_nolm-GteIsMid index v h w =
    saturate-GteIsMid (24 - (index - 1)) (negsuc 32767) (pos 32767) v (omega arith) (omega arith) w

truncate_rgb-GteIsMid :
    {gte : Gte} (index : ℕ) (v : ℤ)
    → index < 4
    → GteIsMid gte
    → GteIsMid (truncate_rgb gte index v).1
unfolding truncate_rgb
truncate_rgb-GteIsMid index v h w =
    saturate-GteIsMid (22 - index) (pos 0) (pos 0xFF) _ (omega arith) (omega arith) w

pub push_rgb_from_mac-GteIsMid : {gte : Gte} → GteIsMid gte → GteIsMid (push_rgb_from_mac gte)
unfolding push_rgb_from_mac
push_rgb_from_mac-GteIsMid w =
    let b =
      truncate_rgb-GteIsMid 3 _ (omega arith)
        (truncate_rgb-GteIsMid 2 _ (omega arith) (truncate_rgb-GteIsMid 1 _ (omega arith) w)) in
    let first = set_data-GteIsMid Reg.rgb0 _ (b.data_words Reg.rgb1) b in
    set_data-GteIsMid Reg.rgb2 _ (omega arith)
      (set_data-GteIsMid Reg.rgb1 _ (first.data_words Reg.rgb2) first)

pub push_sz-GteIsMid : {gte : Gte} (v : ℤ) → GteIsMid gte → GteIsMid (push_sz gte v)
unfolding push_sz
push_sz-GteIsMid v w =
    let s = saturate-GteIsMid 18 (pos 0) (pos 0xFFFF) v (omega arith) (omega arith) w in
    let s0 = set_data-GteIsMid Reg.sz0 _ (s.data_words Reg.sz1) s in
    let s1 = set_data-GteIsMid Reg.sz1 _ (s0.data_words Reg.sz2) s0 in
    let s2 = set_data-GteIsMid Reg.sz2 _ (s1.data_words Reg.sz3) s1 in
    set_data-GteIsMid Reg.sz3 _ (to_word32-lt _) s2

screen_flag-GteIsMid :
    {gte : Gte} (j : ℕ) (v : ℤ) → j < 6 → GteIsMid gte → GteIsMid (screen_flag gte (13 + j) v)
screen_flag-GteIsMid j v h w = if-GteIsMid (outside_screen v) (error_flags-GteIsMid j h w) w

pub push_sxy-GteIsMid : {gte : Gte} (x y : ℤ) → GteIsMid gte → GteIsMid (push_sxy gte x y)
unfolding push_sxy
push_sxy-GteIsMid x y w =
    let f = screen_flag-GteIsMid 0 y (omega arith) (screen_flag-GteIsMid 1 x (omega arith) w) in
    let s0 = set_data-GteIsMid Reg.sxy0 _ (f.data_words Reg.sxy1) f in
    let s1 = set_data-GteIsMid Reg.sxy1 _ (s0.data_words Reg.sxy2) s0 in
    set_data-GteIsMid Reg.sxy2 _
      (omega (arith, to_word16-lt (clamp_screen x), to_word16-lt (clamp_screen y))) s1

pub gte_unr_divide-GteIsMid :
    {gte : Gte} (lhs rhs : ℕ) → GteIsMid gte → GteIsMid (gte_unr_divide gte lhs rhs).1
unfolding gte_unr_divide
gte_unr_divide-GteIsMid {gte} lhs rhs w =
    (if-Keeps (leb (rhs * 2) lhs) {x = (0x1_FFFF, set_flag (set_flag gte 17) 31)}
      {y = (unr_quotient lhs rhs, gte)}
      (record { registers = error_flags-GteIsMid 4 (omega arith) w })
      (record { registers = w })).registers
