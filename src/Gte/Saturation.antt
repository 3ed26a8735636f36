-- ===== src/Gte/Saturation.antt =====
-- What saturation stores, over the helpers of gte_internal.h that push a colour, a depth or a point.
use zonistation_one.Gte.Reg
use mathlib.Core.Path.{subst}
use zonistation_one.Base.{
  ◌==◌, if◌then◌else◌, if-false, if-same, u8, u32, ◌<<<◌, ◌>>>◌, ℕ, ◌+◌, ◌-◌, min, ◌≡◌, refl, sym,
  ap, ◌∙◌, ◌≢◌, Bool, true, false, arith,
}
use zonistation_one.Base.Int.{ℤ, pos_part, ltb_ℤ, shift_right, pos, signed32, to_word, ◌≤ℤ◌, negsuc}
use zonistation_one.Base.Map.{update_self}
use zonistation_one.Gte.Saturate.{
  saturate, truncate_rgb, mac, push_rgb_from_mac, push_sz, clamp_screen, ir_min,
  truncate_and_set_ir, outside_screen, screen_flag, push_sxy,
}
use zonistation_one.Gte.State.{Gte, set_flag, int16, high16, cast_int16, ir}

-- The flag does not change the data registers.
saturate-data_reg :
    (gte : Gte) (k : ℕ) (low high v : ℤ) → (saturate gte k low high v).1.data_reg ≡ gte.data_reg
unfolding saturate set_flag
saturate-data_reg gte k low high v =
    let f = λ (r : ℤ × Gte). r.1.data_reg in
    if-same f (ltb_ℤ v low) refl (if-same f (ltb_ℤ high v) refl refl)

-- From 0 to `n`, what is stored is `min` of the positive part.
saturate_positive :
    (gte : Gte) (k n : ℕ) (v : ℤ) → (saturate gte k (pos 0) (pos n) v).0 ≡ pos (min n (pos_part v))
unfolding saturate
saturate_positive gte k n v = ground arith

-- A colour as RGB2 takes it from a MAC.
abbrev pub colour_of : ℤ → ℕ
colour_of v = min 255 (pos_part (shift_right v 4))

truncate_rgb-value :
    (gte : Gte) (index : ℕ) (v : ℤ) → (truncate_rgb gte index v).0 ≡ pos (colour_of v)
unfolding truncate_rgb
truncate_rgb-value gte index v = saturate_positive gte (22 - index) 255 (shift_right v 4)

truncate_rgb-data_reg :
    (gte : Gte) (index : ℕ) (v : ℤ) → (truncate_rgb gte index v).1.data_reg ≡ gte.data_reg
unfolding truncate_rgb
truncate_rgb-data_reg gte index v = saturate-data_reg gte (22 - index) (pos 0) (pos 0xFF) _

-- Four bytes side by side.
packed :
    {r g b : ℤ} {c y : ℕ} (v w x : ℕ)
    → r ≡ pos (min 255 v)
    → g ≡ pos (min 255 w)
    → b ≡ pos (min 255 x)
    → c ≡ y
    → u32 (to_word 32 r + to_word 32 g <<< 8 + to_word 32 b <<< 16 + u8 c <<< 24)
      ≡ min 255 v + min 255 w <<< 8 + min 255 x <<< 16 + u8 y <<< 24
packed v w x er eg eb ec = rw er (rw eg (rw eb (rw ec (omega arith))))

-- Pushing a colour moves the FIFO on by one, and RGB2 holds the three MACs / 16, each brought into
-- 0 to 255, below the CODE byte of RGBC.
pub push_rgb_from_mac_lem :
    (gte : Gte)
    → (push_rgb_from_mac gte).data_reg Reg.rgb0 ≡ gte.data_reg Reg.rgb1
      × (push_rgb_from_mac gte).data_reg Reg.rgb1 ≡ gte.data_reg Reg.rgb2
      × (push_rgb_from_mac gte).data_reg Reg.rgb2
        ≡ colour_of (mac gte 1)
          + colour_of (mac gte 2) <<< 8
          + colour_of (mac gte 3) <<< 16
          + u8 (gte.data_reg Reg.rgbc >>> 24) <<< 24
unfolding push_rgb_from_mac
push_rgb_from_mac_lem gte =
    let g1 = (truncate_rgb gte 1 (mac gte 1)).1 in
    let e1 : g1.data_reg ≡ gte.data_reg = truncate_rgb-data_reg gte 1 (mac gte 1) in
    let g2 = (truncate_rgb g1 2 (mac g1 2)).1 in
    let e2 : g2.data_reg ≡ gte.data_reg = truncate_rgb-data_reg g1 2 (mac g1 2) ∙ e1 in
    let e3 : (truncate_rgb g2 3 (mac g2 3)).1.data_reg ≡ gte.data_reg =
      truncate_rgb-data_reg g2 3 (mac g2 3) ∙ e2 in
    let m2 : mac g1 2 ≡ mac gte 2 = ap (λ (d : ℕ → ℕ). signed32 (d 26)) e1 in
    let m3 : mac g2 3 ≡ mac gte 3 = ap (λ (d : ℕ → ℕ). signed32 (d 27)) e2 in
    (
      ap (λ (d : ℕ → ℕ). d Reg.rgb1) e3,
      ap (λ (d : ℕ → ℕ). d Reg.rgb2) e3,
      packed (pos_part (shift_right (mac gte 1) 4)) (pos_part (shift_right (mac gte 2) 4))
          (pos_part (shift_right (mac gte 3) 4)) (truncate_rgb-value gte 1 (mac gte 1))
          (truncate_rgb-value g1 2 (mac g1 2) ∙ ap (λ v. pos (colour_of v)) m2)
          (truncate_rgb-value g2 3 (mac g2 3) ∙ ap (λ v. pos (colour_of v)) m3)
          (ap (λ (d : ℕ → ℕ). d Reg.rgbc >>> 24) e3),
    )

-- Pushing a depth moves the FIFO of four on by one; SZ3 is the depth brought into 0 to 65535.
pub push_sz_lem :
    (gte : Gte) (v : ℤ)
    → (push_sz gte v).data_reg Reg.sz0 ≡ gte.data_reg Reg.sz1
      × (push_sz gte v).data_reg Reg.sz1 ≡ gte.data_reg Reg.sz2
      × (push_sz gte v).data_reg Reg.sz2 ≡ gte.data_reg Reg.sz3
      × (push_sz gte v).data_reg Reg.sz3 ≡ min 0xFFFF (pos_part v)
unfolding push_sz
push_sz_lem gte v =
    let e = saturate-data_reg gte 18 (pos 0) (pos 0xFFFF) v in
    (
      ap (λ (d : ℕ → ℕ). d Reg.sz1) e,
      ap (λ (d : ℕ → ℕ). d Reg.sz2) e,
      ap (λ (d : ℕ → ℕ). d Reg.sz3) e,
      rw (saturate_positive gte 18 0xFFFF v) (omega arith),
    )

-- A coordinate brought into -1024 to 1023, in 16 bits.
screen-low : (x y : ℤ) → int16 (to_word 16 (clamp_screen x) + to_word 16 y <<< 16) ≡ clamp_screen x
screen-low x y = ground arith

screen-high :
    (x y : ℤ)
    → high16 (to_word 16 (clamp_screen x) + to_word 16 (clamp_screen y) <<< 16) ≡ clamp_screen y
screen-high x y = ground arith

clamp_screen-le : (x : ℤ) → negsuc 1023 ≤ℤ clamp_screen x × clamp_screen x ≤ℤ pos 1023
clamp_screen-le x = ground arith

screen_flag-data_reg : (gte : Gte) (k : ℕ) (v : ℤ) → (screen_flag gte k v).data_reg ≡ gte.data_reg
unfolding set_flag
screen_flag-data_reg gte k v = if-same (λ (g : Gte). g.data_reg) (outside_screen v) refl refl

-- A coordinate of the screen: from -1024 to 1023, the one pushed if that is in range, and the end
-- of the range that it passed if not.
pub record IsOnScreen (pushed stored : ℤ) : Type 0 where
  pub lower : negsuc 1023 ≤ℤ stored
  pub upper : stored ≤ℤ pos 1023
  pub below : pushed ≤ℤ negsuc 1023 → stored ≡ negsuc 1023
  pub above : pos 1023 ≤ℤ pushed → stored ≡ pos 1023
  pub inside : negsuc 1023 ≤ℤ pushed → pushed ≤ℤ pos 1023 → stored ≡ pushed

clamp_screen-IsOnScreen : (v : ℤ) → IsOnScreen v (clamp_screen v)
clamp_screen-IsOnScreen v = record {
  lower = (clamp_screen-le v).0;
  upper = (clamp_screen-le v).1;
  below = λ h. ground arith;
  above = λ h. ground arith;
  inside = λ lo hi. ground arith;
}

-- Pushing a point moves the FIFO of three on by one; both halves of SXY2 lie on the screen: a
-- coordinate that does so already is stored as it is, and another as the nearest end, -1024 or 1023.
pub push_sxy_lem :
    (gte : Gte) (x y : ℤ)
    → (push_sxy gte x y).data_reg Reg.sxy0 ≡ gte.data_reg Reg.sxy1
      × (push_sxy gte x y).data_reg Reg.sxy1 ≡ gte.data_reg Reg.sxy2
      × IsOnScreen x (int16 ((push_sxy gte x y).data_reg Reg.sxy2))
      × IsOnScreen y (high16 ((push_sxy gte x y).data_reg Reg.sxy2))
unfolding push_sxy
push_sxy_lem gte x y =
    let e = screen_flag-data_reg (screen_flag gte 14 x) 13 y ∙ screen_flag-data_reg gte 14 x in
    (
      ap (λ (d : ℕ → ℕ). d Reg.sxy1) e,
      ap (λ (d : ℕ → ℕ). d Reg.sxy2) e,
      subst (IsOnScreen x) (sym (screen-low x (clamp_screen y))) (clamp_screen-IsOnScreen x),
      subst (IsOnScreen y) (sym (screen-high x y)) (clamp_screen-IsOnScreen y),
    )

abbrev pub ir_low : Bool → ℤ
ir_low true = pos 0
ir_low false = negsuc 32767

-- An IR register as `int16_t`: from 0 or -32768 to 32767, the value itself if that is in range, and
-- the end of the range that it passed if not.
pub record IsSaturated (lm : Bool) (v stored : ℤ) : Type 0 where
  pub lower : ir_low lm ≤ℤ stored
  pub upper : stored ≤ℤ pos 32767
  pub below : v ≤ℤ ir_low lm → stored ≡ ir_low lm
  pub above : pos 32767 ≤ℤ v → stored ≡ pos 32767
  pub inside : ir_low lm ≤ℤ v → v ≤ℤ pos 32767 → stored ≡ v

clamped : Bool → ℤ → ℤ
clamped lm v =
    if ltb_ℤ v (ir_min lm) then ir_min lm else if ltb_ℤ (pos 32767) v then pos 32767 else v

stored_ir : (lm : Bool) (v : ℤ) → int16 (to_word 32 (cast_int16 (clamped lm v))) ≡ clamped lm v
unfolding clamped
stored_ir true v = ground arith
stored_ir false v = ground arith

clamped-IsSaturated : (lm : Bool) (v : ℤ) → IsSaturated lm v (clamped lm v)
unfolding clamped
clamped-IsSaturated true v = record {
  lower = ground arith;
  upper = ground arith;
  below = λ h. ground arith;
  above = λ h. ground arith;
  inside = λ lo hi. ground arith;
}
clamped-IsSaturated false v = record {
  lower = ground arith;
  upper = ground arith;
  below = λ h. ground arith;
  above = λ h. ground arith;
  inside = λ lo hi. ground arith;
}

saturate-value :
    (gte : Gte) (k : ℕ) (lm : Bool) (v : ℤ)
    → (saturate gte k (ir_min lm) (pos 32767) v).0 ≡ clamped lm v
unfolding saturate clamped
saturate-value gte k lm v =
    if_value (ltb_ℤ v (ir_min lm)) (ir_min lm, set_flag gte k) _ refl
      (if_value (ltb_ℤ (pos 32767) v) (pos 32767, set_flag gte k) (v, gte) refl refl)
  where
    if_value :
        (b : Bool) (r s : ℤ × Gte) {x y : ℤ}
        → r.0 ≡ x
        → s.0 ≡ y
        → (if b then r else s).0 ≡ (if b then x else y)
    if_value true r s p q = p
    if_value false r s p q = q

-- Setting IR1, IR2 or IR3 saturates: with `lm` from 0, otherwise from -32768, to 32767. A value in
-- that range is stored as it is, a smaller one as the low end, a larger one as the high end.
pub truncate_and_set_ir-IsSaturated :
    (gte : Gte) (index : ℕ) (v : ℤ) (lm : Bool)
    → index ≢ 0
    → IsSaturated lm v (ir (truncate_and_set_ir gte index v lm) index)
unfolding truncate_and_set_ir
truncate_and_set_ir-IsSaturated gte index v lm ne =
    let other : (index == 0) ≡ false = ground arith in
    subst (IsSaturated lm v)
      (sym (
        ap (λ (g : Gte). ir g index) (if-false _ other)
        ∙ ap int16 (
            update_self (saturate gte (24 - (index - 1)) (ir_min lm) (pos 32767) v).1.data_reg
              (Reg.ir0 + index) _)
        ∙ ap (λ (x : ℤ). int16 (to_word 32 (cast_int16 x)))
            (saturate-value gte (24 - (index - 1)) lm v)
        ∙ stored_ir lm v))
      (clamped-IsSaturated lm v)
