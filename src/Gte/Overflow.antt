-- ===== src/Gte/Overflow.antt =====
-- What check_mac_overflow of gte_internal.h sees of a sum that sign_extend_44 has cut to 44 bits.
use zonistation_one.Base.{if-false, ℕ, ◌-◌, ◌^◌, ◌≡◌, ◌∙◌, ◌≢◌, false, arith}
use zonistation_one.Base.Int.{ℤ, ltb_ℤ, pos, negsuc}
use zonistation_one.Gte.Saturate.{sign_extend_44, mac_limit, check_mac_overflow}
use zonistation_one.Gte.State.{Gte}

sign_extend_44-lower : (v : ℤ) → ltb_ℤ (sign_extend_44 v) (negsuc (2 ^ 43 - 1)) ≡ false
unfolding sign_extend_44
sign_extend_44-lower (pos n) = ground arith
sign_extend_44-lower (negsuc n) = ground arith

sign_extend_44-upper : (v : ℤ) → ltb_ℤ (pos (2 ^ 43 - 1)) (sign_extend_44 v) ≡ false
unfolding sign_extend_44
sign_extend_44-upper (pos n) = ground arith
sign_extend_44-upper (negsuc n) = ground arith

-- The check of MAC1 to MAC3 finds nothing in a sum that sign_extend_44 has been applied to,
-- whatever the sum was: no flag is set.
pub check_mac_overflow-sign_extend_44 :
    (gte : Gte) (index : ℕ) (v : ℤ)
    → index ≢ 0
    → check_mac_overflow gte index (sign_extend_44 v) ≡ gte
unfolding check_mac_overflow
check_mac_overflow-sign_extend_44 gte index v ne =
    let limit : mac_limit index ≡ 2 ^ 43 = ground arith in
    rw limit (if-false _ (sign_extend_44-lower v) ∙ if-false _ (sign_extend_44-upper v))
