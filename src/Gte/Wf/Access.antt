-- ===== src/Gte/Wf/Access.antt =====
-- The invariant over the register accesses of gte.c.
use zonistation_one.Gte.Reg
use zonistation_one.Base.{
  ltb, leb, ◌==◌, if◌then◌else◌, not32, ◌<<<◌, ◌>>>◌, ℕ, zero, suc, ◌%◌, ◌^◌, ◌≤◌, ◌<◌, ◌≡◌, refl,
  sym, ◌≢◌, Bool, true, false, arith,
}
use zonistation_one.Base.Int.{ℤ}
use zonistation_one.Base.Map.{update_ne}
use zonistation_one.Gte.Divide.{leading_zeros}
use zonistation_one.Gte.Registers.{
  irgb_part, gte_read_data_register, count_leading_bits, write_irgb, gte_write_data_register,
  gte_read_control_register, writes_signed16, written_flag, gte_write_control_register,
}
use zonistation_one.Gte.State.{Gte, set_data, set_control, gte_init, ir}
use zonistation_one.Gte.Wf.Core.{GteIsWf, GteIsWf-GteIsMid, set_data-GteIsMid, with_flag-GteIsMid}
use zonistation_one.Gte.Wf.Flag.{FlagIsWf, FlagIsWf-FlagIsMid, zero-FlagIsWf, summary-FlagIsWf}

pub gte_init-GteIsWf : (gte : Gte) → GteIsWf (gte_init gte)
unfolding gte_init
gte_init-GteIsWf gte = record {
  data_words = λ r. omega arith;
  control_words = λ r. omega arith;
  flag = zero-FlagIsWf;
}

set_data-GteIsWf : {gte : Gte} (r v : ℕ) → v < 2 ^ 32 → GteIsWf gte → GteIsWf (set_data gte r v)
set_data-GteIsWf {gte} r v h w = record {
  data_words = (set_data-GteIsMid r v h (GteIsWf-GteIsMid w)).data_words;
  control_words = w.control_words;
  flag = w.flag;
}

if-GteIsWf :
    (b : Bool) {x y : Gte}
    → (b ≡ true → GteIsWf x)
    → (b ≡ false → GteIsWf y)
    → GteIsWf (if b then x else y)
if-GteIsWf true p q = p refl
if-GteIsWf false p q = q refl

set_control-GteIsWf :
    {gte : Gte} (r v : ℕ) → r ≢ 31 → v < 2 ^ 32 → GteIsWf gte → GteIsWf (set_control gte r v)
set_control-GteIsWf {gte} r v ne h w = record {
  data_words = w.data_words;
  control_words = λ k. ground (arith, w.control_words k);
  flag = rw (update_ne gte.control r 31 v (λ e. ne (sym e))) w.flag;
}

leading_zeros-le : (width n : ℕ) → leading_zeros width n ≤ width
leading_zeros-le zero n = omega arith
leading_zeros-le (suc k) n = ground (arith, leading_zeros-le k n)

counted-lt : (b : Bool) (n : ℕ) → n ≤ 32 → (if b then 32 else n) < 2 ^ 32
counted-lt b n h = ground arith

count_leading_bits-lt : (v : ℕ) → count_leading_bits v < 2 ^ 32
unfolding count_leading_bits
count_leading_bits-lt v =
    let bits = if ltb v (2 ^ 31) then v else not32 v in
    let n = leading_zeros 32 bits in counted-lt (bits == 0) n (leading_zeros-le 32 bits)

write_irgb-GteIsWf : {gte : Gte} (v : ℕ) → v < 2 ^ 32 → GteIsWf gte → GteIsWf (write_irgb gte v)
unfolding write_irgb
write_irgb-GteIsWf v h w = set_data-GteIsWf 28 v h (
    set_data-GteIsWf 11 _ (ground arith)
      (set_data-GteIsWf 10 _ (ground arith) (set_data-GteIsWf 9 _ (ground arith) w)))

push_point-GteIsWf :
    {gte : Gte} (v : ℕ) → v < 2 ^ 32 → GteIsWf gte → GteIsWf (gte_write_data_register gte 15 v)
unfolding gte_write_data_register
push_point-GteIsWf v h w =
    let s0 = set_data-GteIsWf Reg.sxy0 _ (w.data_words Reg.sxy1) w in
    let s1 = set_data-GteIsWf Reg.sxy1 _ (s0.data_words Reg.sxy2) s0 in
    set_data-GteIsWf Reg.sxy2 v h s1

-- Writing a data register keeps every register a word and does not touch FLAG.
pub gte_write_data_register-GteIsWf :
    (gte : Gte) (r v : ℕ) → v < 2 ^ 32 → GteIsWf gte → GteIsWf (gte_write_data_register gte r v)
unfolding gte_write_data_register
gte_write_data_register-GteIsWf gte r v h w =
    if-GteIsWf (leb 32 r) (λ e. w)
      (λ e.
        if-GteIsWf (r == 15) (λ e. push_point-GteIsWf v h w)
          (λ e.
            if-GteIsWf (r == 28) (λ e. write_irgb-GteIsWf v h w)
              (λ e.
                if-GteIsWf (r == 29) (λ e. w)
                  (λ e.
                    if-GteIsWf (r == 30)
                      (λ e.
                        set_data-GteIsWf Reg.lzcr _ (count_leading_bits-lt v)
                          (set_data-GteIsWf 30 v h w))
                      (λ e. if-GteIsWf (r == 31) (λ e. w) (λ e. set_data-GteIsWf r v h w))))))

written_flag-FlagIsWf : (v : ℕ) → FlagIsWf (written_flag v)
written_flag-FlagIsWf v =
    summary-FlagIsWf {f = ((v % 2 ^ 31) >>> 12) <<< 12}
      (record { word = omega arith; low = omega arith; error = λ e. ground (arith, e) })

-- Writing a control register, FLAG included, keeps the invariant.
pub gte_write_control_register-GteIsWf :
    (gte : Gte) (r v : ℕ) → v < 2 ^ 32 → GteIsWf gte → GteIsWf (gte_write_control_register gte r v)
unfolding gte_write_control_register
gte_write_control_register-GteIsWf gte r v h w =
    if-GteIsWf (leb 32 r) (λ e. w)
      (λ e.
        if-GteIsWf (writes_signed16 r)
          (λ e. set_control-GteIsWf r _ (ground (arith, e)) (ground arith) w)
          (λ e.
            if-GteIsWf (r == 31)
              (λ e. record {
                data_words = w.data_words;
                control_words =
                    (with_flag-GteIsMid _ (FlagIsWf-FlagIsMid (written_flag-FlagIsWf v))
                      (GteIsWf-GteIsMid w)).control_words;
                flag = written_flag-FlagIsWf v;
              })
              (λ e. set_control-GteIsWf r v (ground (arith, e)) h w)))

-- What the registers read as are words.
pub gte_read_data_register-lt :
    (gte : Gte) (r : ℕ) → GteIsWf gte → gte_read_data_register gte r < 2 ^ 32
unfolding gte_read_data_register
gte_read_data_register-lt gte r w =
    let irgb_part-lt : (v : ℤ) → irgb_part v < 32 = λ v. ground arith in
    ground (
      arith,
      w.data_words r,
      w.data_words Reg.sxy2,
      irgb_part-lt (ir gte 1),
      irgb_part-lt (ir gte 2),
      irgb_part-lt (ir gte 3),
    )

pub gte_read_control_register-lt :
    (gte : Gte) (r : ℕ) → GteIsWf gte → gte_read_control_register gte r < 2 ^ 32
unfolding gte_read_control_register
gte_read_control_register-lt gte r w = ground (arith, w.control_words r)
