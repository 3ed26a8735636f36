-- ===== src/Gte/RegisterMap.antt =====
-- The map of the GTE's data registers, and what each keeps of a value written to it, over gte.c.
use zonistation_one.Base.{ℕ, ◌%◌, ◌^◌, ◌<◌, ◌≡◌, refl, ◌∙◌, ◌≢◌, arith}
use zonistation_one.Base.Int.{to_word}
use zonistation_one.Gte.Registers.{sign16, gte_read_data_register, gte_write_data_register}
use zonistation_one.Gte.RoundTrip.{written_and_read, reads_as}
use zonistation_one.Gte.State.{Gte, int16}

-- The registers that can be written and read back, by their names: all but IRGB, ORGB and LZCR.
pub data DataRegister : Type 0 where
  vxy0 vz0 vxy1 vz1 vxy2 vz2 rgbc otz : DataRegister
  ir0 ir1 ir2 ir3 sxy0 sxy1 sxy2 sxyp : DataRegister
  sz0 sz1 sz2 sz3 rgb0 rgb1 rgb2 res1 : DataRegister
  mac0 mac1 mac2 mac3 lzcs : DataRegister

abbrev pub number : DataRegister → ℕ
number DataRegister.vxy0 = 0
number DataRegister.vz0 = 1
number DataRegister.vxy1 = 2
number DataRegister.vz1 = 3
number DataRegister.vxy2 = 4
number DataRegister.vz2 = 5
number DataRegister.rgbc = 6
number DataRegister.otz = 7
number DataRegister.ir0 = 8
number DataRegister.ir1 = 9
number DataRegister.ir2 = 10
number DataRegister.ir3 = 11
number DataRegister.sxy0 = 12
number DataRegister.sxy1 = 13
number DataRegister.sxy2 = 14
number DataRegister.sxyp = 15
number DataRegister.sz0 = 16
number DataRegister.sz1 = 17
number DataRegister.sz2 = 18
number DataRegister.sz3 = 19
number DataRegister.rgb0 = 20
number DataRegister.rgb1 = 21
number DataRegister.rgb2 = 22
number DataRegister.res1 = 23
number DataRegister.mac0 = 24
number DataRegister.mac1 = 25
number DataRegister.mac2 = 26
number DataRegister.mac3 = 27
number DataRegister.lzcs = 30

-- A word, or the low halfword as an `int16_t` or a `uint16_t`.
pub data Format : Type 0 where
  word signed_half unsigned_half : Format

-- The Z of a vector and IR0 to IR3 are signed, OTZ and the depths are not.
abbrev pub format : DataRegister → Format
format DataRegister.vz0 = Format.signed_half
format DataRegister.vz1 = Format.signed_half
format DataRegister.vz2 = Format.signed_half
format DataRegister.ir0 = Format.signed_half
format DataRegister.ir1 = Format.signed_half
format DataRegister.ir2 = Format.signed_half
format DataRegister.ir3 = Format.signed_half
format DataRegister.otz = Format.unsigned_half
format DataRegister.sz0 = Format.unsigned_half
format DataRegister.sz1 = Format.unsigned_half
format DataRegister.sz2 = Format.unsigned_half
format DataRegister.sz3 = Format.unsigned_half
format _ = Format.word

abbrev pub kept : Format → ℕ → ℕ
kept Format.word v = v
kept Format.signed_half v = to_word 32 (int16 v)
kept Format.unsigned_half v = v % 2 ^ 16

signed_half-sign16 : (v : ℕ) → sign16 v ≡ to_word 32 (int16 v)
signed_half-sign16 v = ground arith

reads_as-kept : (d : DataRegister) (v : ℕ) → reads_as (number d) v ≡ kept (format d) v
reads_as-kept DataRegister.vxy0 v = refl
reads_as-kept DataRegister.vz0 v = signed_half-sign16 v
reads_as-kept DataRegister.vxy1 v = refl
reads_as-kept DataRegister.vz1 v = signed_half-sign16 v
reads_as-kept DataRegister.vxy2 v = refl
reads_as-kept DataRegister.vz2 v = signed_half-sign16 v
reads_as-kept DataRegister.rgbc v = refl
reads_as-kept DataRegister.otz v = refl
reads_as-kept DataRegister.ir0 v = signed_half-sign16 v
reads_as-kept DataRegister.ir1 v = signed_half-sign16 v
reads_as-kept DataRegister.ir2 v = signed_half-sign16 v
reads_as-kept DataRegister.ir3 v = signed_half-sign16 v
reads_as-kept DataRegister.sxy0 v = refl
reads_as-kept DataRegister.sxy1 v = refl
reads_as-kept DataRegister.sxy2 v = refl
reads_as-kept DataRegister.sxyp v = refl
reads_as-kept DataRegister.sz0 v = refl
reads_as-kept DataRegister.sz1 v = refl
reads_as-kept DataRegister.sz2 v = refl
reads_as-kept DataRegister.sz3 v = refl
reads_as-kept DataRegister.rgb0 v = refl
reads_as-kept DataRegister.rgb1 v = refl
reads_as-kept DataRegister.rgb2 v = refl
reads_as-kept DataRegister.res1 v = refl
reads_as-kept DataRegister.mac0 v = refl
reads_as-kept DataRegister.mac1 v = refl
reads_as-kept DataRegister.mac2 v = refl
reads_as-kept DataRegister.mac3 v = refl
reads_as-kept DataRegister.lzcs v = refl

record IsPlain (r : ℕ) : Type 0 where
  range : r < 32
  not_irgb : r ≢ 28
  not_orgb : r ≢ 29
  not_lzcr : r ≢ 31

plain : (r : ℕ) → (r < 28) → IsPlain r
plain r h = record {
  range = omega (arith, h);
  not_irgb = omega (arith, h);
  not_orgb = omega (arith, h);
  not_lzcr = omega (arith, h);
}

number-IsPlain : (d : DataRegister) → IsPlain (number d)
number-IsPlain DataRegister.lzcs = record {
  range = omega arith;
  not_irgb = omega arith;
  not_orgb = omega arith;
  not_lzcr = omega arith;
}
number-IsPlain DataRegister.vxy0 = plain 0 (omega arith)
number-IsPlain DataRegister.vz0 = plain 1 (omega arith)
number-IsPlain DataRegister.vxy1 = plain 2 (omega arith)
number-IsPlain DataRegister.vz1 = plain 3 (omega arith)
number-IsPlain DataRegister.vxy2 = plain 4 (omega arith)
number-IsPlain DataRegister.vz2 = plain 5 (omega arith)
number-IsPlain DataRegister.rgbc = plain 6 (omega arith)
number-IsPlain DataRegister.otz = plain 7 (omega arith)
number-IsPlain DataRegister.ir0 = plain 8 (omega arith)
number-IsPlain DataRegister.ir1 = plain 9 (omega arith)
number-IsPlain DataRegister.ir2 = plain 10 (omega arith)
number-IsPlain DataRegister.ir3 = plain 11 (omega arith)
number-IsPlain DataRegister.sxy0 = plain 12 (omega arith)
number-IsPlain DataRegister.sxy1 = plain 13 (omega arith)
number-IsPlain DataRegister.sxy2 = plain 14 (omega arith)
number-IsPlain DataRegister.sxyp = plain 15 (omega arith)
number-IsPlain DataRegister.sz0 = plain 16 (omega arith)
number-IsPlain DataRegister.sz1 = plain 17 (omega arith)
number-IsPlain DataRegister.sz2 = plain 18 (omega arith)
number-IsPlain DataRegister.sz3 = plain 19 (omega arith)
number-IsPlain DataRegister.rgb0 = plain 20 (omega arith)
number-IsPlain DataRegister.rgb1 = plain 21 (omega arith)
number-IsPlain DataRegister.rgb2 = plain 22 (omega arith)
number-IsPlain DataRegister.res1 = plain 23 (omega arith)
number-IsPlain DataRegister.mac0 = plain 24 (omega arith)
number-IsPlain DataRegister.mac1 = plain 25 (omega arith)
number-IsPlain DataRegister.mac2 = plain 26 (omega arith)
number-IsPlain DataRegister.mac3 = plain 27 (omega arith)

-- A data register other than IRGB, ORGB and LZCR reads as what was written to it last: the Z of a
-- vector and IR0 to IR3 as the low halfword extended by its sign, OTZ and the depths as the low
-- halfword, the others whole, SXYP as the newest point.
pub gte_read_data_register-gte_write_data_register :
    (gte : Gte) (d : DataRegister) (v : ℕ)
    → gte_read_data_register (gte_write_data_register gte (number d) v) (number d)
      ≡ kept (format d) v
gte_read_data_register-gte_write_data_register gte d v =
    let p = number-IsPlain d in
    written_and_read gte (number d) v p.range p.not_irgb p.not_orgb p.not_lzcr ∙ reads_as-kept d v
