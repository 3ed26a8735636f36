-- ===== src/Gte/Reg.antt =====
-- gte_internal.h: the numbers of the data registers, GTE_REG_*.
use Prim.Native.Nat.{ℕ}

abbrev pub rgbc : ℕ
rgbc = 6

abbrev pub otz : ℕ
otz = 7

abbrev pub ir0 : ℕ
ir0 = 8

abbrev pub sxy0 : ℕ
sxy0 = 12

abbrev pub sxy1 : ℕ
sxy1 = 13

abbrev pub sxy2 : ℕ
sxy2 = 14

abbrev pub sz0 : ℕ
sz0 = 16

abbrev pub sz1 : ℕ
sz1 = 17

abbrev pub sz2 : ℕ
sz2 = 18

abbrev pub sz3 : ℕ
sz3 = 19

abbrev pub rgb0 : ℕ
rgb0 = 20

abbrev pub rgb1 : ℕ
rgb1 = 21

abbrev pub rgb2 : ℕ
rgb2 = 22

abbrev pub mac0 : ℕ
mac0 = 24

abbrev pub lzcr : ℕ
lzcr = 31
