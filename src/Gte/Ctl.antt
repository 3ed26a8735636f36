-- ===== src/Gte/Ctl.antt =====
-- gte_internal.h: the numbers of the control registers, GTE_CTL_*; a matrix or a triple by its
-- first register.
use Prim.Native.Nat.{ℕ}

abbrev pub rotation : ℕ
rotation = 0

abbrev pub translation : ℕ
translation = 5

abbrev pub light : ℕ
light = 8

abbrev pub background : ℕ
background = 13

abbrev pub colour : ℕ
colour = 16

abbrev pub far_colour : ℕ
far_colour = 21

abbrev pub ofx : ℕ
ofx = 24

abbrev pub ofy : ℕ
ofy = 25

abbrev pub h : ℕ
h = 26

abbrev pub dqa : ℕ
dqa = 27

abbrev pub dqb : ℕ
dqb = 28

abbrev pub zsf3 : ℕ
zsf3 = 29

abbrev pub zsf4 : ℕ
zsf4 = 30

abbrev pub flag : ℕ
flag = 31
