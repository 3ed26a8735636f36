-- ===== src/Base/Word.antt =====
-- Casts to the fixed widths of C, shifts, and the arithmetic of `uint32_t`.
use Prim.Native.Nat.{ℕ, ◌+◌, ◌-◌, ◌*◌, ◌/◌, ◌%◌, ◌^◌}
use mathlib.Core.Bool.{Bool}
use zonistation_one.Base.Tests.{ltb, ◌==◌, if◌then◌else◌}

abbrev pub u8 : ℕ → ℕ
u8 n = n % 2 ^ 8

abbrev pub u16 : ℕ → ℕ
u16 n = n % 2 ^ 16

abbrev pub u32 : ℕ → ℕ
u32 n = n % 2 ^ 32

abbrev pub u64 : ℕ → ℕ
u64 n = n % 2 ^ 64

abbrev pub word_mod : ℕ
word_mod = 2 ^ 32

abbrev pub add32 : ℕ → ℕ → ℕ
add32 a b = u32 (a + b)

-- `-` on ℕ stops at 0, so the modulus is added first.
abbrev pub sub32 : ℕ → ℕ → ℕ
sub32 a b = u32 (a + (2 ^ 32 - b % 2 ^ 32))

-- `~x` of a 32-bit value.
abbrev pub not32 : ℕ → ℕ
not32 a = 2 ^ 32 - 1 - a

infixl 75 ◌<<<◌ ◌>>>◌
abbrev pub ◌<<<◌ : ℕ → ℕ → ℕ
x <<< k = x * 2 ^ k

abbrev pub ◌>>>◌ : ℕ → ℕ → ℕ
x >>> k = x / 2 ^ k

-- Bit `k` of `x`, as `(x & (1 << k)) != 0`.
abbrev pub bit : ℕ → ℕ → Bool
bit x k = x / 2 ^ k % 2 == 1

-- `x | (1 << k)` and `x & ~(1 << k)`.
abbrev pub set_bit : ℕ → ℕ → ℕ
set_bit x k = if bit x k then x else x + 2 ^ k

abbrev pub clear_bit : ℕ → ℕ → ℕ
clear_bit x k = if bit x k then x - 2 ^ k else x

-- The order of two `int32_t` given by their bit patterns: adding 2^31 turns it into `<` on ℕ.
abbrev pub lt_signed : ℕ → ℕ → Bool
lt_signed a b = ltb ((a + 2 ^ 31) % 2 ^ 32) ((b + 2 ^ 31) % 2 ^ 32)

-- `(uint32_t)(int32_t)(int16_t)x` and the same from `int8_t`.
abbrev pub sign_extend16 : ℕ → ℕ
sign_extend16 x = if ltb x 0x8000 then x else x + 0xFFFF_0000

abbrev pub sign_extend8 : ℕ → ℕ
sign_extend8 x = if ltb x 0x80 then x else x + 0xFFFF_FF00
