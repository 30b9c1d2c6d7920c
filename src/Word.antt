-- ===== src/Word.antt =====
-- Machine words: a `uint32_t` or an `int` is its bit pattern, a number below 2 ^ 32.
pub mod Bits
pub mod Manip
use Prim.Native.Nat.{bit_and}
use too_legit_to_jit.Common.{
  ℕ, ◌+◌, ◌-◌, ◌*◌, ◌/◌, ◌%◌, ◌^◌, Bool, ltb, if◌then◌else◌, zero, suc, not, ◌&&◌, ◌==◌,
}

abbrev pub add32 : ℕ → ℕ → ℕ
add32 a b = (a + b) % 2 ^ 32

abbrev pub sub32 : ℕ → ℕ → ℕ
sub32 a b = (a + (2 ^ 32 - b % 2 ^ 32)) % 2 ^ 32

abbrev pub neg32 : ℕ → ℕ
neg32 a = (2 ^ 32 - a % 2 ^ 32) % 2 ^ 32

-- `x & 0xffff`, and `(int16_t)x` promoted to an `int`
abbrev pub low16 : ℕ → ℕ
low16 x = x % 2 ^ 16

abbrev pub sext16 : ℕ → ℕ
sext16 x = if ltb (x % 2 ^ 16) (2 ^ 15) then x % 2 ^ 16 else x % 2 ^ 16 + (2 ^ 32 - 2 ^ 16)

-- `a < b` on two values of type `int`
abbrev pub signed_lt : ℕ → ℕ → Bool
signed_lt a b = ltb ((a + 2 ^ 31) % 2 ^ 32) ((b + 2 ^ 31) % 2 ^ 32)

abbrev pub is_negative : ℕ → Bool
is_negative a = ltb (2 ^ 31 - 1) a

abbrev pub abs32 : ℕ → ℕ
abs32 a = if is_negative a then neg32 a else a

-- `/` and `%` of two values of type `int`, which round towards zero; the divisor is not 0
unfoldable pub sdiv32 : ℕ → ℕ → ℕ
sdiv32 a b =
    let q = abs32 a / abs32 b in
    if is_negative a
    then (if is_negative b then q else neg32 q)
    else (if is_negative b then neg32 q else q)

unfoldable pub smod32 : ℕ → ℕ → ℕ
smod32 a b = let r = abs32 a % abs32 b in if is_negative a then neg32 r else r

-- include/bit_manip.h
unfoldable pub ispowerof2 : ℕ → Bool
ispowerof2 a = not (a == 0) && (bit_and a (sub32 a 1) == 0)

-- `while( x >>= 1 ) r++;`, which a 32-bit word leaves after at most 31 rounds
unfoldable pub ilog2_loop : ℕ → ℕ → ℕ → ℕ
ilog2_loop zero x r = r
ilog2_loop (suc fuel) x r =
    let rest = ilog2_loop fuel (x / 2) (r + 1) in if x / 2 == 0 then r else rest

unfoldable pub ilog2 : ℕ → ℕ
ilog2 x = ilog2_loop 32 x 0

-- `BITFIELD_DECODE`
abbrev pub bitfield_decode : ℕ → ℕ → ℕ → ℕ
bitfield_decode startbit size value = value / 2 ^ startbit % 2 ^ size
