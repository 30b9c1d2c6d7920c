-- ===== src/Word/Manip.antt =====
-- include/bit_manip.h: rounding, single bits and fields of a 32-bit word. A shift by 32 or more,
-- which C leaves undefined, is not used.
use Prim.Native.Nat.{bit_and, bit_or}
use too_legit_to_jit.Common.{ℕ, ◌-◌, ◌*◌, ◌/◌, ◌%◌, ◌^◌, if◌then◌else◌, assertion, Result, ok, fail}
use too_legit_to_jit.Word.{add32, sub32, ispowerof2}

-- `~x`
abbrev pub complement : ℕ → ℕ
complement x = 2 ^ 32 - 1 - x % 2 ^ 32

unfoldable pub powerof2 : ℕ → ℕ
powerof2 x = 2 ^ x % 2 ^ 32

unfoldable pub roundup_power2 : (x y : ℕ) → Result ℕ
roundup_power2 x y =
    if ispowerof2 y
    then ok (bit_and (add32 x (sub32 y 1)) (complement (sub32 y 1)))
    else fail assertion

unfoldable pub rounddown_power2 : (x y : ℕ) → Result ℕ
rounddown_power2 x y =
    if ispowerof2 y then ok (bit_and x (complement (sub32 y 1))) else fail assertion

unfoldable pub bit : ℕ → ℕ
bit x = 2 ^ x % 2 ^ 32

unfoldable pub bit_get : (x y : ℕ) → ℕ
unfolding bit
bit_get x y = bit_and x (bit y)

unfoldable pub bit_set : (x y : ℕ) → ℕ
unfolding bit
bit_set x y = bit_or x (bit y)

unfoldable pub bit_clear : (x y : ℕ) → ℕ
unfolding bit
bit_clear x y = bit_and x (complement (bit y))

unfoldable pub bitfield_mask : (size : ℕ) → ℕ
unfolding powerof2
bitfield_mask size = sub32 (powerof2 size) 1

unfoldable pub bitfield_encode : (startbit size value : ℕ) → ℕ
unfolding bitfield_mask
bitfield_encode startbit size value = bit_and value (bitfield_mask size) * 2 ^ startbit % 2 ^ 32

unfoldable pub bitfield_write : (startbit size value var : ℕ) → ℕ
unfolding bitfield_encode
bitfield_write startbit size value var = bit_or var (bitfield_encode startbit size value)

unfoldable pub bitfield_overwrite : (startbit size value var : ℕ) → ℕ
unfolding bitfield_write bitfield_encode bitfield_mask
bitfield_overwrite startbit size value var =
    bitfield_write startbit size value
      (bit_and var (complement (bitfield_encode startbit size (bitfield_mask size))))

-- `y` is a power of 2, and `k` its logarithm
unfoldable pub div_by_powerof2 : (x k : ℕ) → ℕ
div_by_powerof2 x k = x / 2 ^ k

unfoldable pub mul_by_powerof2 : (x k : ℕ) → ℕ
mul_by_powerof2 x k = x * 2 ^ k % 2 ^ 32

unfoldable pub mod_by_powerof2 : (x y : ℕ) → Result ℕ
mod_by_powerof2 x y = if ispowerof2 y then ok (bit_and x (sub32 y 1)) else fail assertion
