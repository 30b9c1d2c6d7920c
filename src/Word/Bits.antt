-- ===== src/Word/Bits.antt =====
-- `|` of numbers whose bits do not overlap is their sum.
use Prim.Native.Nat.{max, bit_or, digits, bit_or-bitwise}
use native.Mathlib.Nat.{two-pow-succ}
use too_legit_to_jit.Common.{ℕ, zero, suc, ◌+◌, ◌*◌, ◌/◌, ◌%◌, ◌^◌, ◌≤◌, ◌<◌, ◌≡◌, refl, ap, arith}

-- the digits of `x | y`, from a number `k` of them that covers `x`
abbrev joined : ℕ → ℕ → ℕ → ℕ
joined k x y = digits (λ rest. rest) max k x y

joined_more : (k l x y : ℕ) → x ≤ k → x ≤ l → joined k x y ≡ joined l x y
joined_more k l zero y h h' = joined_zero k l
  where
    joined_zero : (k l : ℕ) → joined k 0 y ≡ joined l 0 y
    joined_zero zero zero = refl
    joined_zero zero (suc l) = refl
    joined_zero (suc k) zero = refl
    joined_zero (suc k) (suc l) = refl
joined_more zero l (suc x) y h h' = absurd (omega arith)
joined_more (suc k) zero (suc x) y h h' = absurd (omega arith)
joined_more (suc k) (suc l) (suc x) y h h' =
    omega (arith, joined_more k l (suc x / 2) (y / 2) (omega arith) (omega arith))

zero-bit_or : (y : ℕ) → bit_or 0 y ≡ y
zero-bit_or y = bit_or-bitwise 0 y

bit_or_unroll : (x y : ℕ) → bit_or x y ≡ bit_or (x / 2) (y / 2) * 2 + max (x % 2) (y % 2)
bit_or_unroll zero y = omega (arith, zero-bit_or y, zero-bit_or (y / 2))
bit_or_unroll (suc x) y = omega (
  arith,
  bit_or-bitwise (suc x) y,
  bit_or-bitwise (suc x / 2) (y / 2),
  joined_more x (suc x / 2) (suc x / 2) (y / 2) (omega arith) (omega arith),
)

bit_or-zero_below : (bound x : ℕ) → x ≤ bound → bit_or x 0 ≡ x
bit_or-zero_below bound zero h = refl
bit_or-zero_below zero (suc x) h = absurd (omega arith)
bit_or-zero_below (suc bound) (suc x) h =
    omega (arith, bit_or_unroll (suc x) 0, bit_or-zero_below bound (suc x / 2) (omega arith))

twice_high : (high k : ℕ) → high * 2 ^ suc k ≡ high * 2 ^ k + high * 2 ^ k
twice_high high k = omega (arith, ap (λ (p : ℕ). high * p) (two-pow-succ k))

-- A field above bit `k` and a field below it.
pub bit_or-disjoint :
    (k high low : ℕ) → low < 2 ^ k → bit_or (high * 2 ^ k) low ≡ high * 2 ^ k + low
bit_or-disjoint zero high low h =
    let whole = bit_or-zero_below (high * 1) (high * 1) (omega arith) in
    let none_below : low ≡ 0 = omega arith in rw none_below (omega (arith, whole))
bit_or-disjoint (suc k) high low h =
    let half : high * 2 ^ suc k / 2 ≡ high * 2 ^ k = omega (arith, twice_high high k) in
    let below : low / 2 < 2 ^ k = omega (arith, two-pow-succ k) in
    let rest : bit_or (high * 2 ^ suc k / 2) (low / 2) ≡ high * 2 ^ k + low / 2 =
      rw half (bit_or-disjoint k high (low / 2) below) in
    omega (arith, two-pow-succ k, twice_high high k, bit_or_unroll (high * 2 ^ suc k) low, rest)

pub bit_or-zero : (x : ℕ) → bit_or x 0 ≡ x
bit_or-zero x = bit_or-zero_below x x (omega arith)

-- `|` works on the digits above bit `k` and on those below it by themselves.
pub bit_or-split :
    (k a b c d : ℕ)
    → b < 2 ^ k
    → d < 2 ^ k
    → bit_or (a * 2 ^ k + b) (c * 2 ^ k + d) ≡ bit_or a c * 2 ^ k + bit_or b d
bit_or-split zero a b c d h h' =
    let x : a * 1 + b ≡ a = omega arith in
    let y : c * 1 + d ≡ c = omega arith in
    let u : b ≡ 0 = omega arith in let v : d ≡ 0 = omega arith in rw (x, y, u, v) (omega arith)
bit_or-split (suc k) a b c d h h' =
    let half : (a * 2 ^ suc k + b) / 2 ≡ a * 2 ^ k + b / 2 = omega (arith, twice_high a k) in
    let half' : (c * 2 ^ suc k + d) / 2 ≡ c * 2 ^ k + d / 2 = omega (arith, twice_high c k) in
    let rest =
      bit_or-split k a (b / 2) c (d / 2) (omega (arith, two-pow-succ k))
        (omega (arith, two-pow-succ k)) in
    let bottom : (a * 2 ^ suc k + b) % 2 ≡ b % 2 = omega (arith, twice_high a k) in
    let bottom' : (c * 2 ^ suc k + d) % 2 ≡ d % 2 = omega (arith, twice_high c k) in
    rw (bit_or_unroll (a * 2 ^ suc k + b) (c * 2 ^ suc k + d), half, half', bottom, bottom', rest)
      (omega (arith, bit_or_unroll b d, twice_high (bit_or a c) k))
