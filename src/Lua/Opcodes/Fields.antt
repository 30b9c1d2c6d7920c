-- ===== src/Lua/Opcodes/Fields.antt =====
-- include/lopcodes.h: the fields of an instruction word are what the word was made from.
use Prim.Native.Nat.{bit_or}
use too_legit_to_jit.Common.{ℕ, ◌+◌, ◌*◌, ◌/◌, ◌%◌, ◌^◌, ◌<◌, ◌≡◌, ◌∙◌, ap, arith}
use too_legit_to_jit.Word.Bits.{bit_or-disjoint, bit_or-split, bit_or-zero}
use too_legit_to_jit.Lua.Opcodes.{
  get_opcode, getarg_a, getarg_b, getarg_c, getarg_bx, getarg_sbx, setarg_bx, setarg_sbx,
  create_abc,
}

zero-bit_or : (x : ℕ) → x < 2 ^ 32 → bit_or 0 x ≡ x
zero-bit_or x h = bit_or-disjoint 32 0 x h ∙ omega arith

-- a field above the bits that are there
join_above :
    (k low high : ℕ) → low < 2 ^ k → high < 2 ^ 32 → bit_or low (high * 2 ^ k) ≡ high * 2 ^ k + low
join_above k low high h h' =
    let low_sum : low ≡ 0 * 2 ^ k + low = omega arith in
    let high_sum : high * 2 ^ k ≡ high * 2 ^ k + 0 = omega arith in
    let split = bit_or-split k 0 low high 0 h (omega (arith, h)) in
    ap (λ x. bit_or x (high * 2 ^ k)) low_sum
    ∙ ap (λ y. bit_or (0 * 2 ^ k + low) y) high_sum
    ∙ split
    ∙ rw (zero-bit_or high h', bit_or-zero low) (omega arith)

-- an instruction as the sum of its fields
create_abc-sum :
    (o a b c : ℕ)
    → o < 2 ^ 6
    → a < 2 ^ 8
    → b < 2 ^ 9
    → c < 2 ^ 9
    → create_abc o a b c ≡ b * 2 ^ 23 + c * 2 ^ 14 + a * 2 ^ 6 + o
unfolding create_abc
create_abc-sum o a b c ho ha hb hc =
    let o' : o * 2 ^ 0 % 2 ^ 32 ≡ o = omega arith in
    let a' : a * 2 ^ 6 % 2 ^ 32 ≡ a * 2 ^ 6 = omega arith in
    let b' : b * 2 ^ 23 % 2 ^ 32 ≡ b * 2 ^ 23 = omega arith in
    let c' : c * 2 ^ 14 % 2 ^ 32 ≡ c * 2 ^ 14 = omega arith in
    let first = join_above 6 o a ho (omega arith) in
    let second = join_above 23 (a * 2 ^ 6 + o) b (omega arith) (omega arith) in
    let b_sum : b * 2 ^ 23 + (a * 2 ^ 6 + o) ≡ b * 2 ^ 9 * 2 ^ 14 + (a * 2 ^ 6 + o) = omega arith in
    let c_sum : c * 2 ^ 14 ≡ c * 2 ^ 14 + 0 = omega arith in
    let third : bit_or (b * 2 ^ 23 + (a * 2 ^ 6 + o)) (c * 2 ^ 14)
        ≡ b * 2 ^ 23 + c * 2 ^ 14 + a * 2 ^ 6 + o =
      ap (λ x. bit_or x (c * 2 ^ 14)) (b_sum)
      ∙ ap (λ x. bit_or (b * 2 ^ 9 * 2 ^ 14 + (a * 2 ^ 6 + o)) x) c_sum
      ∙ bit_or-split 14 (b * 2 ^ 9) (a * 2 ^ 6 + o) c 0 (omega arith) (omega arith)
      ∙ rw (bit_or-disjoint 9 b c hc, bit_or-zero (a * 2 ^ 6 + o)) (omega arith) in
    rw (o', a', b', c', first, second) third

create_abc-getarg :
    (i : ℕ)
    → i < 2 ^ 32
    → (create_abc (get_opcode i) (getarg_a i) (getarg_b i) (getarg_c i) ≡ i)
      × (get_opcode i < 2 ^ 6)
      × (getarg_a i < 2 ^ 8)
      × (getarg_b i < 2 ^ 9)
      × (getarg_c i < 2 ^ 9)
unfolding get_opcode getarg_a getarg_b getarg_c
create_abc-getarg i h = (
  create_abc-sum (get_opcode i) (getarg_a i) (getarg_b i) (getarg_c i) (omega arith) (omega arith)
        (omega arith) (omega arith)
      ∙ omega arith,
  omega arith,
  omega arith,
  omega arith,
  omega arith,
)

-- A word that is made from an operation code and three arguments, each within its field, has them
-- in its fields. Every 32-bit word is made in this way from its operation code and its three
-- arguments, which are within their fields.
pub getarg-create_abc :
    (o a b c i : ℕ)
    → o < 2 ^ 6
    → a < 2 ^ 8
    → b < 2 ^ 9
    → c < 2 ^ 9
    → i < 2 ^ 32
    → ((get_opcode (create_abc o a b c) ≡ o)
        × (getarg_a (create_abc o a b c) ≡ a)
        × (getarg_b (create_abc o a b c) ≡ b)
        × (getarg_c (create_abc o a b c) ≡ c))
      × ((create_abc (get_opcode i) (getarg_a i) (getarg_b i) (getarg_c i) ≡ i)
          × (get_opcode i < 2 ^ 6)
          × (getarg_a i < 2 ^ 8)
          × (getarg_b i < 2 ^ 9)
          × (getarg_c i < 2 ^ 9))
unfolding get_opcode getarg_a getarg_b getarg_c
getarg-create_abc o a b c i ho ha hb hc hi = (
  rw (create_abc-sum o a b c ho ha hb hc) (omega arith, omega arith, omega arith, omega arith),
  create_abc-getarg i hi,
)

-- A jump distance `b`, a 32-bit pattern, fits if it is from -131071 to 131072. Setting it gives it
-- back, and keeps the operation code and the argument A.
pub getarg_sbx-setarg_sbx :
    (i b : ℕ)
    → i < 2 ^ 32
    → b < 2 ^ 32
    → (b + 131071) % 2 ^ 32 < 2 ^ 18
    → (getarg_sbx (setarg_sbx i b) ≡ b)
      × (get_opcode (setarg_sbx i b) ≡ get_opcode i)
      × (getarg_a (setarg_sbx i b) ≡ getarg_a i)
unfolding getarg_sbx getarg_bx setarg_sbx setarg_bx get_opcode getarg_a
getarg_sbx-setarg_sbx i b hi hb fits =
    let v = (b + 131071) % 2 ^ 32 in
    let none_above : i / 2 ^ 32 * 2 ^ 32 + i % 2 ^ 14 ≡ i % 2 ^ 14 = omega arith in
    let in_field : v % 2 ^ 18 ≡ v = omega arith in
    let joined = join_above 14 (i % 2 ^ 14) v (omega arith) (omega arith) in
    let word : setarg_sbx i b ≡ v * 2 ^ 14 + i % 2 ^ 14 = rw (none_above, in_field) joined in
    rw word (omega arith, omega arith, omega arith)
