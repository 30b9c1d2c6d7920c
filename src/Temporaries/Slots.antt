-- ===== src/Temporaries/Slots.antt =====
-- The packed words of `reg`, and the stack slots of the spilt temporaries.
use too_legit_to_jit.Common.{
  ℕ, zero, suc, ◌+◌, ◌-◌, ◌*◌, ◌/◌, ◌%◌, ◌^◌, ◌≤◌, ◌<◌, ◌≡◌, inl, inr, arith, ap, ltb, Bool-cases,
  tests,
}
use native.Mathlib.Nat.{suc-mul}
use too_legit_to_jit.Word.Bits.{bit_or-disjoint}
use too_legit_to_jit.Word.{sub32, neg32, sext16}
use too_legit_to_jit.Operand.{direct_addr, op_target_daddr}
use too_legit_to_jit.Temporaries.{get_reg, get_refcount, set_refcount, abs_stack_offset, spill_off}

-- A reference count and a register number are stored side by side.
pub set_refcount-fields :
    (r rc : ℕ)
    → rc < 2 ^ 16
    → (get_refcount (set_refcount r rc) ≡ rc) × (get_reg (set_refcount r rc) ≡ get_reg r)
unfolding get_refcount set_refcount
set_refcount-fields r rc h =
    let sum = bit_or-disjoint 16 (rc % 2 ^ 16) (r % 2 ^ 16) (omega arith) in
    (omega (arith, sum), omega (arith, sum))

pub set_refcount-back :
    (r rc : ℕ) → r < 2 ^ 32 → set_refcount (set_refcount r rc) (get_refcount r) ≡ r
unfolding get_refcount set_refcount
set_refcount-back r rc h =
    let inner = bit_or-disjoint 16 (rc % 2 ^ 16) (r % 2 ^ 16) (omega arith) in
    let outer = bit_or-disjoint 16 (r / 2 ^ 16 % 2 ^ 16 % 2 ^ 16) (r % 2 ^ 16) (omega arith) in
    rw inner (
      let low : (rc % 2 ^ 16 * 2 ^ 16 + r % 2 ^ 16) % 2 ^ 16 ≡ r % 2 ^ 16 = omega arith in
      rw low (omega (arith, outer)))

-- the slot of a temporary in words below the stack pointer
abbrev depth : (i rc n : ℕ) → ℕ
depth i rc n = (rc - 1) * n + i + rc

-- a later round lies below all slots of an earlier one
later_round : (i j rc rc' n : ℕ) → i < n → j < n → 0 < rc → rc < rc' → depth i rc n < depth j rc' n
later_round i j rc rc' n hi hj pos h =
    let more : (rc - 1) * n + n ≤ (rc' - 1) * n = grind arith in omega arith

depth-injective :
    (i j rc rc' n : ℕ)
    → i < n
    → j < n
    → 0 < rc
    → 0 < rc'
    → depth i rc n ≡ depth j rc' n
    → (i ≡ j) × (rc ≡ rc')
depth-injective i j rc rc' n hi hj pos pos' h = elim (Bool-cases (ltb rc rc')) [
  | inl less ↦ absurd (omega (tests, later_round i j rc rc' n hi hj pos (omega tests)))
  | inr rest ↦ elim (Bool-cases (ltb rc' rc)) [
    | inl more ↦ absurd (omega (tests, later_round j i rc' rc n hj hi pos' (omega tests)))
    | inr same ↦ let e : rc ≡ rc' = omega tests in (omega (arith, ap (λ (t : ℕ). (t - 1) * n) e), e)
  ]
]

-- a 16-bit offset keeps a slot that is at most 8192 words below the stack pointer
sext16-neg32 : (k : ℕ) → 0 < k → k ≤ 8192 → sext16 (neg32 (4 * k)) ≡ 2 ^ 32 - 4 * k
sext16-neg32 k h h' = ground arith

round_back : (rc n : ℕ) → 0 < rc → (rc - 1) * n + n ≡ rc * n
round_back zero n h = absurd (omega arith)
round_back (suc k) n h = let e : suc k - 1 ≡ k = omega arith in rw e (omega (arith, suc-mul k n))

spill_slot-depth :
    (i rc n : ℕ)
    → i < n
    → 0 < rc
    → rc * n + rc ≤ 8192
    → (sext16 (spill_off i rc n) ≡ 2 ^ 32 - 4 * depth i rc n)
      × (0 < depth i rc n)
      × (depth i rc n ≤ 8192)
unfolding spill_off abs_stack_offset
spill_slot-depth i rc n hi pos small =
    let one_less : sub32 rc 1 ≡ rc - 1 = ground arith in
    let round : (rc - 1) * n + n ≡ rc * n = round_back rc n pos in
    let inside : depth i rc n ≤ 8192 = omega arith in
    let whole : 4 * depth i rc n % 2 ^ 32 ≡ 4 * depth i rc n = omega arith in
    (rw (one_less, whole) (sext16-neg32 (depth i rc n) (omega arith) inside), omega arith, inside)

direct_addr-eq : (a b c d : ℕ) → direct_addr a b ≡ direct_addr c d → b ≡ d
direct_addr-eq a b c d e = cc

-- Two of the `n` temporaries, both in use, are spilt to the same stack slot only if they are the
-- same register with the same reference count: if the slots of all rounds up to theirs lie at most
-- 8192 words below the stack pointer, as far as the 16-bit offset of an operand reaches.
pub spill_off-injective :
    (sp i j rc rc' n : ℕ)
    → i < n
    → j < n
    → 0 < rc
    → 0 < rc'
    → rc * n + rc ≤ 8192
    → rc' * n + rc' ≤ 8192
    → op_target_daddr sp (spill_off i rc n) ≡ op_target_daddr sp (spill_off j rc' n)
    → (i ≡ j) × (rc ≡ rc')
unfolding op_target_daddr
spill_off-injective sp i j rc rc' n hi hj pos pos' small small' e =
    let (slot, _, inside) = spill_slot-depth i rc n hi pos small in
    let (slot', _, inside') = spill_slot-depth j rc' n hj pos' small' in
    let same = direct_addr-eq sp (sext16 (spill_off i rc n)) sp (sext16 (spill_off j rc' n)) e in
    depth-injective i j rc rc' n hi hj pos pos' (omega (arith, slot, slot', inside, inside', same))
