-- ===== src/Frame/Sharing.antt =====
-- Which Lua registers share a place on the MIPS machine.
use too_legit_to_jit.Common.{
  ℕ, ◌+◌, ◌<◌, ◌≡◌, ◌⊎◌, inl, inr, Bool, true, false, refl, ◌&&◌, ◌||◌, not, ◌==◌, Bool-cases, leb,
  get_or, ok, tests, arith,
}
use too_legit_to_jit.Word.{sext16}
use too_legit_to_jit.Operand.{Operand, reg, direct_addr}
use too_legit_to_jit.Frame.{nr_spare_regs, slot_offset, pslot_to_operand}
use too_legit_to_jit.Frame.Slots.{place, pslot_to_operand-place}
use too_legit_to_jit.Mips.Move.{mips_mach}
use too_legit_to_jit.Mips.Assign.{all_below, all_below-lt}

slot_offset-injective :
    (p q : ℕ) → p < 8190 → q < 8190 → sext16 (slot_offset p) ≡ sext16 (slot_offset q) → p ≡ q
unfolding slot_offset
slot_offset-injective p q h h' e = ground arith

reg-eq : (a b : ℕ) → reg a ≡ reg b → a ≡ b
reg-eq a b e = cc

direct_addr-eq : (a b c d : ℕ) → direct_addr a b ≡ direct_addr c d → b ≡ d
direct_addr-eq a b c d e = cc

-- the type of Lua register 6 and the value of Lua register 7
abbrev pub is_type6_value7 : (p q : ℕ) → Bool
is_type6_value7 p q = (p == 13) && (q == 14)

-- The same slot, or the two that share a register, where registers are allowed.
abbrev pub AreShared : (stackonly : Bool) (p q : ℕ) → Type 0
AreShared stackonly p q =
    (p ≡ q) ⊎ ((not stackonly && (is_type6_value7 p q || is_type6_value7 q p)) ≡ true)

abbrev spare : ℕ → ℕ
spare p = get_or mips_mach.reg (4 + p) 0

abbrev is_apart : (p q : ℕ) → Bool
is_apart p q =
    not (spare p == spare q) || ((p == q) || (is_type6_value7 p q || is_type6_value7 q p))

spares-apart : all_below 18 (λ p. all_below 18 λ q. is_apart p q) ≡ true
spares-apart = refl

is_apart-AreShared : (p q : ℕ) → is_apart p q ≡ true → spare p ≡ spare q → AreShared false p q
is_apart-AreShared p q h e = elim (Bool-cases (p == q)) [
  | inl y ↦ inl (omega tests)
  | inr n ↦ let same : (spare p == spare q) ≡ true = omega (tests, e) in inr (rw (same, n) at h)
]

spare-AreShared : (p q : ℕ) → p < 18 → q < 18 → spare p ≡ spare q → AreShared false p q
spare-AreShared p q h h' = is_apart-AreShared p q (
    all_below-lt 18 (λ q. is_apart p q) q
      (all_below-lt 18 (λ p. all_below 18 λ q. is_apart p q) p spares-apart h) h')

place-AreShared :
    (p q : ℕ) (stackonly : Bool)
    → p < 8190
    → q < 8190
    → place mips_mach p stackonly ≡ place mips_mach q stackonly
    → AreShared stackonly p q
unfolding nr_spare_regs
place-AreShared p q true h h' e = inl (
    slot_offset-injective p q h h'
      (direct_addr-eq 30 (sext16 (slot_offset p)) 30 (sext16 (slot_offset q)) e))
place-AreShared p q false h h' e = elim (Bool-cases (leb 18 p)) [
  | inl y ↦ elim (Bool-cases (leb 18 q)) [
    | inl y' ↦ inl (
        slot_offset-injective p q h h' (
          direct_addr-eq 30 (sext16 (slot_offset p)) 30 (sext16 (slot_offset q)) (rw (y, y') at e)))
    | inr n' ↦ let e' = rw (y, n') at e in cc
  ]
  | inr n ↦ elim (Bool-cases (leb 18 q)) [
    | inl y' ↦ let e' = rw (n, y') at e in cc
    | inr n' ↦
        spare-AreShared p q (ground arith) (ground arith)
          (reg-eq (spare p) (spare q) (rw (n, n') at e))
  ]
]

-- On the MIPS machine each of the first 8190 slots of a frame, the values and types of Lua
-- registers, has a place, a register or a word of the frame. No two of them share one, but for the
-- type of Lua register 6 and the value of Lua register 7, where registers are allowed.
pub pslot_to_operand-AreShared :
    (p q : ℕ) (stackonly : Bool)
    → p < 8190
    → q < 8190
    → (o : Operand) × (pslot_to_operand mips_mach p stackonly ≡ ok o)
      × (pslot_to_operand mips_mach q stackonly ≡ ok o → AreShared stackonly p q)
pslot_to_operand-AreShared p q stackonly h h' =
    let first = pslot_to_operand-place mips_mach p stackonly (omega arith) in
    let second = pslot_to_operand-place mips_mach q stackonly (omega arith) in
    (
      place mips_mach p stackonly,
      first,
      λ e. place-AreShared p q stackonly h h' (same_place first second e),
    )
  where
    same_place :
        pslot_to_operand mips_mach p stackonly ≡ ok (place mips_mach p stackonly)
        → pslot_to_operand mips_mach q stackonly ≡ ok (place mips_mach q stackonly)
        → pslot_to_operand mips_mach q stackonly ≡ ok (place mips_mach p stackonly)
        → place mips_mach p stackonly ≡ place mips_mach q stackonly
    same_place a b c = cc
