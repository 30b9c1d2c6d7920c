-- ===== src/Frame/Slots.antt =====
-- Where Lua registers live: in a register of the table behind the temporaries, or in the frame.
use too_legit_to_jit.Common.{
  ℕ, ◌+◌, ◌≤◌, ◌<◌, ◌≡◌, refl, inl, inr, Bool, true, false, ◌||◌, if◌then◌else◌, Bool-cases, ltb,
  leb, length, get_or, get_elem?-get_or, ok, tests, arith,
}
use too_legit_to_jit.Word.{sext16}
use too_legit_to_jit.Operand.{Operand, reg, direct_addr, op_target_reg, op_target_daddr}
use too_legit_to_jit.Machine.{Machine}
use too_legit_to_jit.Frame.{nr_spare_regs, vreg_to_physical_reg, slot_offset, pslot_to_operand}

-- where the slot `p` is
abbrev pub place : Machine → ℕ → Bool → Operand
place m p stackonly =
    if stackonly || leb (nr_spare_regs m) p
    then direct_addr m.fp (sext16 (slot_offset p))
    else reg (get_or m.reg (m.nr_temp_regs + p) 0)

vreg_to_physical_reg-listed :
    (m : Machine) (p : ℕ)
    → m.nr_reg ≤ length m.reg
    → p < nr_spare_regs m
    → vreg_to_physical_reg m p ≡ ok (get_or m.reg (m.nr_temp_regs + p) 0)
unfolding vreg_to_physical_reg nr_spare_regs
vreg_to_physical_reg-listed m p v h =
    let inside : ltb (p + m.nr_temp_regs) m.nr_reg ≡ true = omega tests in
    rw (inside, get_elem?-get_or m.reg (m.nr_temp_regs + p) 0 (omega (arith, v)))

pub pslot_to_operand-place :
    (m : Machine) (p : ℕ) (stackonly : Bool)
    → m.nr_reg ≤ length m.reg
    → pslot_to_operand m p stackonly ≡ ok (place m p stackonly)
unfolding pslot_to_operand op_target_daddr op_target_reg
pslot_to_operand-place m p true v = refl
pslot_to_operand-place m p false v = elim (Bool-cases (leb (nr_spare_regs m) p)) [
  | inl y ↦ rw y
  | inr no_stack ↦ rw (no_stack, vreg_to_physical_reg-listed m p v (ground arith))
]
