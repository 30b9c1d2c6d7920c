-- ===== src/Frame.antt =====
-- frame.c, and the functions of operand.c that map Lua registers and constants through a frame.
-- Indices of registers and constants are not negative.
pub mod Slots
pub mod Sharing
use too_legit_to_jit.Common.{
  ℕ, ◌+◌, ◌-◌, ◌*◌, Bool, ◌||◌, none, some, ltb, leb, if◌then◌else◌, length, get_elem?, get_or, set,
  assertion, out_of_bounds, Result, ok, fail, and_then,
}
use too_legit_to_jit.Word.{neg32}
use too_legit_to_jit.Operand.{
  Operand, VregOperand, Loperand, op_target_reg, op_target_daddr, op_target_immed,
}
use too_legit_to_jit.Object.{lua_tnumber, lua_tstring}
use too_legit_to_jit.Machine.{Machine, Frame}

-- `f->consts[ k ].value = ...; f->consts[ k ].type = ...`
unfoldable pub set_const : Frame → ℕ → VregOperand → Result Frame
set_const f k o =
    if ltb k (length f.consts)
    then ok (record f { consts = set f.consts k o })
    else fail out_of_bounds

unfoldable pub setk_number : Frame → (k value : ℕ) → Result Frame
unfolding set_const
setk_number f k value =
    set_const f k (record { value = op_target_immed value; type = op_target_immed lua_tnumber })

unfoldable pub setk_string : Frame → (k str : ℕ) → Result Frame
unfolding set_const
setk_string f k str =
    set_const f k (record { value = op_target_immed str; type = op_target_immed lua_tstring })

unfoldable pub vreg_value_offset : ℕ → ℕ
vreg_value_offset idx = neg32 (idx * 8)

unfoldable pub vreg_type_offset : ℕ → ℕ
vreg_type_offset idx = neg32 (idx * 8 + 4)

-- `NR_SPARE_REGS`; where the source's difference is negative, every index is at least 0 as well
unfoldable pub nr_spare_regs : Machine → ℕ
nr_spare_regs m = m.nr_reg - m.nr_temp_regs

unfoldable pub vreg_to_physical_reg : Machine → ℕ → Result ℕ
vreg_to_physical_reg m vreg =
    if ltb (vreg + m.nr_temp_regs) m.nr_reg
    then (elim (get_elem? m.reg (m.nr_temp_regs + vreg)) [
      | none ↦ fail out_of_bounds
      | some r ↦ ok r
    ])
    else fail assertion

-- the stack slot of a value or a type
unfoldable pub slot_offset : ℕ → ℕ
slot_offset pidx = neg32 (8 + 4 * pidx)

unfoldable pub pslot_to_operand : Machine → (pidx : ℕ) → (stackonly : Bool) → Result Operand
unfolding nr_spare_regs slot_offset
pslot_to_operand m pidx stackonly =
    if stackonly || leb (nr_spare_regs m) pidx
    then ok (op_target_daddr m.fp (slot_offset pidx))
    else and_then (vreg_to_physical_reg m pidx) λ r. ok (op_target_reg r)

unfoldable pub vreg_to_operand : Machine → (vreg : ℕ) → (stackonly : Bool) → Result VregOperand
unfolding pslot_to_operand
vreg_to_operand m vreg stackonly = and_then (pslot_to_operand m (vreg * 2) stackonly) λ value.
    and_then (pslot_to_operand m (vreg * 2 + 1) stackonly)
      λ type. ok (record { value = value; type = type })

unfoldable pub const_to_operand : Frame → ℕ → Result VregOperand
const_to_operand f k = elim (get_elem? f.consts k) [ none ↦ fail out_of_bounds | some o ↦ ok o ]

unfoldable pub code_start : Frame → ℕ
code_start f = f.pro

unfoldable pub get_frame_closure : Machine → Operand
get_frame_closure m = op_target_daddr m.fp (neg32 4)

unfoldable pub llocal_to_stack_operand : Machine → ℕ → Result VregOperand
unfolding vreg_to_operand
llocal_to_stack_operand m vreg = vreg_to_operand m vreg Bool.true

unfoldable pub llocal_to_operand : Machine → ℕ → Result VregOperand
unfolding vreg_to_operand
llocal_to_operand m vreg = vreg_to_operand m vreg Bool.false

unfoldable pub lconst_to_operand : Frame → ℕ → Result VregOperand
unfolding const_to_operand
lconst_to_operand f k = const_to_operand f k

unfoldable pub loperand_to_operand : Machine → Frame → Loperand → Result VregOperand
unfolding llocal_to_operand lconst_to_operand
loperand_to_operand m f o =
    if o.islocal then llocal_to_operand m o.index else lconst_to_operand f o.index
