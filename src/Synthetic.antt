-- ===== src/Synthetic.antt =====
-- synthetic.c: instructions that are put together from those of the machine.
pub mod Minimum
use too_legit_to_jit.Common.{ℕ, ◌+◌, ◌*◌, true, false, none, some, List, [], ◌∷◌, length, assertion}
use too_legit_to_jit.Word.{neg32}
use too_legit_to_jit.Operand.{
  Operand, direct_addr, VregOperand, iso_reg, op_target_reg, op_target_daddr, op_target_immed,
  lbl_next, lbl_prev,
}
use too_legit_to_jit.Emitter
use too_legit_to_jit.Machine.{
  MachineOps, Emit, pure, ◌>>=◌, ◌>>◌, stop, when, get_machine, lift_emitter, lift_result,
}
use too_legit_to_jit.Temporaries.{acquire_temp, release_tempn}
use too_legit_to_jit.Frame.{vreg_to_operand}

-- `e->ops->label_local( e, local )`
abbrev pub mark_local : ℕ → Emit (Unit {0})
mark_local local = lift_emitter λ e. Emitter.label_local e local

module _ (mop : MachineOps) where
  unfoldable pub assign : (d s : VregOperand) → Emit (Unit {0})
  assign d s = do mop.move d.value s.value; mop.move d.type s.type

  unfoldable pub loadim : (r value : ℕ) → Emit (Unit {0})
  loadim r value = mop.move (op_target_reg r) (op_target_immed value)

  -- the moves of `pushn`, from the operand `i` on
  unfoldable pub push_moves : (sp i : ℕ) → List Operand → Emit (Unit {0})
  push_moves sp i [] = pure tt
  push_moves sp i (o ∷ os) = do
    mop.move (op_target_daddr sp (neg32 (4 * (i + 1)))) o
    push_moves sp (i + 1) os

  unfoldable pub push_all : List Operand → Emit (Unit {0})
  unfolding push_moves
  push_all os = do
    m ← get_machine
    push_moves m.sp 0 os
    mop.add (op_target_reg m.sp) (op_target_reg m.sp) (op_target_immed (neg32 (4 * length os)))

  -- A single operand is pushed by the machine, where it has an instruction for it.
  unfoldable pub pushn : List Operand → Emit (Unit {0})
  unfolding push_all
  pushn (o ∷ []) = elim mop.push [ some push ↦ push o | none ↦ push_all (o ∷ []) ]
  pushn os = push_all os

  unfoldable pub pop_moves : (sp i : ℕ) → List Operand → Emit (Unit {0})
  pop_moves sp i [] = pure tt
  pop_moves sp i (o ∷ os) = do mop.move o (op_target_daddr sp (4 * i)); pop_moves sp (i + 1) os

  unfoldable pub pop_all : List Operand → Emit (Unit {0})
  unfolding pop_moves
  pop_all os = do
    m ← get_machine
    pop_moves m.sp 0 os
    mop.add (op_target_reg m.sp) (op_target_reg m.sp) (op_target_immed (4 * length os))

  unfoldable pub popn : List Operand → Emit (Unit {0})
  unfolding pop_all
  popn (o ∷ []) = elim mop.pop [ some pop ↦ pop o | none ↦ pop_all (o ∷ []) ]
  popn os = pop_all os

  unfoldable pub address_of : (d s : Operand) → Emit (Unit {0})
  address_of d (direct_addr base offset) = mop.add d (op_target_reg base) (op_target_immed offset)
  address_of d _ = stop assertion

  unfoldable pub vreg_type_fill : ℕ → Emit (Unit {0})
  vreg_type_fill vreg = do
    m ← get_machine
    on ← lift_result (vreg_to_operand m vreg false)
    off ← lift_result (vreg_to_operand m vreg true)
    when (iso_reg on.type) (mop.move on.type off.type)

  unfoldable pub vreg_fill : ℕ → Emit (Unit {0})
  vreg_fill vreg = do
    m ← get_machine
    on ← lift_result (vreg_to_operand m vreg false)
    off ← lift_result (vreg_to_operand m vreg true)
    when (iso_reg on.value) (mop.move on.value off.value)
    when (iso_reg on.type) (mop.move on.type off.type)

  unfoldable pub vreg_spill : ℕ → Emit (Unit {0})
  vreg_spill vreg = do
    m ← get_machine
    on ← lift_result (vreg_to_operand m vreg false)
    off ← lift_result (vreg_to_operand m vreg true)
    when (iso_reg on.value) (mop.move off.value on.value)
    when (iso_reg on.type) (mop.move off.type on.type)

  unfoldable pub syn_memcpyw : (d s size : Operand) → Emit (Unit {0})
  syn_memcpyw d s size = do
    iter ← acquire_temp mop.move
    src ← acquire_temp mop.move
    dst ← acquire_temp mop.move
    mop.move (op_target_reg iter) (op_target_immed 0)
    mop.move (op_target_reg src) s
    mop.move (op_target_reg dst) d
    mark_local 0
    mop.beq (op_target_reg iter) size (lbl_next 0)
    mop.move (op_target_daddr dst 0) (op_target_daddr src 0)
    mop.add (op_target_reg dst) (op_target_reg dst) (op_target_immed (neg32 4))
    mop.add (op_target_reg src) (op_target_reg src) (op_target_immed (neg32 4))
    mop.add (op_target_reg iter) (op_target_reg iter) (op_target_immed 1)
    mop.b (lbl_prev 0)
    mark_local 0
    release_tempn mop.move 3

  unfoldable pub syn_memsetw : (d v size : Operand) → Emit (Unit {0})
  syn_memsetw d v size = do
    iter ← acquire_temp mop.move
    dst ← acquire_temp mop.move
    mop.move (op_target_reg iter) (op_target_immed 0)
    mop.move (op_target_reg dst) d
    mark_local 0
    mop.beq (op_target_reg iter) size (lbl_next 0)
    mop.move (op_target_daddr dst 0) v
    mop.add (op_target_reg dst) (op_target_reg dst) (op_target_immed 4)
    mop.add (op_target_reg iter) (op_target_reg iter) (op_target_immed 1)
    mop.b (lbl_prev 0)
    mark_local 0
    release_tempn mop.move 2

  unfoldable pub syn_min : (d s t : Operand) → Emit (Unit {0})
  syn_min d s t = do
    mop.blt s t (lbl_next 0)
    mop.move d t
    mop.b (lbl_next 1)
    mark_local 0
    mop.move d s
    mark_local 1

  -- the same body as `syn_min`, as in the source
  unfoldable pub syn_max : (d s t : Operand) → Emit (Unit {0})
  syn_max d s t = do
    mop.blt s t (lbl_next 0)
    mop.move d t
    mop.b (lbl_next 1)
    mark_local 0
    mop.move d s
    mark_local 1
