-- ===== src/Mips/Branch.antt =====
-- arch/mips/branch.c, and the direct part of call.c. Each branch is followed by its delay slot.
use too_legit_to_jit.Common.{ℕ, ◌+◌, Bool, true, false, not, ◌&&◌, ◌||◌, if◌then◌else◌, assertion}
use too_legit_to_jit.Word.{sub32, neg32}
use too_legit_to_jit.Operand.{
  Operand, reg, direct_addr, immed, iso_reg, iso_daddr, iso_immed, op_target_reg, Label, label_pc,
  label_local, label_ec, label_absolute,
}
use too_legit_to_jit.Emitter.{ec, branch_pc, branch_local}
use too_legit_to_jit.Machine.{Emit, pure, ◌>>=◌, ◌>>◌, stop, check, when, get_emitter, set_emitter}
use too_legit_to_jit.Temporaries.{acquire_temp, release_temp}
use too_legit_to_jit.Mips.Move.{emit, move}
use too_legit_to_jit.Mips.Arithmetic.{
  is_add_immed, is_sub_immed, sub_zero_reg, reg_of, k_of, mips_add, mips_sub,
}
use too_legit_to_jit.Mips.Opcodes.{
  gen_mips_opcode_2reg, mi_b, mi_j, mi_jr, mi_nop, mi_beq, mi_bne, mi_addiu, mi_subu, mop_bltz,
  mop_bgez, mop_blez, mop_bgtz, r_zero,
}

-- The offset that is known now, or 0 with a note for the linker.
unfoldable pub mips_branch : Label → Emit ℕ
mips_branch (label_local local isnext) = do
  e ← get_emitter
  set_emitter (branch_local e local isnext)
  pure 0
mips_branch (label_pc vline) = do e ← get_emitter; set_emitter (branch_pc e vline); pure 0
mips_branch (label_ec line) = do e ← get_emitter; pure (sub32 line (ec e + 1))
mips_branch (label_absolute abs) = stop assertion

unfoldable pub is_invertible_immed : Operand → Bool
is_invertible_immed t = is_add_immed t && is_sub_immed t

-- the delay slot is a reload of the released register, or nothing
unfoldable pub release_or_nop : Emit (Unit {0})
release_or_nop = do loaded ← release_temp move; when (not loaded) (emit mi_nop)

unfoldable pub mips_b : Label → Emit (Unit {0})
mips_b (label_absolute (immed k)) = do emit (mi_j k); emit mi_nop
mips_b (label_absolute (reg r)) = do emit (mi_jr r); emit mi_nop
mips_b (label_absolute (direct_addr base offset)) = do
  t ← acquire_temp move
  move (op_target_reg t) (direct_addr base offset)
  emit (mi_jr t)
  release_or_nop
mips_b l = do off ← mips_branch l; emit (mi_b off); emit mi_nop

-- `EMITEQ( p, s, t, mips_branch( me, l ) )`
unfoldable pub emiteq : (p : Bool) (s t : ℕ) (l : Label) → Emit (Unit {0})
emiteq p s t l = do off ← mips_branch l; emit (if p then mi_beq s t off else mi_bne s t off)

unfoldable pub equv_reg_reg : (p : Bool) (s t : ℕ) (l : Label) → Emit (Unit {0})
equv_reg_reg p s t l = do emiteq p s t l; emit mi_nop

unfoldable pub equv_reg_daddr : (p : Bool) (s : ℕ) (t : Operand) (l : Label) → Emit (Unit {0})
equv_reg_daddr p s t l = do
  temp ← acquire_temp move
  move (op_target_reg temp) t
  emiteq p s temp l
  release_or_nop

unfoldable pub equv_reg_immed : (p : Bool) (s k : ℕ) (l : Label) → Emit (Unit {0})
equv_reg_immed p s k l = do
  emit (mi_addiu s s (neg32 k))
  emiteq p s r_zero l
  emit (mi_addiu s s k)

unfoldable pub equv_daddr_daddr : (p : Bool) (s t : Operand) (l : Label) → Emit (Unit {0})
equv_daddr_daddr p s t l = do
  t1 ← acquire_temp move
  t2 ← acquire_temp move
  move (op_target_reg t1) s
  move (op_target_reg t2) t
  emit (mi_subu t1 t1 t2)
  _ ← release_temp move
  emiteq p t1 r_zero l
  release_or_nop

unfoldable pub equv_daddr_immed : (p : Bool) (s : Operand) (k : ℕ) (l : Label) → Emit (Unit {0})
equv_daddr_immed p s k l = do
  temp ← acquire_temp move
  move (op_target_reg temp) s
  emit (mi_addiu temp temp (neg32 k))
  emiteq p temp r_zero l
  release_or_nop

-- the patterns in the order of the source; what comes `otherwise` is the `goto rematch`
unfoldable pub equv_match :
    (otherwise : Emit (Unit {0})) (p : Bool) (s t : Operand) (l : Label) → Emit (Unit {0})
equv_match otherwise p s t l =
    if iso_reg s && iso_reg t
    then equv_reg_reg p (reg_of s) (reg_of t) l
    else if iso_reg s && iso_daddr t
    then equv_reg_daddr p (reg_of s) t l
    else if iso_reg s && is_invertible_immed t
    then equv_reg_immed p (reg_of s) (k_of t) l
    else if iso_daddr s && iso_daddr t
    then equv_daddr_daddr p s t l
    else if iso_daddr s && is_invertible_immed t
    then equv_daddr_immed p s (k_of t) l
    else otherwise

-- With the operands swapped at most once.
unfoldable pub do_equv : (s t : Operand) (l : Label) (p : Bool) → Emit (Unit {0})
do_equv s t l p = equv_match (equv_match (stop assertion) p t s l) p s t l

-- `VALIDATE_OPERANDS`: behind its assertion the first operand is no immediate, so that its branch
-- for two immediates is never taken.
unfoldable pub validate_branch :
    (s t : Operand) → (Operand → Operand → Emit (Unit {0})) → Emit (Unit {0})
validate_branch s t continue = do
  check (not (iso_immed s))
  continue (sub_zero_reg s) (sub_zero_reg t)

unfoldable pub mips_beq : (s t : Operand) (l : Label) → Emit (Unit {0})
mips_beq s t l = validate_branch s t λ s' t'. do_equv s' t' l true

unfoldable pub mips_bne : (s t : Operand) (l : Label) → Emit (Unit {0})
mips_bne s t l = validate_branch s t λ s' t'. do_equv s' t' l false

-- The operand and whether a temporary holds it.
unfoldable pub ineq_load_temp : Operand → Emit (Operand × Bool)
ineq_load_temp op =
    if iso_reg op || is_invertible_immed op
    then pure (op, false)
    else (do t ← acquire_temp move; move (op_target_reg t) op; pure (op_target_reg t, true))

-- `mips_inequality` once its first operand is no immediate
unfoldable pub inequality_loaded : (s t : Operand) (l : Label) (op subop : ℕ) → Emit (Unit {0})
inequality_loaded s t l op subop = do
  (s', iss) ← ineq_load_temp s
  (t', ist) ← ineq_load_temp t
  let d = if iss then s' else if ist then t' else s'
  mips_sub d s' t'
  when (iss && ist) (do _ ← release_temp move; pure tt)
  off ← mips_branch l
  emit (gen_mips_opcode_2reg op (reg_of d) subop off)
  if iss || ist then release_or_nop else mips_add d d t'

-- With an immediate in front, the operands and the comparison are turned round.
unfoldable pub mips_inequality :
    (s t : Operand) (l : Label) (op subop antiop antisubop : ℕ) → Emit (Unit {0})
mips_inequality s t l op subop antiop antisubop = do
  check (not (iso_immed s && iso_immed t))
  if iso_immed s then inequality_loaded t s l antiop antisubop else inequality_loaded s t l op subop

unfoldable pub mips_blt : (s t : Operand) (l : Label) → Emit (Unit {0})
mips_blt s t l = validate_branch s t λ s' t'. mips_inequality s' t' l mop_bltz 0 mop_bgtz 0

unfoldable pub mips_bgt : (s t : Operand) (l : Label) → Emit (Unit {0})
mips_bgt s t l = validate_branch s t λ s' t'. mips_inequality s' t' l mop_bgtz 0 mop_bltz 0

unfoldable pub mips_ble : (s t : Operand) (l : Label) → Emit (Unit {0})
mips_ble s t l = validate_branch s t λ s' t'. mips_inequality s' t' l mop_blez 0 mop_bgez 1

unfoldable pub mips_bge : (s t : Operand) (l : Label) → Emit (Unit {0})
mips_bge s t l = validate_branch s t λ s' t'. mips_inequality s' t' l mop_bgez 1 mop_blez 0
