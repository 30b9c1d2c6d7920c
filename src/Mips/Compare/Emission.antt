-- ===== src/Mips/Compare/Emission.antt =====
-- arch/mips/branch.c: what the six comparisons emit for a register and a register or an immediate.
use too_legit_to_jit.Common.{
  ℕ, ◌^◌, ◌<◌, ◌≡◌, ◌≢◌, refl, inl, inr, Bool-cases, true, false, [], ◌∷◌, ◌==◌, ok, tests,
}
use too_legit_to_jit.Word.{neg32}
use too_legit_to_jit.Operand.{
  Operand, reg, direct_addr, immed, iso_reg, iso_daddr, iso_immed, Label, label_local, label_pc,
}
use too_legit_to_jit.Emitter.{Emitter32, Target, vline, local_label, branch_local, branch_pc}
use too_legit_to_jit.Machine.{Jit, Emit}
use too_legit_to_jit.Temporaries.{release_tempn}
use too_legit_to_jit.Mips.Opcodes.{gen_mips_opcode_2reg, mi_addiu, mi_subu, mi_beq, mi_bne}
use too_legit_to_jit.Mips.Move.{emit}
use too_legit_to_jit.Mips.MoveLaws.{emit_all}
use too_legit_to_jit.Mips.Arithmetic.{
  is_add_immed, is_sub_immed, sub_zero_reg, load_source, acquire_reg, release_reg, do_nonimm_bop,
  validate_operands, do_add_valid, do_add, mips_add, mips_sub,
}
use too_legit_to_jit.Mips.Sums.{sub_immediate-Emits, add_immediate-Emits}
use too_legit_to_jit.Mips.Branch.{
  mips_branch, is_invertible_immed, emiteq, equv_reg_reg, equv_reg_immed, equv_match, do_equv,
  validate_branch, mips_beq, mips_bne, ineq_load_temp, inequality_loaded, mips_inequality, mips_blt,
  mips_bgt, mips_ble, mips_bge,
}
use too_legit_to_jit.Mips.Compare.{
  Comparison, eq, ne, lt, gt, le, ge, block, block_regs, sub_immed, IsComparand, Block,
}

-- the operation of `struct machine_ops` for a comparison
abbrev pub emit_compare : Comparison → Operand → Operand → Label → Emit (Unit {0})
emit_compare eq = mips_beq
emit_compare ne = mips_bne
emit_compare lt = mips_blt
emit_compare gt = mips_bgt
emit_compare le = mips_ble
emit_compare ge = mips_bge

-- a label that the linker resolves, and the note that it needs
abbrev pub label_of : Target → Label
label_of (vline line) = label_pc line
label_of (local_label local isnext) = label_local local isnext

abbrev pub noted : Target → Emitter32 → Emitter32
noted (vline line) e = branch_pc e line
noted (local_label local isnext) e = branch_local e local isnext

-- `f` emits the block, and notes its branch for the linker
abbrev pub EmitsBlock : Emit (Unit {0}) → Target → Block → Type 0
EmitsBlock f to b =
    (j : Jit)
    → f j
      ≡ ok (
        tt,
        record j {
          emitter = emit_all (b.branch ∷ b.slot ∷ []) (noted to (emit_all b.before (j.emitter)));
        },
      )

regs-EmitsBlock :
    (cmp : Comparison) (s t : ℕ) (to : Target)
    → EmitsBlock (emit_compare cmp (reg s) (reg t) (label_of to)) to (block_regs cmp s t)
unfolding mips_beq mips_bne mips_blt mips_bgt mips_ble mips_bge validate_branch do_equv equv_match
    equv_reg_reg emiteq mips_branch iso_reg iso_immed iso_daddr sub_zero_reg mips_inequality
    inequality_loaded ineq_load_temp mips_sub mips_add do_add validate_operands do_add_valid
    acquire_reg load_source release_reg release_tempn is_add_immed is_sub_immed do_nonimm_bop emit
    emit_all mi_subu mi_beq mi_bne branch_local branch_pc
regs-EmitsBlock eq s t (vline line) j = refl
regs-EmitsBlock eq s t (local_label local isnext) j = refl
regs-EmitsBlock ne s t (vline line) j = refl
regs-EmitsBlock ne s t (local_label local isnext) j = refl
regs-EmitsBlock lt s t (vline line) j = refl
regs-EmitsBlock lt s t (local_label local isnext) j = refl
regs-EmitsBlock gt s t (vline line) j = refl
regs-EmitsBlock gt s t (local_label local isnext) j = refl
regs-EmitsBlock le s t (vline line) j = refl
regs-EmitsBlock le s t (local_label local isnext) j = refl
regs-EmitsBlock ge s t (vline line) j = refl
regs-EmitsBlock ge s t (local_label local isnext) j = refl

zero-EmitsBlock :
    (cmp : Comparison) (s : ℕ) (to : Target)
    → EmitsBlock (emit_compare cmp (reg s) (immed 0) (label_of to)) to (block_regs cmp s 0)
unfolding mips_beq mips_bne mips_blt mips_bgt mips_ble mips_bge validate_branch do_equv equv_match
    equv_reg_reg emiteq mips_branch iso_reg iso_immed iso_daddr sub_zero_reg mips_inequality
    inequality_loaded ineq_load_temp mips_sub mips_add do_add validate_operands do_add_valid
    acquire_reg load_source release_reg release_tempn is_add_immed is_sub_immed do_nonimm_bop emit
    emit_all mi_subu mi_beq mi_bne branch_local branch_pc
zero-EmitsBlock eq s (vline line) j = refl
zero-EmitsBlock eq s (local_label local isnext) j = refl
zero-EmitsBlock ne s (vline line) j = refl
zero-EmitsBlock ne s (local_label local isnext) j = refl
zero-EmitsBlock lt s (vline line) j = refl
zero-EmitsBlock lt s (local_label local isnext) j = refl
zero-EmitsBlock gt s (vline line) j = refl
zero-EmitsBlock gt s (local_label local isnext) j = refl
zero-EmitsBlock le s (vline line) j = refl
zero-EmitsBlock le s (local_label local isnext) j = refl
zero-EmitsBlock ge s (vline line) j = refl
zero-EmitsBlock ge s (local_label local isnext) j = refl

equv_immed-EmitsBlock :
    (s k : ℕ) (to : Target)
    → (k == 0) ≡ false
    → is_add_immed (immed k) ≡ true
    → is_sub_immed (immed k) ≡ true
    → EmitsBlock (mips_beq (reg s) (immed k) (label_of to)) to (sub_immed eq s k)
      × EmitsBlock (mips_bne (reg s) (immed k) (label_of to)) to (sub_immed ne s k)
unfolding mips_beq mips_bne validate_branch do_equv equv_match equv_reg_immed emiteq mips_branch
    iso_reg iso_immed iso_daddr sub_zero_reg is_invertible_immed emit emit_all mi_beq mi_bne
equv_immed-EmitsBlock s k (vline line) z h h' = ((λ j. rw (z, h, h') refl), λ j. rw (z, h, h') refl)
equv_immed-EmitsBlock s k (local_label local isnext) z h h' =
    ((λ j. rw (z, h, h') refl), λ j. rw (z, h, h') refl)

-- the subtraction, the branch and the addition of an inequality
inequality-EmitsBlock :
    (s k op sub : ℕ) (to : Target)
    → is_invertible_immed (immed k) ≡ true
    → ((j : Jit)
        → mips_sub (reg s) (reg s) (immed k) j
          ≡ ok (tt, record j { emitter = emit_all (mi_addiu s s (neg32 k) ∷ []) (j.emitter) }))
    → ((j : Jit)
        → mips_add (reg s) (reg s) (immed k) j
          ≡ ok (tt, record j { emitter = emit_all (mi_addiu s s k ∷ []) (j.emitter) }))
    → EmitsBlock (inequality_loaded (reg s) (immed k) (label_of to) op sub) to (record {
      before = mi_addiu s s (neg32 k) ∷ [];
      branch = gen_mips_opcode_2reg op s sub 0;
      slot = mi_addiu s s k;
    })
unfolding inequality_loaded ineq_load_temp iso_reg mips_branch emit emit_all
inequality-EmitsBlock s k op sub (vline line) inv subs adds j = rw (inv, subs j) (adds _)
inequality-EmitsBlock s k op sub (local_label local isnext) inv subs adds j =
    rw (inv, subs j) (adds _)

inequality_immed-EmitsBlock :
    (s k op sub : ℕ) (to : Target)
    → s < 2 ^ 5
    → s ≢ 0
    → (k == 0) ≡ false
    → k < 2 ^ 32
    → is_add_immed (immed k) ≡ true
    → is_add_immed (immed (neg32 k)) ≡ true
    → EmitsBlock (inequality_loaded (reg s) (immed k) (label_of to) op sub) to (record {
      before = mi_addiu s s (neg32 k) ∷ [];
      branch = gen_mips_opcode_2reg op s sub 0;
      slot = mi_addiu s s k;
    })
unfolding is_invertible_immed is_sub_immed
inequality_immed-EmitsBlock s k op sub to small pos z word h h' =
    inequality-EmitsBlock s k op sub to (rw (h, h') refl)
      (sub_immediate-Emits s small pos s k z word h') (add_immediate-Emits s small pos s k z h)

immed-EmitsBlock :
    (cmp : Comparison) (s k : ℕ) (to : Target)
    → s < 2 ^ 5
    → s ≢ 0
    → (k == 0) ≡ false
    → k < 2 ^ 32
    → is_add_immed (immed k) ≡ true
    → is_add_immed (immed (neg32 k)) ≡ true
    → EmitsBlock (emit_compare cmp (reg s) (immed k) (label_of to)) to (sub_immed cmp s k)
unfolding mips_blt mips_bgt mips_ble mips_bge validate_branch mips_inequality iso_immed sub_zero_reg
    is_sub_immed
immed-EmitsBlock eq s k to small pos z word h h' = (equv_immed-EmitsBlock s k to z h h').0
immed-EmitsBlock ne s k to small pos z word h h' = (equv_immed-EmitsBlock s k to z h h').1
immed-EmitsBlock lt s k to small pos z word h h' =
    λ j. rw z (inequality_immed-EmitsBlock s k 1 0 to small pos z word h h' j)
immed-EmitsBlock gt s k to small pos z word h h' =
    λ j. rw z (inequality_immed-EmitsBlock s k 7 0 to small pos z word h h' j)
immed-EmitsBlock le s k to small pos z word h h' =
    λ j. rw z (inequality_immed-EmitsBlock s k 6 0 to small pos z word h h' j)
immed-EmitsBlock ge s k to small pos z word h h' =
    λ j. rw z (inequality_immed-EmitsBlock s k 1 1 to small pos z word h h' j)

-- A comparison of a register with a register or an immediate emits its block.
pub emit_compare-EmitsBlock :
    (cmp : Comparison) (s : ℕ) (t : Operand) (to : Target)
    → s < 2 ^ 5
    → s ≢ 0
    → IsComparand s t
    → EmitsBlock (emit_compare cmp (reg s) t (label_of to)) to (block cmp s t)
emit_compare-EmitsBlock cmp s (reg t) to small pos h = regs-EmitsBlock cmp s t to
emit_compare-EmitsBlock cmp s (direct_addr base offset) to small pos h = absurd h
emit_compare-EmitsBlock cmp s (immed k) to small pos (word, fits, fits') =
    elim (Bool-cases (k == 0)) [
      | inl y ↦ let e : k ≡ 0 = omega (tests, y) in rw e (zero-EmitsBlock cmp s to)
      | inr z ↦ rw z (immed-EmitsBlock cmp s k to small pos z word fits fits')
    ]
