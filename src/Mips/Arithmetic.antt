-- ===== src/Mips/Arithmetic.antt =====
-- arch/mips/arithmetic.c. Where the source changes an operand through a pointer, the function
-- returns the new one.
use Prim.Native.Nat.{bit_or}
use too_legit_to_jit.Common.{
  ℕ, ◌+◌, ◌-◌, ◌*◌, ◌%◌, ◌^◌, Bool, true, false, not, ◌&&◌, ◌||◌, ltb, leb, ◌==◌, if◌then◌else◌,
  undefined,
}
use too_legit_to_jit.Word.{add32, sub32, neg32, sdiv32, smod32, ispowerof2, ilog2}
use too_legit_to_jit.Operand.{
  Operand, reg, direct_addr, immed, iso_reg, iso_immed, op_target_reg, op_target_immed,
}
use too_legit_to_jit.Machine.{Emit, pure, ◌>>=◌, ◌>>◌, stop, check, when}
use too_legit_to_jit.Temporaries.{acquire_temp, release_tempn}
use too_legit_to_jit.Mips.Move.{emit, move}
use too_legit_to_jit.Mips.Opcodes.{
  gen_mips_opcode_3reg, mi_addiu, mi_addu, mi_negu, mi_sll, mi_sra, mi_srl, mop_special,
  mop_special2, mop_special2_mul, mop_special_or, mop_special_div, mop_special_divu,
  mop_special_mflo, mop_special_mfhi, mop_special_subu, r_zero,
}

-- `o.k >= -32768 && o.k <= 32767`
unfoldable pub is_add_immed : Operand → Bool
is_add_immed (immed k) = ltb k 32768 || leb (2 ^ 32 - 32768) k
is_add_immed _ = false

unfoldable pub is_sub_immed : Operand → Bool
unfolding is_add_immed
is_sub_immed (immed k) = is_add_immed (immed (neg32 k))
is_sub_immed _ = false

-- `sub_zero_reg` of include/arch/mips/machine.h
unfoldable pub sub_zero_reg : Operand → Operand
sub_zero_reg (immed k) = if k == 0 then reg 0 else immed k
sub_zero_reg o = o

-- the fields `reg` and `k` of an operand, which the source reads where the tag says that they are
-- set
abbrev pub reg_of : Operand → ℕ
reg_of (reg r) = r
reg_of _ = 0

abbrev pub k_of : Operand → ℕ
k_of (immed k) = k
k_of _ = 0

-- `o.tag == OT_REG && o.reg == r`
unfoldable pub is_reg : Operand → ℕ → Bool
is_reg (reg r') r = r' == r
is_reg _ r = false

-- `struct aq_reg` with the operands that `acquire_reg` leaves
pub record AqReg : Type 0 where
  pub orig : Operand
  pub n : ℕ
  pub d : Operand
  pub s : Operand
  pub t : Operand

-- One of the two blocks of `acquire_reg`: the operand `s` in a register, with `d` in one, and the
-- other operand `t`; the number of temporaries taken comes with it.
unfoldable pub load_source : (allowimmed : Bool) (d s t : Operand) → Emit (Operand × ℕ)
load_source allowimmed d s t =
    if iso_reg s || (is_add_immed s && allowimmed)
    then pure (s, 0)
    else if is_reg t (reg_of d)
    then (do r ← acquire_temp move; move (op_target_reg r) s; pure (op_target_reg r, 1))
    else (do move d s; pure (d, 0))

unfoldable pub acquire_reg : (allowimmed : Bool) (d s t : Operand) → Emit AqReg
acquire_reg allowimmed d s t = do
  check (not (iso_immed d) && not (iso_immed s))
  (d', n) ←
      (if iso_reg d then pure (d, 0) else (do r ← acquire_temp move; pure (op_target_reg r, 1)))
  (s', n') ← load_source allowimmed d' s t
  (t', n'') ← load_source allowimmed d' t s'
  pure (record { orig = d; n = n + n' + n''; d = d'; s = s'; t = t' })

unfoldable pub release_reg : AqReg → Emit (Unit {0})
release_reg a = do
  elim a.orig [
    | direct_addr base offset ↦ (do check (iso_reg a.d); move (direct_addr base offset) a.d)
    | _ ↦ pure tt
  ]
  release_tempn move a.n

unfoldable pub do_nonimm_bop :
    (d s t : Operand) (op special : ℕ) (isdiv islow : Bool) → Emit (Unit {0})
do_nonimm_bop d s t op special isdiv islow = do
  a ← acquire_reg false d s t
  check (iso_reg a.d && iso_reg a.s && iso_reg a.t)
  emit (
      gen_mips_opcode_3reg special (reg_of a.s) (reg_of a.t) (if isdiv then r_zero else reg_of a.d)
        op)
  when isdiv (
      emit (
        gen_mips_opcode_3reg mop_special r_zero r_zero (reg_of a.d)
          (if islow then mop_special_mflo else mop_special_mfhi)))
  release_reg a

-- `VALIDATE_OPERANDS`: two immediates are folded into a move, and otherwise the code that follows
-- gets the operands with a zero replaced by the zero register.
unfoldable pub validate_operands :
    (fold : ℕ → ℕ → Emit ℕ) (d s t : Operand)
    → (Operand → Operand → Emit (Unit {0}))
    → Emit (Unit {0})
validate_operands fold d s t continue = do
  check (not (iso_immed d))
  if iso_immed s && iso_immed t
      then (do k ← fold (k_of s) (k_of t); move d (op_target_immed k))
      else continue (sub_zero_reg s) (sub_zero_reg t)

abbrev pub fold_with : (ℕ → ℕ → ℕ) → ℕ → ℕ → Emit ℕ
fold_with f a b = pure (f a b)

-- a division that C leaves undefined: by 0, and of the least `int` by -1
abbrev pub fold_div : (ℕ → ℕ → ℕ) → ℕ → ℕ → Emit ℕ
fold_div f a b = if b == 0 || (a == 2 ^ 31 && b == 2 ^ 32 - 1) then stop undefined else pure (f a b)

-- `do_add` behind its `VALIDATE_OPERANDS`
unfoldable pub do_add_valid : (negate : Bool) (d s t : Operand) → Emit (Unit {0})
do_add_valid negate d s t = do
  check (not (iso_immed s && iso_immed t) && not (iso_immed d))
  let swapped = is_add_immed s
  a ← acquire_reg true d (if swapped then t else s) (if swapped then s else t)
  check (iso_reg a.d && iso_reg a.s)
  if iso_immed a.t
      then emit (mi_addiu (reg_of a.d) (reg_of a.s) (k_of a.t))
      else emit (mi_addu (reg_of a.d) (reg_of a.s) (reg_of a.t))
  when negate (emit (mi_negu (reg_of a.d) (reg_of a.d)))
  release_reg a

unfoldable pub do_add : (d s t : Operand) (negate : Bool) → Emit (Unit {0})
do_add d s t negate = validate_operands (fold_with add32) d s t (do_add_valid negate d)

unfoldable pub mips_add : (d s t : Operand) → Emit (Unit {0})
mips_add d s t = do_add d s t false

unfoldable pub mips_sub : (d s t : Operand) → Emit (Unit {0})
mips_sub d s t = validate_operands (fold_with sub32) d s t λ s' t'. do
  check (not (iso_immed s' && iso_immed t') && not (iso_immed d))
  if is_sub_immed s'
      then do_add d t' (op_target_immed (neg32 (k_of s'))) true
      else if is_sub_immed t'
      then do_add d s' (op_target_immed (neg32 (k_of t'))) false
      else do_nonimm_bop d s' t' mop_special_subu mop_special false false

-- `is_add_immed( o ) && ispowerof2( o.k )`
unfoldable pub is_power_immed : Operand → Bool
is_power_immed o = is_add_immed o && ispowerof2 (k_of o)

-- a shift in place of a multiplication or a division by a power of 2
unfoldable pub do_shift : (mi_shift : ℕ → ℕ → ℕ → ℕ) (d s t : Operand) → Emit (Unit {0})
do_shift mi_shift d s t = do
  let sk = ilog2 (k_of t)
  a ← acquire_reg true d s t
  check (iso_reg a.d && iso_reg a.s && iso_immed a.t)
  emit (mi_shift (reg_of a.d) (reg_of a.s) sk)
  release_reg a

unfoldable pub mips_mul : (d s t : Operand) → Emit (Unit {0})
mips_mul d s t = validate_operands (fold_with λ a b. a * b % 2 ^ 32) d s t λ s' t'.
    (let swapped = is_power_immed s' in
      let s'' = if swapped then t' else s' in
      let t'' = if swapped then s' else t' in
      if is_power_immed t''
      then do_shift mi_sll d s'' t''
      else do_nonimm_bop d s'' t'' mop_special2_mul mop_special2 false false)

unfoldable pub mips_or : (d s t : Operand) → Emit (Unit {0})
mips_or d s t =
    validate_operands (fold_with bit_or) d s t
      λ s' t'. do_nonimm_bop d s' t' mop_special_or mop_special false false

unfoldable pub mips_div : (d s t : Operand) (issigned : Bool) → Emit (Unit {0})
mips_div d s t issigned = validate_operands (fold_div sdiv32) d s t λ s' t'.
    if is_power_immed t'
    then do_shift (if issigned then mi_sra else mi_srl) d s' t'
    else do_nonimm_bop d s' t' (if issigned then mop_special_div else mop_special_divu) mop_special
        true true

unfoldable pub mips_sdiv : (d s t : Operand) → Emit (Unit {0})
mips_sdiv d s t = mips_div d s t true

unfoldable pub mips_udiv : (d s t : Operand) → Emit (Unit {0})
mips_udiv d s t = mips_div d s t false

unfoldable pub mips_smod : (d s t : Operand) → Emit (Unit {0})
mips_smod d s t =
    validate_operands (fold_div smod32) d s t
      λ s' t'. do_nonimm_bop d s' t' mop_special_div mop_special true false

-- without `VALIDATE_OPERANDS`
unfoldable pub mips_umod : (d s t : Operand) → Emit (Unit {0})
mips_umod d s t = do_nonimm_bop d s t mop_special_divu mop_special true false

-- not written yet in the source
unfoldable pub mips_pow : (d s t : Operand) → Emit (Unit {0})
mips_pow d s t = pure tt
