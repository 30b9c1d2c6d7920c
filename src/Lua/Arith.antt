-- ===== src/Lua/Arith.antt =====
-- liarith.c: arithmetic on Lua values. Two numbers are added and so on in place; for other types
-- the code calls `ljc_nonnumeric_bop`.
use too_legit_to_jit.Common.{
  ℕ, ◌-◌, ◌*◌, ◌%◌, ◌^◌, true, ◌&&◌, ◌||◌, Option, none, some, [], ◌∷◌, ◌==◌, if◌then◌else◌,
  undefined, Result, ok, fail, and_then,
}
use too_legit_to_jit.Word.{add32, sub32, sdiv32, smod32}
use too_legit_to_jit.Object.{TValue, lua_tnumber, lua_tstring}
use too_legit_to_jit.Operand.{Operand, Loperand, op_target_reg, op_target_immed, lbl_next}
use too_legit_to_jit.Machine.{
  Frame, MachineOps, Emit, pure, ◌>>=◌, ◌>>◌, check, get_machine, lift_result,
}
use too_legit_to_jit.Temporaries.{acquire_temp, release_temp}
use too_legit_to_jit.Frame.{loperand_to_operand, vreg_to_operand}
use too_legit_to_jit.Synthetic.{mark_local, address_of, vreg_type_fill}
use too_legit_to_jit.Lua.Strings.{Strings, lstrtonum, call_binmevent}

pub data Bop : Type 0 where
  bop_add bop_sub bop_mul bop_div bop_mod bop_pow : Bop

-- the value of the constant
unfoldable pub bop_code : Bop → ℕ
bop_code bop_add = 0
bop_code bop_sub = 1
bop_code bop_mul = 2
bop_code bop_div = 3
bop_code bop_mod = 4
bop_code bop_pow = 5

unfoldable pub tonumber : Strings → TValue → Result (Option ℕ)
tonumber c v =
    if v.t == lua_tnumber
    then ok (some v.v)
    else if v.t == lua_tstring
    then lstrtonum c v
    else ok none

-- C leaves a division by 0, and of the least number by -1, undefined.
unfoldable pub divided : (ℕ → ℕ → ℕ) → ℕ → ℕ → Result ℕ
divided f a b = if b == 0 || (a == 2 ^ 31 && b == 2 ^ 32 - 1) then fail undefined else ok (f a b)

unfoldable pub bop_number : Bop → ℕ → ℕ → Result ℕ
unfolding divided
bop_number bop_add a b = ok (add32 a b)
bop_number bop_sub a b = ok (sub32 a b)
bop_number bop_mul a b = ok (a * b % 2 ^ 32)
bop_number bop_div a b = divided sdiv32 a b
bop_number bop_mod a b = divided smod32 a b
bop_number bop_pow a b = ok 0

-- `b` is not read when `a` is no number.
unfoldable pub both_numbers : Strings → (s t : TValue) → Result (Option (ℕ × ℕ))
unfolding tonumber
both_numbers c s t = and_then (tonumber c s) λ r. elim r [
  | none ↦ ok none
  | some a ↦ and_then (tonumber c t) λ r'. elim r' [ none ↦ ok none | some b ↦ ok (some (a, b)) ]
]

-- The type, which the source stores through `vt`, and the value. Where the handler is missing, the
-- source prints an error and then runs off the end of the function.
unfoldable pub ljc_nonnumeric_bop : Strings → (s t : TValue) → Bop → Result TValue
unfolding both_numbers bop_number call_binmevent
ljc_nonnumeric_bop c s t op = and_then (both_numbers c s t) λ r. elim r [
  | some (a, b) ↦ and_then (bop_number op a b) λ n. ok (record { t = lua_tnumber; v = n })
  | none ↦ elim (call_binmevent s t (bop_code op)) [ some d ↦ ok d | none ↦ fail undefined ]
]

-- `nonnumeric` is the address of `ljc_nonnumeric_bop`.
module _ (mop : MachineOps) (nonnumeric : ℕ) where
  unfoldable pub emit_bop :
      Frame
      → (d s t : Loperand) → (ab : Operand → Operand → Operand → Emit (Unit {0})) → Bop
      → Emit (Unit {0})
  emit_bop f d s t ab op = do
    check d.islocal
    m ← get_machine
    od ← lift_result (loperand_to_operand m f d)
    os ← lift_result (loperand_to_operand m f s)
    ot ← lift_result (loperand_to_operand m f t)
    r ← acquire_temp mop.move
    let tag = op_target_reg r
    mop.bor tag os.type ot.type
    mop.beq tag (op_target_immed 0) (lbl_next 0)
    stack ← lift_result (vreg_to_operand m d.index true)
    address_of mop tag stack.type
    mop.call_static_cfn f nonnumeric (some od.value)
        (os.type ∷ os.value ∷ ot.type ∷ ot.value ∷ op_target_immed (bop_code op) ∷ tag ∷ [])
    vreg_type_fill mop d.index
    mop.b (lbl_next 1)
    mark_local 0
    ab od.value os.value ot.value
    mop.move od.type (op_target_immed lua_tnumber)
    mark_local 1
    _ ← release_temp mop.move
    pure tt

  unfoldable pub emit_add : Frame → (d s t : Loperand) → Emit (Unit {0})
  unfolding emit_bop
  emit_add f d s t = emit_bop f d s t mop.add bop_add

  unfoldable pub emit_sub : Frame → (d s t : Loperand) → Emit (Unit {0})
  unfolding emit_bop
  emit_sub f d s t = emit_bop f d s t mop.sub bop_sub

  unfoldable pub emit_mul : Frame → (d s t : Loperand) → Emit (Unit {0})
  unfolding emit_bop
  emit_mul f d s t = emit_bop f d s t mop.mul bop_mul

  unfoldable pub emit_div : Frame → (d s t : Loperand) → Emit (Unit {0})
  unfolding emit_bop
  emit_div f d s t = emit_bop f d s t mop.sdiv bop_div

  unfoldable pub emit_mod : Frame → (d s t : Loperand) → Emit (Unit {0})
  unfolding emit_bop
  emit_mod f d s t = emit_bop f d s t mop.smod bop_mod
