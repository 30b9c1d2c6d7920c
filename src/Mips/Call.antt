-- ===== src/Mips/Call.antt =====
-- arch/mips/call.c: calls of translated code and of C functions. `buffer` is the address at which
-- the reallocator has put an emitter's buffer.
use too_legit_to_jit.Common.{
  ℕ, zero, suc, take, drop, ◌+◌, ◌-◌, ◌*◌, Bool, true, false, not, ◌||◌, Option, none, some, List,
  [], ◌∷◌, ltb, ◌==◌, if◌then◌else◌, length, get_or, out_of_fuel, Result, ok, and_then,
}
use too_legit_to_jit.Word.{bitfield_decode}
use too_legit_to_jit.Operand.{
  Operand, immed, op_target_reg, op_target_daddr, op_target_immed, Label, label_absolute,
}
use too_legit_to_jit.Emitter.{Emitter32, absc}
use too_legit_to_jit.Machine.{
  Machine, Frame, Emit, pure, ◌>>=◌, ◌>>◌, stop, check, when, get_machine, get_emitter, lift_result,
}
use too_legit_to_jit.Temporaries.{
  temps_accessed, has_spill, acquire_temp, release_tempn, load_coregisters,
}
use too_legit_to_jit.Frame.{vreg_to_operand}
use too_legit_to_jit.Jitfunc.{JFuncs, jf_arch_idx, jfunc_unlimited_stack, jfuncs_get, jfunc_call}
use too_legit_to_jit.Mips.Opcodes.{mi_jal, mi_jalr, mi_jr, mi_bal, mi_nop, r_ra, r_a0, r_t0, r_v0}
use too_legit_to_jit.Mips.Move.{emit, move, is_mips_temp}
use too_legit_to_jit.Mips.Arithmetic.{reg_of, mips_add, mips_sub}
use too_legit_to_jit.Mips.Branch.{mips_branch, release_or_nop}
use too_legit_to_jit.Mips.Calling.{is_arg_reg, assign_arg_regs, dep_graph}

abbrev pub args_by_reg : ℕ
args_by_reg = 4

abbrev pub mjf_storetemp : ℕ
mjf_storetemp = 0

abbrev pub mjf_loadtemp : ℕ
mjf_loadtemp = 1

abbrev pub mjf_count : ℕ
mjf_count = 2

-- where to enter the section `idx` of arch/mips/jfunc.c, so that it handles `nr_locals` registers
abbrev mjf_offset : (idx : ℕ) → JFuncs → Machine → (nr_locals : ℕ) → Result ℕ
mjf_offset idx t m nr_locals =
    and_then (jfuncs_get t (jf_arch_idx idx))
      λ j. ok ((m.nr_reg - m.nr_temp_regs - 2 * nr_locals) * j.func_data)

unfoldable pub mjf_storetemp_offset : JFuncs → Machine → (nr_locals : ℕ) → Result ℕ
mjf_storetemp_offset = mjf_offset mjf_storetemp

unfoldable pub mjf_loadtemp_offset : JFuncs → Machine → (nr_locals : ℕ) → Result ℕ
mjf_loadtemp_offset = mjf_offset mjf_loadtemp

unfoldable pub mips_ret : Emit (Unit {0})
mips_ret = do emit (mi_jr r_ra); emit mi_nop

unfoldable pub is_temp_vreg : Machine → (i : ℕ) → Result Bool
is_temp_vreg m i =
    and_then (vreg_to_operand m i false) λ on. ok (is_mips_temp on.value || is_mips_temp on.type)

-- the loop of `is_any_temps`, from register `i` down to 0
unfoldable pub any_temps_from : Machine → (i : ℕ) → Result Bool
unfolding is_temp_vreg
any_temps_from m zero = is_temp_vreg m 0
any_temps_from m (suc i) =
    and_then (is_temp_vreg m (suc i)) λ found. if found then ok true else any_temps_from m i

unfoldable pub is_any_temps : Machine → Frame → Result Bool
unfolding any_temps_from
is_any_temps m f = any_temps_from m f.nr_locals

-- `while( temps_accessed( f->m ) < enough )`, on fuel, with the number of temporaries taken
unfoldable pub acquire_temps : (fuel enough : ℕ) → Emit ℕ
acquire_temps zero enough = do
  m ← get_machine
  if ltb (temps_accessed m) enough then stop out_of_fuel else pure 0
acquire_temps (suc fuel) enough = do
  m ← get_machine
  if ltb (temps_accessed m) enough
      then (do _ ← acquire_temp move; n ← acquire_temps fuel enough; pure (n + 1))
      else pure 0

-- the arguments behind the first four, on the stack
unfoldable pub store_args : (sp off : ℕ) → List Operand → Emit (Unit {0})
store_args sp off [] = pure tt
store_args sp off (o ∷ os) = do move (op_target_daddr sp off) o; store_args sp (off + 4) os

-- the arguments from number `i` on that come from no argument register
unfoldable pub load_args : (i : ℕ) → List Operand → Emit (Unit {0})
load_args i [] = pure tt
load_args i (o ∷ os) = do
  when (not (is_arg_reg o)) (move (op_target_reg (r_a0 + i)) o)
  load_args (i + 1) os

module _ (buffer : Emitter32 → ℕ) where
  unfoldable pub is_safe_direct_call : (k : ℕ) → Emit Bool
  is_safe_direct_call k = do
    e ← get_emitter
    pure (bitfield_decode 28 4 k == bitfield_decode 28 4 (absc (buffer e) e))

  unfoldable pub safe_direct_call : (k : ℕ) → Emit (Unit {0})
  safe_direct_call k = do
    safe ← is_safe_direct_call k
    if safe then (do emit (mi_jal k); emit mi_nop) else (do
      jr ← acquire_temp move
      move (op_target_reg jr) (op_target_immed k)
      emit (mi_jalr jr)
      release_or_nop
      emit mi_nop)

  unfoldable pub mips_call : Label → Emit (Unit {0})
  mips_call (label_absolute (immed k)) = safe_direct_call k
  mips_call (label_absolute abs) = do
    (fn, temps) ← load_coregisters move (abs ∷ [])
    emit (mi_jalr (reg_of (get_or fn 0 abs)))
    emit mi_nop
    release_tempn move temps
  mips_call l = do off ← mips_branch l; emit (mi_bal off); emit mi_nop

  -- `fn` is the address of a C function; the result goes to `r`, if there is one.
  unfoldable pub mips_static_ccall :
      JFuncs → Frame → (fn : ℕ) → (r : Option Operand) → (args : List Operand) → Emit (Unit {0})
  mips_static_ccall t f fn r args = do
    m ← get_machine
    check (not (has_spill m))
    require_tspill ← lift_result (is_any_temps m f)
    let by_reg = take args_by_reg args
    let sp = op_target_reg m.sp
    let ds = op_target_immed (4 * (if ltb (length args) 4 then 4 else length args))
    counter ← acquire_temps args_by_reg (length by_reg)
    when require_tspill (do
      m' ← get_machine
      off ← lift_result (mjf_storetemp_offset t m' f.nr_locals)
      jfunc_call mips_call buffer t (jf_arch_idx mjf_storetemp) off jfunc_unlimited_stack)
    mips_sub sp sp ds
    store_args m.sp 16 (drop args_by_reg args)
    assign_arg_regs move args_by_reg (dep_graph args_by_reg args)
    load_args 0 by_reg
    safe ← is_safe_direct_call fn
    when (not safe) (move (op_target_reg r_t0) (op_target_immed fn))
    mips_call (label_absolute (if safe then op_target_immed fn else op_target_reg r_t0))
    mips_add sp sp ds
    release_tempn move counter
    when require_tspill (do
      m' ← get_machine
      off ← lift_result (mjf_loadtemp_offset t m' f.nr_locals)
      jfunc_call mips_call buffer t (jf_arch_idx mjf_loadtemp) off jfunc_unlimited_stack)
    elim r [ none ↦ pure tt | some d ↦ move d (op_target_reg r_v0) ]
