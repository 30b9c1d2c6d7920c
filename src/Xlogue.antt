-- ===== src/Xlogue.antt =====
-- xlogue.c: calls and returns between Lua functions, and the prologue. Registers of Lua functions
-- are numbered from 0, and counts of arguments and results are not negative.
pub mod Sections
pub mod Table
pub mod Invoke
pub mod Returns
pub mod Nilling
pub mod Copying
use too_legit_to_jit.Common.{
  ℕ, zero, suc, ◌+◌, ◌-◌, ◌*◌, none, some, List, [], ◌∷◌, ltb, leb, ◌==◌, if◌then◌else◌, true,
  false, get_elem?, out_of_bounds,
}
use too_legit_to_jit.Word.{neg32}
use too_legit_to_jit.Operand.{Operand, iso_daddr, op_target_reg, op_target_immed, label_absolute}
use too_legit_to_jit.Emitter.{Emitter32}
use too_legit_to_jit.Machine.{
  Frame, MachineOps, Emit, pure, ◌>>=◌, ◌>>◌, stop, check, when, get_machine, get_emitter,
  lift_result,
}
use too_legit_to_jit.Temporaries.{
  temps_accessed, acquire_temp, release_tempn, disable_spill, enable_spill,
}
use too_legit_to_jit.Frame.{vreg_to_operand}
use too_legit_to_jit.Stack.{save_frame_limit}
use too_legit_to_jit.Stack.Sections.{jf_loadlocal_offset}
use too_legit_to_jit.Synthetic.{address_of}
use too_legit_to_jit.Jitfunc.{
  JFuncs, jfunc_call, jfunc_addr, jfunc_unlimited_stack, jf_arg_res_cpy, jf_load_locals,
  jf_epilogue, jf_prologue, jf_varres_postcall,
}

unfoldable pub stack_frame_size : (nr_locals : ℕ) → ℕ
stack_frame_size nr_locals = nr_locals * 8 + 4 * 4

-- two uses of the argument registers
abbrev pub ra_nr_args : ℕ
ra_nr_args = 0

abbrev pub ra_base : ℕ
ra_base = 1

abbrev pub ra_count : ℕ
ra_count = 2

abbrev pub ra_exist : ℕ
ra_exist = 0

abbrev pub ra_src : ℕ
ra_src = 1

abbrev pub ra_dst : ℕ
ra_dst = 2

abbrev pub ra_expect : ℕ
ra_expect = 3

abbrev pub ra_size : ℕ
ra_size = 4

-- `rargs[ i ]`
unfoldable pub rarg : List Operand → ℕ → Emit Operand
rarg rargs i = elim (get_elem? rargs i) [ none ↦ stop out_of_bounds | some o ↦ pure o ]

module _ (mop : MachineOps) where
  -- the loop of `prefer_nontemp_acquire_reg` from `i` on, with `left` registers to go
  unfoldable pub acquire_regs : (left i : ℕ) → Emit (List Operand)
  acquire_regs zero i = pure []
  acquire_regs (suc left) i = do
    m ← get_machine
    r ←
        (if ltb i (m.nr_reg - m.nr_temp_regs)
          then (elim (get_elem? m.reg (m.nr_temp_regs + i)) [
            | none ↦ stop out_of_bounds
            | some r ↦ pure r
          ])
          else acquire_temp mop.move)
    rs ← acquire_regs left (i + 1)
    pure (op_target_reg r ∷ rs)

  unfoldable pub prefer_nontemp_acquire_reg : (n : ℕ) → Emit (List Operand)
  unfolding acquire_regs
  prefer_nontemp_acquire_reg n = do
    m ← get_machine
    check (leb n m.nr_reg)
    reg ← acquire_regs n 0
    _ ← disable_spill
    pure reg

  unfoldable pub prefer_nontemp_release_reg : (n : ℕ) → Emit (Unit {0})
  prefer_nontemp_release_reg n = do
    m ← get_machine
    release_tempn mop.move (n - (m.nr_reg - m.nr_temp_regs))
    enable_spill

-- `buffer` is the address of an emitter's buffer, and `t` the table of the shared sections.
module _ (mop : MachineOps) (buffer : Emitter32 → ℕ) (t : JFuncs) where
  abbrev pub call_section : (idx off maxstack : ℕ) → Emit (Unit {0})
  call_section = jfunc_call mop.call buffer t

  unfoldable pub precall : Frame → (vregbase narg nret : ℕ) → Emit (Unit {0})
  precall f vregbase narg nret = do
    m ← get_machine
    check (temps_accessed m == 0)
    check (leb (ra_count + 1) m.nr_reg)
    _ ← lift_result (vreg_to_operand m vregbase false)
    cstack ← lift_result (vreg_to_operand m vregbase true)
    check (iso_daddr cstack.value)
    rargs ← prefer_nontemp_acquire_reg mop ra_count
    nr_args ← rarg rargs ra_nr_args
    base ← rarg rargs ra_base
    if ltb 0 narg then mop.move nr_args (op_target_immed (narg - 1)) else (do
      mop.add nr_args (op_target_reg m.fp) (op_target_immed (neg32 (8 * (2 + vregbase))))
      mop.sub nr_args nr_args (op_target_reg m.sp)
      mop.udiv nr_args nr_args (op_target_immed 8))
    address_of mop base cstack.value
    call_section jf_prologue 0 jfunc_unlimited_stack
    prefer_nontemp_release_reg mop ra_count

  unfoldable pub postcall : Frame → (vregbase narg nret : ℕ) → Emit (Unit {0})
  postcall f vregbase narg nret = do
    m ← get_machine
    _ ← lift_result (vreg_to_operand m vregbase true)
    rargs ← prefer_nontemp_acquire_reg mop ra_size
    expect ← rarg rargs ra_expect
    if nret == 0
        then call_section jf_varres_postcall 0 3
        else (do mop.move expect (op_target_immed (nret - 1)); call_section jf_arg_res_cpy 0 3)
    prefer_nontemp_release_reg mop ra_size

  unfoldable pub do_call : Frame → (vregbase narg nret : ℕ) → Emit (Unit {0})
  unfolding precall postcall
  do_call f vregbase narg nret = do precall f vregbase narg nret; postcall f vregbase narg nret

  -- A stack slot is a direct address, so that `address_of` takes its base and its offset as the
  -- source does. The registers stay taken at the jump, as in the source.
  unfoldable pub do_ret : Frame → (vregbase nret : ℕ) → Emit (Unit {0})
  do_ret f vregbase nret = do
    m ← get_machine
    check (leb ra_count m.nr_reg)
    basestack ← lift_result (vreg_to_operand m vregbase true)
    when (ltb 0 nret) (save_frame_limit mop vregbase (nret - 1))
    rargs ← prefer_nontemp_acquire_reg mop ra_count
    nr_args ← rarg rargs ra_nr_args
    base ← rarg rargs ra_base
    address_of mop base basestack.value
    if ltb 0 nret then mop.move nr_args (op_target_immed (nret - 1)) else (do
      mop.sub nr_args base (op_target_reg m.sp)
      mop.udiv nr_args nr_args (op_target_immed 8))
    e ← get_emitter
    addr ← lift_result (jfunc_addr buffer t e jf_epilogue)
    mop.b (label_absolute (op_target_immed addr))

  unfoldable pub prologue : Frame → Emit (Unit {0})
  prologue f = do
    m ← get_machine
    let sp = op_target_reg m.sp
    rargs ← prefer_nontemp_acquire_reg mop ra_size
    mop.add sp sp (op_target_immed (neg32 (8 * f.nr_locals)))
    when (ltb 0 f.nr_params) (do
      expect ← rarg rargs ra_expect
      mop.move expect (op_target_immed f.nr_params)
      call_section jf_arg_res_cpy 0 jfunc_unlimited_stack
      m' ← get_machine
      off ← lift_result (jf_loadlocal_offset t m' f.nr_params)
      call_section jf_load_locals off jfunc_unlimited_stack)
    prefer_nontemp_release_reg mop ra_size

-- the body is left out by the preprocessor
unfoldable pub epilogue : Frame → Emit (Unit {0})
epilogue f = pure tt
