-- ===== src/Lua/Calls.antt =====
-- instruction.c: calls and returns; and the header of a function's code, frame.c.
use too_legit_to_jit.Common.{ℕ}
use too_legit_to_jit.Operand.{Loperand}
use too_legit_to_jit.Emitter.{Emitter32, ec}
use too_legit_to_jit.Machine.{
  Frame, MachineOps, Emit, pure, ◌>>=◌, ◌>>◌, check, get_machine, get_emitter, lift_result,
}
use too_legit_to_jit.Stack.Sections.{jf_loadlocal_offset, jf_storelocal_offset}
use too_legit_to_jit.Jitfunc.{
  JFuncs, jfunc_call, jfunc_unlimited_stack, jf_store_locals, jf_load_locals,
}
use too_legit_to_jit.Xlogue.{do_call, do_ret, prologue, epilogue}

-- `buffer` is the address of an emitter's buffer, and `t` the table of the shared sections.
module _ (mop : MachineOps) (buffer : Emitter32 → ℕ) (t : JFuncs) where
  unfoldable pub emit_call :
      Frame → (closure : Loperand) → (nr_params nr_results : ℕ) → Emit (Unit {0})
  emit_call f closure nr_params nr_results = do
    check closure.islocal
    m ← get_machine
    off ← lift_result (jf_storelocal_offset t m f.nr_locals)
    jfunc_call mop.call buffer t jf_store_locals off jfunc_unlimited_stack
    do_call mop buffer t f closure.index nr_params nr_results
    m' ← get_machine
    off' ← lift_result (jf_loadlocal_offset t m' f.nr_locals)
    jfunc_call mop.call buffer t jf_load_locals off' jfunc_unlimited_stack

  unfoldable pub emit_ret : Frame → (base : Loperand) → (nr_results : ℕ) → Emit (Unit {0})
  emit_ret f base nr_results = do_ret mop buffer t f base.index nr_results

  -- The frame with the places of the epilogue and the prologue.
  unfoldable pub emit_header : Frame → Emit Frame
  emit_header f = do
    e ← get_emitter
    let f₁ : Frame = record f { epi = ec e }
    epilogue f₁
    e' ← get_emitter
    let f₂ : Frame = record f₁ { pro = ec e' }
    prologue mop buffer t f₂
    pure f₂
