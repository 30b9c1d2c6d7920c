-- ===== src/Stack/Sections.antt =====
-- stack.c: the shared code sections that save and load the Lua registers, and where to enter them.
pub mod Words
pub mod Entry
use too_legit_to_jit.Common.{ℕ, ◌-◌, ◌*◌, Bool, true, false, ltb, Result, ok, and_then}
use too_legit_to_jit.Emitter.{ec}
use too_legit_to_jit.Machine.{
  Machine, MachineOps, Emit, pure, ◌>>=◌, ◌>>◌, check, get_machine, get_emitter,
}
use too_legit_to_jit.Jitfunc.{
  JFunc, JFuncs, jfuncs_get, jf_store_locals, jf_load_locals, words_of_one,
}
use too_legit_to_jit.Stack.{max_live_locals, x_frame}

module _ (mop : MachineOps) where
  unfoldable pub jinit_x_access : (isstore : Bool) → JFunc → Emit JFunc
  jinit_x_access isstore jf = do
    m ← get_machine
    start ← get_emitter
    spill ← x_frame mop isstore 0 (max_live_locals m)
    end ← get_emitter
    words ← words_of_one (ec end - ec start) spill
    mop.ret
    pure (record jf { func_data = words })

  unfoldable pub jinit_store_regs : JFunc → Emit JFunc
  unfolding jinit_x_access
  jinit_store_regs jf = do
    m ← get_machine
    check (ltb m.nr_temp_regs m.nr_reg)
    jinit_x_access true jf

  unfoldable pub jinit_load_regs : JFunc → Emit JFunc
  unfolding jinit_x_access
  jinit_load_regs jf = jinit_x_access false jf

-- `max( 0, ( m->nr_reg - m->nr_temp_regs ) - 2 * nr_locals ) * j->data`
abbrev pub entry_offset : Machine → (nr_locals size : ℕ) → ℕ
entry_offset m nr_locals size = (m.nr_reg - m.nr_temp_regs - 2 * nr_locals) * size

unfoldable pub jf_loadlocal_offset : JFuncs → Machine → (nr_locals : ℕ) → Result ℕ
jf_loadlocal_offset t m nr_locals =
    and_then (jfuncs_get t jf_load_locals) λ j. ok (entry_offset m nr_locals j.func_data)

unfoldable pub jf_storelocal_offset : JFuncs → Machine → (nr_locals : ℕ) → Result ℕ
jf_storelocal_offset t m nr_locals =
    and_then (jfuncs_get t jf_store_locals) λ j. ok (entry_offset m nr_locals j.func_data)
