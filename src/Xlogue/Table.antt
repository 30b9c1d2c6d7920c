-- ===== src/Xlogue/Table.antt =====
-- jitfunc.c: the table of the shared code sections, and their code for the MIPS machine.
use too_legit_to_jit.Common.{ℕ, zero, suc, List, [], ◌∷◌, ◌++◌}
use too_legit_to_jit.Emitter.{Emitter32}
use too_legit_to_jit.Machine.{MachineOps, Emit}
use too_legit_to_jit.Jitfunc.{JFunc, JFuncs, jfuncs_init}
use too_legit_to_jit.Stack.Sections.{jinit_store_regs, jinit_load_regs}
use too_legit_to_jit.Xlogue.Sections.{
  jinit_cpy_arg_res, jinit_epi, jinit_pro, jinit_vresult_postcall, jinit_bootstrap,
}
use too_legit_to_jit.Mips.Jfunc.{mips_ops, mips_jf_init, mips_nr_jfuncs}

abbrev pub Init : Type 0
Init = JFuncs → JFunc → Emit JFunc

-- `close` and `invokec` are the addresses of `closure_close` and `ljc_invokec`. The operations of
-- the machine see the sections that are there already.
unfoldable pub jinittable :
    (mop : JFuncs → MachineOps) (buffer : Emitter32 → ℕ) (close invokec : ℕ) → List Init
jinittable mop buffer close invokec =
    (λ t. jinit_cpy_arg_res (mop t))
    ∷ (λ t. jinit_store_regs (mop t))
    ∷ (λ t. jinit_load_regs (mop t))
    ∷ (λ t. jinit_epi (mop t) close)
    ∷ (λ t. jinit_pro (mop t) invokec)
    ∷ (λ t. jinit_vresult_postcall (mop t) buffer t)
    ∷ (λ t. jinit_bootstrap (mop t) buffer t)
    ∷ []

-- `n` sections of the machine, from number `i` on
unfoldable pub arch_inits : (jf_init : ℕ → JFunc → Emit JFunc) (n i : ℕ) → List Init
arch_inits jf_init zero i = []
arch_inits jf_init (suc n) i = (λ t. jf_init i) ∷ arch_inits jf_init n (suc i)

-- `jfuncs_init` as `main` calls it
unfoldable pub mips_jfuncs : (buffer : Emitter32 → ℕ) (close invokec : ℕ) → JFuncs → Emit JFuncs
mips_jfuncs buffer close invokec =
    jfuncs_init (
      jinittable (mips_ops buffer) buffer close invokec ++ arch_inits mips_jf_init mips_nr_jfuncs 0)
