-- ===== src/Jitfunc.antt =====
-- jitfunc.c: the code sections that all translated functions share. `jit_functions` is the list of
-- the sections that are initialised, so that `nr_jf_init` is its length; `jfuncs_code` is the
-- address of their code once it is known.
use too_legit_to_jit.Common.{
  ℕ, ◌+◌, ◌-◌, ◌/◌, ◌%◌, undefined, Option, none, some, List, [], ◌∷◌, ◌++◌, ltb, ◌==◌,
  if◌then◌else◌, length, get_elem?, assertion, out_of_bounds, Result, ok, fail, and_then,
}
use too_legit_to_jit.Emitter.{Emitter32, ec, offset}
use too_legit_to_jit.Operand.{Label, label_absolute, op_target_immed}
use too_legit_to_jit.Machine.{
  Machine, Emit, pure, ◌>>=◌, ◌>>◌, stop, check, get_machine, set_machine, get_emitter, lift_result,
}
use too_legit_to_jit.Temporaries.{temps_accessed}

-- `func_data` is the field `data`, the number of words of one step of the section.
pub record JFunc : Type 0 where
  pub addr : ℕ
  pub temp_clobber : ℕ
  pub func_data : ℕ

pub record JFuncs : Type 0 where
  pub jit_functions : List JFunc
  pub jfuncs_code : Option ℕ

abbrev pub jf_arg_res_cpy : ℕ
jf_arg_res_cpy = 0

abbrev pub jf_store_locals : ℕ
jf_store_locals = 1

abbrev pub jf_load_locals : ℕ
jf_load_locals = 2

abbrev pub jf_epilogue : ℕ
jf_epilogue = 3

abbrev pub jf_prologue : ℕ
jf_prologue = 4

abbrev pub jf_varres_postcall : ℕ
jf_varres_postcall = 5

abbrev pub jf_bootstrap : ℕ
jf_bootstrap = 6

abbrev pub jf_count : ℕ
jf_count = 7

unfoldable pub jf_arch_idx : ℕ → ℕ
jf_arch_idx idx = jf_count + idx

abbrev pub jfunc_unlimited_stack : ℕ
jfunc_unlimited_stack = 9999

unfoldable pub jfuncs_get : JFuncs → ℕ → Result JFunc
jfuncs_get t idx = elim (get_elem? t.jit_functions idx) [
  | none ↦ fail out_of_bounds
  | some j ↦ ok j
]

-- `buffer` is the address at which the emitter's buffer is.
unfoldable pub do_jfunc_addr :
    (buffer : Emitter32 → ℕ) → JFuncs → Emitter32 → (idx off : ℕ) → Result ℕ
unfolding jfuncs_get offset
do_jfunc_addr buffer t e idx off =
    if ltb idx (length t.jit_functions)
    then (and_then (jfuncs_get t idx) λ j. ok (offset t.jfuncs_code (buffer e) (j.addr + off)))
    else fail assertion

unfoldable pub jfunc_addr : (buffer : Emitter32 → ℕ) → JFuncs → Emitter32 → (idx : ℕ) → Result ℕ
unfolding do_jfunc_addr
jfunc_addr buffer t e idx = do_jfunc_addr buffer t e idx 0

unfoldable pub jfuncs_temp_clobber : JFuncs → Machine → (idx : ℕ) → Result ℕ
unfolding jfuncs_get
jfuncs_temp_clobber t m idx =
    and_then (jfuncs_get t idx)
      λ j. ok (if ltb j.temp_clobber m.nr_temp_regs then j.temp_clobber else m.nr_temp_regs)

unfoldable pub jfuncs_stack_clobber : JFuncs → Machine → (idx : ℕ) → Result ℕ
unfolding jfuncs_get
jfuncs_stack_clobber t m idx = and_then (jfuncs_get t idx) λ j. ok (j.temp_clobber - m.nr_temp_regs)

-- `call` is the machine's operation. The arguments that the source passes are not used.
unfoldable pub jfunc_call :
    (call : Label → Emit (Unit {0})) (buffer : Emitter32 → ℕ)
    → JFuncs
    → (idx off maxstack : ℕ) → Emit (Unit {0})
unfolding do_jfunc_addr jfuncs_stack_clobber
jfunc_call call buffer t idx off maxstack = do
  e ← get_emitter
  addr ← lift_result (do_jfunc_addr buffer t e idx off)
  call (label_absolute (op_target_immed addr))
  m ← get_machine
  clobber ← lift_result (jfuncs_stack_clobber t m idx)
  check (ltb clobber maxstack)

-- `( end - start ) / spill`, where the division must leave no rest; C leaves it undefined by 0
unfoldable pub words_of_one : (size spill : ℕ) → Emit ℕ
words_of_one size spill =
    if spill == 0 then stop undefined else (do check (size % spill == 0); pure (size / spill))

-- One round of the loop of `jfuncs_init`: `init` writes the section's code, and gets the section
-- with its address and the sections before it. A field that nothing has written is 0.
unfoldable pub jfunc_init : (init : JFuncs → JFunc → Emit JFunc) → JFuncs → Emit JFuncs
jfunc_init init t = do
  e ← get_emitter
  m ← get_machine
  check (temps_accessed m == 0)
  set_machine (record m { max_access = 0 })
  j ← init t (record { addr = ec e; temp_clobber = 0; func_data = 0 })
  m' ← get_machine
  pure (record t {
    jit_functions = t.jit_functions ++ record j { temp_clobber = m'.max_access } ∷ [];
  })

-- the rounds of `jfuncs_init`, with the table `jinittable` and what the machine appends to it
unfoldable pub jfuncs_init : List (JFuncs → JFunc → Emit JFunc) → JFuncs → Emit JFuncs
unfolding jfunc_init
jfuncs_init [] t = pure t
jfuncs_init (init ∷ inits) t = do t' ← jfunc_init init t; jfuncs_init inits t'

-- `section` is the address of the linked code
unfoldable pub jfuncs_setsection : (section : ℕ) → JFuncs → JFuncs
jfuncs_setsection section t = record t { jfuncs_code = some section }
