-- ===== src/Loader/Code.antt =====
-- main.c: the translation of a function's instructions, and of the functions within it.
pub mod Supported
use too_legit_to_jit.Common.{
  ℕ, zero, suc, ◌+◌, ◌*◌, Bool, true, false, Option, none, List, [], ◌∷◌, ltb, ◌==◌, if◌then◌else◌,
  length, assertion, out_of_fuel, Result, ok, fail, and_then,
}
use too_legit_to_jit.Operand.{to_loperand}
use too_legit_to_jit.Emitter
use too_legit_to_jit.Emitter.{Emitter32, emitter32_create, link, offset}
use too_legit_to_jit.Machine
use too_legit_to_jit.Machine.{Frame, MachineOps, Emit, Jit, check, stop, lift_emitter}
use too_legit_to_jit.Frame.{code_start}
use too_legit_to_jit.Jitfunc.{JFuncs}
use too_legit_to_jit.Upvalues.{UpvalDesc}
use too_legit_to_jit.Lua.Opcodes.{
  get_opcode, getarg_a, getarg_b, getarg_c, getarg_bx, getarg_sbx, op_move, op_loadk, op_loadnil,
  op_getupval, op_gettabup, op_gettable, op_settabup, op_setupval, op_settable, op_newtable,
  op_self, op_add, op_sub, op_mul, op_div, op_mod, op_jmp, op_eq, op_lt, op_le, op_call, op_return,
  op_forloop, op_forprep, op_setlist, op_closure,
}
use too_legit_to_jit.Lua.Arith.{emit_add, emit_sub, emit_mul, emit_div, emit_mod}
use too_legit_to_jit.Lua.Relational.{emit_jmp, emit_eq, emit_lt, emit_le}
use too_legit_to_jit.Lua.Instruction.{
  emit_loadk, emit_move, emit_forprep, emit_forloop, emit_closure,
}
use too_legit_to_jit.Lua.Calls.{emit_call, emit_ret, emit_header}
use too_legit_to_jit.Lua.Tables.{
  emit_getupval, emit_setupval, emit_gettable, emit_settable, emit_gettableup, emit_settableup,
  emit_self, emit_newtable, emit_setlist,
}
use too_legit_to_jit.Loader.{
  Load, Reader, give, ◌>>=◌, ◌>>◌, lift, word_of, count, fread, fread_int, fread_byte, skip_bytes,
  load_constants, load_upvalues, ignore_debug,
}

-- The addresses of the C functions that emitted code calls.
pub record Runtime : Type 0 where
  pub nonnumeric : ℕ
  pub relational : ℕ
  pub close : ℕ
  pub closure_create : ℕ
  pub tableget : ℕ
  pub tableset : ℕ
  pub table_create : ℕ
  pub table_setlist : ℕ

-- `struct proto`; `code` is the linked machine code, and `code_start` the address of its prologue
mutual
  pub data Proto : Type 0 where
    proto :
        (numparams maxstacksize : ℕ) (code : List ℕ) (code_start : ℕ) (subp : Protos)
        (uvd : List UpvalDesc)
        → Proto

  pub data Protos : Type 0 where
    no_protos : Protos
    and_proto : Proto → Protos → Protos

abbrev pub frame_of : (maxstacksize numparams : ℕ) → Frame
frame_of maxstacksize numparams = record {
  nr_locals = maxstacksize;
  nr_params = numparams;
  nr_consts = 0;
  epi = 0;
  pro = 0;
  consts = [];
}

abbrev tell : Load ℕ
tell r = ok (r.pos, r)

abbrev seek : ℕ → Load (Unit {0})
seek pos r = ok (tt, record r { pos = pos })

-- `mop` is the machine, `buffer` the address of an emitter's buffer, and `t` the table of the
-- shared sections.
module _ (mop : MachineOps) (buffer : Emitter32 → ℕ) (t : JFuncs) (rt : Runtime) where
  -- The switch of `load_code`: `subp` has the addresses of the functions within this one,
  -- `nrprotos` of them, and `pc` is the number of the instruction.
  unfoldable pub translate : Frame → (subp : ℕ → ℕ) → (nrprotos pc ins : ℕ) → Emit (Unit {0})
  translate f subp nrprotos pc ins =
      let op = get_opcode ins in
      let a = getarg_a ins in
      let b = getarg_b ins in
      let c = getarg_c ins in
      let ra = to_loperand a in
      let rb = to_loperand b in
      let rc = to_loperand c in
      if op == op_loadk
      then emit_loadk mop f a (getarg_bx ins)
      else if op == op_add
      then emit_add mop rt.nonnumeric f ra rb rc
      else if op == op_sub
      then emit_sub mop rt.nonnumeric f ra rb rc
      else if op == op_div
      then emit_div mop rt.nonnumeric f ra rb rc
      else if op == op_mul
      then emit_mul mop rt.nonnumeric f ra rb rc
      else if op == op_mod
      then emit_mod mop rt.nonnumeric f ra rb rc
      else if op == op_move
      then emit_move mop f ra rb
      else if op == op_forprep
      then emit_forprep mop rt.nonnumeric rt.closure_create f ra pc (getarg_sbx ins)
      else if op == op_forloop
      then emit_forloop mop rt.nonnumeric rt.closure_create f ra pc (getarg_sbx ins)
      else if op == op_newtable
      then emit_newtable mop rt.table_create f ra b c
      else if op == op_setlist
      then emit_setlist mop rt.table_setlist f ra b c
      else if op == op_gettable
      then emit_gettable mop rt.tableget f ra rb rc
      else if op == op_settable
      then emit_settable mop rt.tableset f ra rb rc
      else if op == op_loadnil
      then Machine.pure tt
      else if op == op_closure
      then Machine.◌>>◌ (check (ltb (getarg_bx ins) nrprotos))
          (emit_closure mop rt.nonnumeric rt.closure_create f ra (subp (getarg_bx ins)))
      else if op == op_call
      then emit_call mop buffer t f ra b c
      else if op == op_return
      then emit_ret mop buffer t f ra b
      else if op == op_getupval
      then emit_getupval mop f ra b
      else if op == op_setupval
      then emit_setupval mop f ra b
      else if op == op_settabup
      then emit_settableup mop rt.tableset f (getarg_b a) rb rc
      else if op == op_gettabup
      then emit_gettableup mop rt.tableget f ra b rc
      else if op == op_self
      then emit_self mop rt.tableget f ra rb rc
      else if op == op_jmp
      then emit_jmp mop rt.relational rt.close f ra (getarg_sbx ins)
      else if op == op_eq
      then emit_eq mop rt.relational rt.close f rb rc a
      else if op == op_lt
      then emit_lt mop rt.relational rt.close f rb rc a
      else if op == op_le
      then emit_le mop rt.relational rt.close f rb rc a
      else stop assertion

  -- the loop of `load_code` over the instructions, from number `pc` on
  unfoldable pub translate_all :
      Frame → (subp : ℕ → ℕ) → (nrprotos pc : ℕ) → List ℕ → Emit (Unit {0})
  unfolding translate
  translate_all f subp nrprotos pc [] = Machine.pure tt
  translate_all f subp nrprotos pc (ins ∷ inss) =
      Machine.◌>>◌ (lift_emitter λ e. Emitter.label_pc e pc) (
        Machine.◌>>◌ (translate f subp nrprotos pc ins)
          (translate_all f subp nrprotos (pc + 1) inss))

  -- From the header to the footer, which only frees memory: the frame comes back with the places of
  -- its parts.
  unfoldable pub generate : Frame → (subp : ℕ → ℕ) → (nrprotos : ℕ) → List ℕ → Emit Frame
  unfolding translate_all
  generate f subp nrprotos inss =
      Machine.◌>>=◌ (emit_header mop buffer t f)
        λ f'. Machine.◌>>◌ (translate_all f' subp nrprotos 0 inss) (Machine.pure f')

  -- code generation on an emitter, with the reader's machine
  unfoldable pub on_emitter : {A : Type 0} → Emitter32 → Emit A → Load (A × Emitter32)
  on_emitter e m r =
      and_then (m (record { emitter = e; machine = r.machine }))
        λ x. ok ((x.0, x.1.emitter), record r { machine = x.1.machine })

  module _ (file : List ℕ) (address : List ℕ → ℕ) (place : Protos → ℕ → ℕ) where
    -- The instructions are read before the first one is translated.
    unfoldable pub read_code : (n : ℕ) → Load (List ℕ)
    read_code zero = give []
    read_code (suc n) = do ins ← fread_int file; inss ← read_code n; give (ins ∷ inss)

    -- The functions within a function, each of them by `load`.
    unfoldable pub load_children : (load : Load Proto) → (n : ℕ) → Load Protos
    load_children load zero = give no_protos
    load_children load (suc n) = do
      child ← load
      rest ← load_children load n
      give (and_proto child rest)

    unfoldable pub load_prototypes : (load : Load Proto) → Load Protos
    load_prototypes load = do nrprotos ← fread_int file; load_children load (count nrprotos)

    abbrev pub nr_protos : Protos → ℕ
    nr_protos no_protos = 0
    nr_protos (and_proto p ps) = suc (nr_protos ps)

    -- The code, the address of its prologue, and the functions within.
    unfoldable pub load_code :
        (load : Load Proto) (maxstacksize numparams : ℕ) → Load (List ℕ × (ℕ × Protos))
    load_code load maxstacksize numparams = do
      sizecode ← fread_int file
      start ← tell
      skip_bytes (sizecode * 4)
      f ← load_constants file address (frame_of maxstacksize numparams)
      subp ← load_prototypes load
      end ← tell
      seek start
      inss ← read_code sizecode
      (f', e) ←
          on_emitter (emitter32_create sizecode) (generate f (place subp) (nr_protos subp) inss)
      linked ← lift (link e)
      seek end
      give (linked.mcode, (offset none (buffer linked) (code_start f'), subp))

    -- Functions nest at most `depth` deep.
    unfoldable pub load_function : (depth : ℕ) → Load Proto
    load_function zero = lift (fail out_of_fuel)
    load_function (suc depth) = do
      linedefined ← fread_int file
      lastlinedefined ← fread_int file
      numparams ← fread_byte file
      is_vararg ← fread_byte file
      maxstacksize ← fread_byte file
      (code, (start, subp)) ← load_code (load_function depth) maxstacksize numparams
      uvd ← load_upvalues file
      ignore_debug file
      give (proto numparams maxstacksize code start subp uvd)
