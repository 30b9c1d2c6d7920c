-- ===== src/Lua/Tables.antt =====
-- litabup.c: access to upvalues and tables.
pub mod Pointer
use too_legit_to_jit.Common.{
  ℕ, zero, suc, ◌+◌, ◌-◌, ◌*◌, not, true, false, Option, none, some, [], ◌∷◌, ◌==◌, if◌then◌else◌,
  assertion, out_of_bounds, out_of_fuel, Result, ok, fail, and_then,
}
use too_legit_to_jit.Object.{TValue, tvalue, tag_gentype, ctb, lua_tnil, lua_ttable, lua_tfunction}
use too_legit_to_jit.Dictionary.{Dictionary, table_get, table_set}
use too_legit_to_jit.Operand.{
  Operand, VregOperand, Loperand, op_target_reg, op_target_daddr, op_target_immed,
}
use too_legit_to_jit.Machine.{
  Frame, MachineOps, Emit, pure, ◌>>=◌, ◌>>◌, check, get_machine, lift_result,
}
use too_legit_to_jit.Temporaries.{acquire_temp, release_temp}
use too_legit_to_jit.Frame.{loperand_to_operand, vreg_to_operand, get_frame_closure}
use too_legit_to_jit.Stack.{save_frame_limit}
use too_legit_to_jit.Synthetic.{assign, address_of, vreg_type_fill}
use too_legit_to_jit.Mips.Arithmetic.{reg_of}
use too_legit_to_jit.Lua.Strings.{gettm}
use too_legit_to_jit.Lua.Opcodes.{lfields_per_flush}

-- offsets with 32-bit pointers: `uvs` of `struct closure`, `val` of `struct UpVal`, and the fields
-- of `struct TValue`
abbrev pub closure_uvs : ℕ
closure_uvs = 8

abbrev pub upval_val : ℕ
upval_val = 0

abbrev pub tvalue_t : ℕ
tvalue_t = 0

abbrev pub tvalue_v : ℕ
tvalue_v = 4

-- The runtime functions. `table` has the tables by their addresses, and `strcmp` is the C
-- library's.
module _ (strcmp : ℕ → ℕ → ℕ) where
  -- what follows `assert( tm )`: the source compares `!tag_gentype( tm )`, which is 0 or 1, with
  -- the tag of functions, so that it looks the index up in the handler whatever that is
  unfoldable pub ljc_tableget :
      (fuel : ℕ) (table : ℕ → Option Dictionary) (t idx : TValue) → Result TValue
  unfolding gettm
  ljc_tableget zero table t idx = fail out_of_fuel
  ljc_tableget (suc fuel) table t idx =
      let by_handler : Result TValue = elim (gettm t) [
        | none ↦ fail assertion
        | some tm ↦ ljc_tableget fuel table tm idx
      ] in
      if tag_gentype t == lua_ttable
      then elim (table t.v) [
        | none ↦ fail out_of_bounds
        | some d ↦ and_then (table_get strcmp d idx) λ v.
            if not (v.t == lua_tnil)
            then ok v
            else elim (gettm t) [ none ↦ ok v | some tm ↦ by_handler ]
      ]
      else by_handler

  -- the table at the address `t` as the function leaves it
  unfoldable pub ljc_tableset :
      (table : ℕ → Option Dictionary) (t : ℕ) (idx v : TValue) → Result Dictionary
  ljc_tableset table t idx v = elim (table t) [
    | none ↦ fail out_of_bounds
    | some d ↦ table_set strcmp d idx v
  ]

module _ (mop : MachineOps) where
  unfoldable pub getupvalptr : (uvptr : Operand) (uvidx : ℕ) → Emit (Unit {0})
  getupvalptr uvptr uvidx = do
    m ← get_machine
    mop.move uvptr (get_frame_closure m)
    mop.move uvptr (op_target_daddr (reg_of uvptr) 0)
    mop.move uvptr (op_target_daddr (reg_of uvptr) (closure_uvs + 4 * uvidx))
    mop.move uvptr (op_target_daddr (reg_of uvptr) upval_val)

  unfoldable pub do_getupval : (dval dtype : Operand) (uvidx : ℕ) → Emit (Unit {0})
  do_getupval dval dtype uvidx = do
    r ← acquire_temp mop.move
    getupvalptr (op_target_reg r) uvidx
    mop.move dval (op_target_daddr r tvalue_v)
    mop.move dtype (op_target_daddr r tvalue_t)
    _ ← release_temp mop.move
    pure tt

  unfoldable pub emit_getupval : Frame → (dst : Loperand) → (uvidx : ℕ) → Emit (Unit {0})
  emit_getupval f dst uvidx = do
    m ← get_machine
    d ← lift_result (loperand_to_operand m f dst)
    do_getupval d.value d.type uvidx

  unfoldable pub emit_setupval : Frame → (src : Loperand) → (uvidx : ℕ) → Emit (Unit {0})
  emit_setupval f src uvidx = do
    r ← acquire_temp mop.move
    m ← get_machine
    s ← lift_result (loperand_to_operand m f src)
    getupvalptr (op_target_reg r) uvidx
    mop.move (op_target_daddr r tvalue_v) s.value
    mop.move (op_target_daddr r tvalue_t) s.type
    _ ← release_temp mop.move
    pure tt

  -- A table is read into registers by its value and its type, as the source does without a check.
  unfoldable pub do_gettableup : (dvalue dtype : Operand) (uvidx : ℕ) → Emit (Unit {0})
  do_gettableup dvalue dtype uvidx = do_getupval dvalue dtype uvidx

  -- `tableget`, `tableset`, `create` and `setlist` are the addresses of the functions that the
  -- emitted code calls: `ljc_tableget`, `ljc_tableset`, `table_create` and `table_setlist`.
  unfoldable pub do_gettable :
      (tableget : ℕ) → Frame → (dvreg : ℕ) → (vtable idx : VregOperand) → Emit (Unit {0})
  do_gettable tableget f dvreg vtable idx = do
    m ← get_machine
    dston ← lift_result (vreg_to_operand m dvreg false)
    dstoff ← lift_result (vreg_to_operand m dvreg true)
    dtptr ← acquire_temp mop.move
    address_of mop (op_target_reg dtptr) dstoff.type
    mop.call_static_cfn f tableget (some dston.value)
        (vtable.value ∷ vtable.type ∷ idx.type ∷ idx.value ∷ op_target_reg dtptr ∷ [])
    _ ← release_temp mop.move
    vreg_type_fill mop dvreg

  unfoldable pub do_settable :
      (tableset : ℕ) → Frame → (table : Operand) → (idx v : VregOperand) → Emit (Unit {0})
  do_settable tableset f table idx v =
      mop.call_static_cfn f tableset none (table ∷ idx.type ∷ idx.value ∷ v.type ∷ v.value ∷ [])

  unfoldable pub emit_gettable :
      (tableget : ℕ) → Frame → (dst table idx : Loperand) → Emit (Unit {0})
  emit_gettable tableget f dst table idx = do
    check dst.islocal
    m ← get_machine
    t ← lift_result (loperand_to_operand m f table)
    i ← lift_result (loperand_to_operand m f idx)
    do_gettable tableget f dst.index t i

  unfoldable pub emit_settable :
      (tableset : ℕ) → Frame → (table idx src : Loperand) → Emit (Unit {0})
  emit_settable tableset f table idx src = do
    m ← get_machine
    t ← lift_result (loperand_to_operand m f table)
    i ← lift_result (loperand_to_operand m f idx)
    s ← lift_result (loperand_to_operand m f src)
    do_settable tableset f t.value i s

  unfoldable pub emit_gettableup :
      (tableget : ℕ) → Frame → (dst : Loperand) → (uvidx : ℕ) → (tidx : Loperand) → Emit (Unit {0})
  emit_gettableup tableget f dst uvidx tidx = do
    m ← get_machine
    d ← lift_result (loperand_to_operand m f dst)
    do_gettableup d.value d.type uvidx
    i ← lift_result (loperand_to_operand m f tidx)
    do_gettable tableget f dst.index d i

  unfoldable pub emit_settableup :
      (tableset : ℕ) → Frame → (uvidx : ℕ) → (tidx value : Loperand) → Emit (Unit {0})
  emit_settableup tableset f uvidx tidx value = do
    dtype ← acquire_temp mop.move
    dval ← acquire_temp mop.move
    do_gettableup (op_target_reg dval) (op_target_reg dtype) uvidx
    _ ← release_temp mop.move
    m ← get_machine
    i ← lift_result (loperand_to_operand m f tidx)
    v ← lift_result (loperand_to_operand m f value)
    do_settable tableset f (op_target_reg dval) i v
    _ ← release_temp mop.move
    pure tt

  unfoldable pub emit_self : (tableget : ℕ) → Frame → (dval stable key : Loperand) → Emit (Unit {0})
  emit_self tableget f dval stable key = do
    check dval.islocal
    m ← get_machine
    vstable ← lift_result (loperand_to_operand m f stable)
    vdtable ←
        lift_result (loperand_to_operand m f (record { islocal = true; index = dval.index + 1 }))
    assign mop vdtable vstable
    vkey ← lift_result (loperand_to_operand m f key)
    do_gettable tableget f dval.index vstable vkey

  unfoldable pub emit_newtable :
      (create : ℕ) → Frame → (dst : Loperand) → (array hash : ℕ) → Emit (Unit {0})
  emit_newtable create f dst array hash = do
    m ← get_machine
    vres ← lift_result (loperand_to_operand m f dst)
    mop.call_static_cfn f create (some vres.value)
        (op_target_immed array ∷ op_target_immed hash ∷ [])
    mop.move vres.type (op_target_immed (ctb lua_ttable))

  -- A stack slot is a direct address, so that `address_of` takes its base and its offset as the
  -- source does.
  unfoldable pub emit_setlist :
      (setlist : ℕ) → Frame → (table : Loperand) → (n block : ℕ) → Emit (Unit {0})
  emit_setlist setlist f table n block = do
    check table.islocal
    check (not (block == 0))
    check (not (n == 0))
    m ← get_machine
    t ← lift_result (loperand_to_operand m f table)
    v ← lift_result (vreg_to_operand m (table.index + 1) true)
    save_frame_limit mop (table.index + 1) n
    base ← acquire_temp mop.move
    address_of mop (op_target_reg base) v.value
    mop.call_static_cfn f setlist none (
        t.value
        ∷ op_target_reg base
        ∷ op_target_immed ((block - 1) * lfields_per_flush)
        ∷ op_target_immed n
        ∷ [])
    _ ← release_temp mop.move
    pure tt
