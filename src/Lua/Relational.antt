-- ===== src/Lua/Relational.antt =====
-- libranch.c: comparisons and jumps. Two numbers are compared in place; for other types the code
-- calls `ljc_relational`.
use too_legit_to_jit.Common.{
  ℕ, ◌+◌, ◌%◌, ◌^◌, Bool, true, false, not, ◌&&◌, ◌||◌, none, some, [], ◌∷◌, ◌==◌, ltb,
  if◌then◌else◌, assertion, Result, ok, fail, and_then,
}
use too_legit_to_jit.Word.{add32, is_negative}
use too_legit_to_jit.Object.{
  TValue, tvisfalse, lua_tnil, lua_tboolean, lua_tlightuserdata, lua_tnumber, lua_tstring,
  lua_ttable, lua_tuserdata, lua_tlcf,
}
use too_legit_to_jit.Operand.{
  Operand, Loperand, Label, label_pc, op_target_reg, op_target_immed, lbl_next,
}
use too_legit_to_jit.Machine.{
  Frame, MachineOps, Emit, pure, ◌>>=◌, ◌>>◌, check, when, get_machine, get_emitter, lift_result,
}
use too_legit_to_jit.Temporaries.{acquire_temp, release_temp}
use too_legit_to_jit.Frame.{loperand_to_operand, vreg_to_operand}
use too_legit_to_jit.Synthetic.{mark_local, address_of}
use too_legit_to_jit.Lua.Strings.{Strings, lstrcmp, getmt, mt_call_binmevent, call_binmevent}

pub data Rel : Type 0 where
  rel_lt rel_leq rel_eq : Rel

unfoldable pub rel_code : Rel → ℕ
rel_code rel_lt = 0
rel_code rel_leq = 1
rel_code rel_eq = 2

-- `TM_EQ`, `TM_LT` and `TM_LE` of include/lmetaevent.h
abbrev pub tm_eq : ℕ
tm_eq = 5

abbrev pub tm_lt : ℕ
tm_lt = 13

abbrev pub tm_le : ℕ
tm_le = 14

abbrev both_strings : (s t : TValue) → Bool
both_strings s t = s.t == lua_tstring && t.t == lua_tstring

unfoldable pub do_lt : Strings → (s t : TValue) → Result Bool
unfolding lstrcmp call_binmevent
do_lt c s t =
    if both_strings s t
    then and_then (lstrcmp c s t) (λ r. ok (is_negative r))
    else elim (call_binmevent s t tm_lt) [ some d ↦ ok (not (tvisfalse d)) | none ↦ fail assertion ]

unfoldable pub do_leq : Strings → (s t : TValue) → Result Bool
unfolding lstrcmp call_binmevent
do_leq c s t =
    if both_strings s t
    then and_then (lstrcmp c s t) (λ r. ok (is_negative r || r == 0))
    else elim (call_binmevent s t tm_le) [
      | some d ↦ ok (not (tvisfalse d))
      | none ↦ elim (call_binmevent t s tm_lt) [ some d ↦ ok (tvisfalse d) | none ↦ fail assertion ]
    ]

-- equality of two metatables
unfoldable pub same_mt : (s t : TValue) → Bool
unfolding getmt
same_mt s t = elim (getmt s) [
  | none ↦ elim (getmt t) [ none ↦ true | some b ↦ false ]
  | some a ↦ elim (getmt t) [ none ↦ false | some b ↦ a == b ]
]

-- what comes behind the switch: the handler's result is not negated
unfoldable pub eq_by_handler : (s t : TValue) → Bool
unfolding getmt mt_call_binmevent
eq_by_handler s t = elim (getmt s) [
  | none ↦ false
  | some mt ↦ elim (mt_call_binmevent mt s t tm_eq) [ none ↦ false | some d ↦ tvisfalse d ]
]

unfoldable pub do_eq : Strings → (s t : TValue) → Result Bool
unfolding lstrcmp same_mt eq_by_handler
do_eq c s t =
    if not (s.t == t.t)
    then ok false
    else if both_strings s t
    then and_then (lstrcmp c s t) (λ r. ok (r == 0))
    else if s.t == lua_tnil
    then ok true
    else if s.t == lua_tnumber
    then ok (s.v == t.v)
    else if s.t == lua_tboolean
    then ok (s.v % 2 ^ 8 == t.v % 2 ^ 8)
    else if s.t == lua_tlightuserdata
    then ok (s.v == t.v)
    else if s.t == lua_tlcf
    then ok (s.v == t.v)
    else if s.t == lua_tuserdata || s.t == lua_ttable
    then ok (if s.v == t.v then true else if same_mt s t then eq_by_handler s t else false)
    else ok (s.v == t.v)

unfoldable pub ljc_relational : Strings → (s t : TValue) → Rel → Result Bool
unfolding do_lt do_leq do_eq
ljc_relational c s t op =
    if s.t == lua_tnumber && t.t == lua_tnumber
    then fail assertion
    else elim op [ rel_lt ↦ do_lt c s t | rel_leq ↦ do_leq c s t | rel_eq ↦ do_eq c s t ]

-- `relational` and `close` are the addresses of `ljc_relational` and `closure_close`.
module _ (mop : MachineOps) (relational close : ℕ) where
  unfoldable pub emit_relational :
      Frame
      → (s t : Loperand) → (ar : Operand → Operand → Label → Emit (Unit {0})) → Rel
      → (expect : Bool) → Emit (Unit {0})
  emit_relational f s t ar op expect = do
    m ← get_machine
    os ← lift_result (loperand_to_operand m f s)
    ot ← lift_result (loperand_to_operand m f t)
    e ← get_emitter
    let l = label_pc (add32 e.pc 2)
    r ← acquire_temp mop.move
    let tag = op_target_reg r
    mop.bor tag os.type ot.type
    mop.beq tag (op_target_immed 0) (lbl_next 0)
    mop.call_static_cfn f relational (some tag)
        (os.type ∷ os.value ∷ ot.type ∷ ot.value ∷ op_target_immed (rel_code op) ∷ [])
    mop.beq tag (op_target_immed (if expect then 1 else 0)) l
    mop.b (lbl_next 1)
    mark_local 0
    ar os.value ot.value l
    mark_local 1
    _ ← release_temp mop.move
    pure tt

  -- `offset` is a 32-bit pattern
  unfoldable pub emit_jmp : Frame → (a : Loperand) → (offset : ℕ) → Emit (Unit {0})
  emit_jmp f a offset = do
    check a.islocal
    when (ltb 0 a.index) (do
      m ← get_machine
      op ← lift_result (vreg_to_operand m (a.index + 1) true)
      r ← acquire_temp mop.move
      address_of mop (op_target_reg r) op.type
      mop.call_static_cfn f close none (op_target_reg r ∷ [])
      _ ← release_temp mop.move
      pure tt)
    e ← get_emitter
    mop.b (label_pc (add32 (add32 e.pc offset) 1))

  unfoldable pub emit_eq : Frame → (a b : Loperand) → (pred : ℕ) → Emit (Unit {0})
  unfolding emit_relational
  emit_eq f a b pred =
      if pred == 0
      then emit_relational f a b mop.beq rel_eq true
      else emit_relational f a b mop.bne rel_eq false

  unfoldable pub emit_lt : Frame → (a b : Loperand) → (pred : ℕ) → Emit (Unit {0})
  unfolding emit_relational
  emit_lt f a b pred =
      if pred == 0
      then emit_relational f a b mop.blt rel_lt true
      else emit_relational f a b mop.bgt rel_lt false

  unfoldable pub emit_le : Frame → (a b : Loperand) → (pred : ℕ) → Emit (Unit {0})
  unfolding emit_relational
  emit_le f a b pred =
      if pred == 0
      then emit_relational f a b mop.ble rel_leq true
      else emit_relational f a b mop.bge rel_leq false
