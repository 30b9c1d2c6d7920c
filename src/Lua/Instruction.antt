-- ===== src/Lua/Instruction.antt =====
-- instruction.c: loads, moves, loops and closures.
use too_legit_to_jit.Common.{ℕ, ◌+◌, true, some, [], ◌∷◌}
use too_legit_to_jit.Word.{add32}
use too_legit_to_jit.Object.{ctb, lua_tlcl}
use too_legit_to_jit.Operand.{Loperand, label_pc, lbl_next, op_target_reg, op_target_immed}
use too_legit_to_jit.Machine.{Frame, MachineOps, Emit, ◌>>=◌, ◌>>◌, check, get_machine, lift_result}
use too_legit_to_jit.Temporaries.{acquire_temp, release_temp}
use too_legit_to_jit.Frame.{
  llocal_to_operand, lconst_to_operand, loperand_to_operand, vreg_to_operand, get_frame_closure,
}
use too_legit_to_jit.Synthetic.{mark_local, assign, address_of}
use too_legit_to_jit.Lua.Arith.{emit_add, emit_sub}

abbrev pub local_at : ℕ → Loperand
local_at i = record { islocal = true; index = i }

module _ (mop : MachineOps) where
  unfoldable pub emit_loadk : Frame → (l k : ℕ) → Emit (Unit {0})
  emit_loadk f l k = do
    m ← get_machine
    d ← lift_result (llocal_to_operand m l)
    s ← lift_result (lconst_to_operand f k)
    assign mop d s

  unfoldable pub emit_move : Frame → (d s : Loperand) → Emit (Unit {0})
  emit_move f d s = do
    check d.islocal
    m ← get_machine
    od ← lift_result (loperand_to_operand m f d)
    os ← lift_result (loperand_to_operand m f s)
    assign mop od os

-- `nonnumeric` and `create` are the addresses of `ljc_nonnumeric_bop` and `closure_create`; `j` is
-- a 32-bit pattern.
module _ (mop : MachineOps) (nonnumeric create : ℕ) where
  unfoldable pub emit_forprep : Frame → (init : Loperand) → (pc j : ℕ) → Emit (Unit {0})
  emit_forprep f init pc j = do
    check init.islocal
    emit_sub mop nonnumeric f init init (local_at (init.index + 2))
    mop.b (label_pc (add32 (pc + 1) j))

  unfoldable pub emit_forloop : Frame → (loopvar : Loperand) → (pc j : ℕ) → Emit (Unit {0})
  emit_forloop f loopvar pc j = do
    check loopvar.islocal
    emit_add mop nonnumeric f loopvar loopvar (local_at (loopvar.index + 2))
    emit_move mop f (local_at (loopvar.index + 3)) loopvar
    m ← get_machine
    v ← lift_result (loperand_to_operand m f loopvar)
    limit ← lift_result (loperand_to_operand m f (local_at (loopvar.index + 1)))
    mop.bgt v.value limit.value (lbl_next 0)
    mop.b (label_pc (add32 (pc + 1) j))
    mark_local 0

  -- `proto` is an address. A stack slot is a direct address, so that `address_of` takes its base
  -- and its offset as the source does.
  unfoldable pub emit_closure : Frame → (dst : Loperand) → (proto : ℕ) → Emit (Unit {0})
  emit_closure f dst proto = do
    m ← get_machine
    d ← lift_result (loperand_to_operand m f dst)
    stackbase ← lift_result (vreg_to_operand m 0 true)
    sb ← acquire_temp mop.move
    address_of mop (op_target_reg sb) stackbase.type
    mop.call_static_cfn f create (some d.value)
        (op_target_immed proto ∷ get_frame_closure m ∷ op_target_reg sb ∷ [])
    _ ← release_temp mop.move
    mop.move d.type (op_target_immed (ctb lua_tlcl))
