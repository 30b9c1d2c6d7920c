-- ===== src/Mips/Jfunc.antt =====
-- arch/mips/jfunc.c: the sections that spill and fill the MIPS temporaries that hold Lua registers;
-- and the operations of the machine put together, `mips_ops` of arch/mips/machine.c.
use too_legit_to_jit.Common.{
  ℕ, zero, suc, ◌+◌, ◌-◌, Bool, true, false, not, none, ◌==◌, if◌then◌else◌, assertion,
}
use too_legit_to_jit.Operand.{Operand}
use too_legit_to_jit.Emitter.{Emitter32, ec}
use too_legit_to_jit.Machine.{
  MachineOps, Emit, pure, ◌>>=◌, ◌>>◌, stop, get_machine, get_emitter, lift_result,
}
use too_legit_to_jit.Frame.{vreg_to_operand}
use too_legit_to_jit.Stack.{max_live_locals}
use too_legit_to_jit.Jitfunc.{JFunc, JFuncs, words_of_one}
use too_legit_to_jit.Mips.Move.{move, is_mips_temp, mips_carg, mips_cret}
use too_legit_to_jit.Mips.Arithmetic.{
  mips_add, mips_sub, mips_mul, mips_sdiv, mips_udiv, mips_smod, mips_umod, mips_pow, mips_or,
}
use too_legit_to_jit.Mips.Branch.{
  mips_b, mips_beq, mips_bne, mips_blt, mips_bgt, mips_ble, mips_bge,
}
use too_legit_to_jit.Mips.Call.{
  mjf_storetemp, mjf_loadtemp, mjf_count, mips_call, mips_ret, mips_static_ccall,
}

unfoldable pub do_spill : (a b : Operand) (doswap : Bool) → Emit (Unit {0})
do_spill a b doswap = if doswap then move b a else move a b

-- a call of `do_spill`, if `on` is a MIPS temporary, and how many it was
unfoldable pub spill_temp : (off on : Operand) (isspill : Bool) → Emit ℕ
spill_temp off on isspill =
    if is_mips_temp on then (do do_spill off on (not isspill); pure 1) else pure 0

unfoldable pub spill_vreg : (i : ℕ) (isspill : Bool) → Emit ℕ
spill_vreg i isspill = do
  m ← get_machine
  on ← lift_result (vreg_to_operand m i false)
  off ← lift_result (vreg_to_operand m i true)
  a ← spill_temp off.value on.value isspill
  b ← spill_temp off.type on.type isspill
  pure (a + b)

-- the loop from register `i` down to 0
unfoldable pub spill_from : (i : ℕ) (isspill : Bool) → Emit ℕ
spill_from zero isspill = spill_vreg 0 isspill
spill_from (suc i) isspill = do
  n ← spill_vreg (suc i) isspill
  rest ← spill_from i isspill
  pure (n + rest)

unfoldable pub do_spill_or_fill : JFunc → (isspill : Bool) → Emit JFunc
do_spill_or_fill jf isspill = do
  m ← get_machine
  start ← get_emitter
  spill ← spill_from (max_live_locals m) isspill
  end ← get_emitter
  mips_ret
  words ← words_of_one (ec end - ec start) spill
  pure (record jf { func_data = words })

unfoldable pub mips_jf_storetemp : JFunc → Emit JFunc
mips_jf_storetemp jf = do_spill_or_fill jf true

unfoldable pub mips_jf_loadtemp : JFunc → Emit JFunc
mips_jf_loadtemp jf = do_spill_or_fill jf false

unfoldable pub mips_jf_init : (idx : ℕ) → JFunc → Emit JFunc
mips_jf_init idx jf =
    if idx == mjf_storetemp
    then mips_jf_storetemp jf
    else if idx == mjf_loadtemp
    then mips_jf_loadtemp jf
    else stop assertion

unfoldable pub mips_ops : (buffer : Emitter32 → ℕ) → JFuncs → MachineOps
mips_ops buffer t = record {
  move = move;
  add = mips_add;
  sub = mips_sub;
  mul = mips_mul;
  sdiv = mips_sdiv;
  udiv = mips_udiv;
  smod = mips_smod;
  umod = mips_umod;
  pow = mips_pow;
  bor = mips_or;
  b = mips_b;
  beq = mips_beq;
  bne = mips_bne;
  blt = mips_blt;
  bgt = mips_bgt;
  ble = mips_ble;
  bge = mips_bge;
  call = mips_call buffer;
  ret = mips_ret;
  carg = mips_carg;
  cret = mips_cret;
  call_static_cfn = mips_static_ccall buffer t;
  push = none;
  pop = none;
}

unfoldable pub mips_nr_jfuncs : ℕ
mips_nr_jfuncs = mjf_count
