-- ===== src/Mips/Move.antt =====
-- arch/mips/machine.c: loading immediates and registers, and `move`.
use too_legit_to_jit.Common.{
  ℕ, zero, suc, ◌+◌, ◌-◌, ◌*◌, ◌/◌, ◌^◌, Bool, true, false, ◌&&◌, ◌||◌, ltb, leb, if◌then◌else◌, [],
  ◌∷◌, assertion, out_of_fuel,
}
use too_legit_to_jit.Word.{low16, is_negative}
use too_legit_to_jit.Operand.{
  Operand, reg, direct_addr, immed, iso_reg, op_target_reg, op_target_daddr,
}
use too_legit_to_jit.Emitter.{encode_op}
use too_legit_to_jit.Machine.{Machine, Emit, pure, ◌>>=◌, ◌>>◌, stop}
use too_legit_to_jit.Temporaries.{acquire_temp, release_temp}
use too_legit_to_jit.Mips.Opcodes.{
  gen_mips_opcode_2reg, gen_mips_opcode_3reg, mi_sw, mop_lui, mop_ori, mop_addiu, mop_lw,
  mop_special, mop_special_or, r_zero, r_a0, r_v0,
}

-- `EMIT( x )`
unfoldable pub emit : ℕ → Emit (Unit {0})
emit w j = pure tt (record j { emitter = encode_op (j.emitter) w })

unfoldable pub load_bigim : (r k : ℕ) → Emit (Unit {0})
load_bigim r k = do
  emit (gen_mips_opcode_2reg mop_lui 0 r (low16 (k / 2 ^ 16)))
  emit (gen_mips_opcode_2reg mop_ori r r (low16 k))

-- `k >= -32768 && k <= 65535`
unfoldable pub fits_one : ℕ → Bool
fits_one k = ltb k 65536 || leb (2 ^ 32 - 32768) k

unfoldable pub loadim : (r k : ℕ) → Emit (Unit {0})
loadim r k =
    if fits_one k
    then (if is_negative k
        then emit (gen_mips_opcode_2reg mop_addiu r_zero r k)
        else emit (gen_mips_opcode_2reg mop_ori r_zero r k))
    else load_bigim r k

unfoldable pub loadreg : Operand → (temp_reg : ℕ) → (forcereg : Bool) → Emit (Unit {0})
loadreg (immed k) temp_reg forcereg = loadim temp_reg k
loadreg (direct_addr base offset) temp_reg forcereg =
    emit (gen_mips_opcode_2reg mop_lw base temp_reg offset)
loadreg (reg r) temp_reg forcereg =
    if forcereg
    then emit (gen_mips_opcode_3reg mop_special r r_zero temp_reg mop_special_or)
    else pure tt

-- `move` calls `acquire_temp`, which spills by `move`; the calls nest `depth` deep. A spill is
-- between a register and the stack, so it needs no temporary.
unfoldable pub move_at : (depth : ℕ) → (d s : Operand) → Emit (Unit {0})
move_at depth (immed k) s = stop assertion
move_at depth (reg r) s = loadreg s r (iso_reg s)
move_at depth (direct_addr base offset) (reg r) = do
  loadreg (reg r) r false
  emit (mi_sw r base offset)
move_at zero (direct_addr base offset) s = stop out_of_fuel
move_at (suc depth) (direct_addr base offset) s = do
  t ← acquire_temp (move_at depth)
  loadreg s t false
  emit (mi_sw t base offset)
  _ ← release_temp (move_at depth)
  pure tt

unfoldable pub move : (d s : Operand) → Emit (Unit {0})
move = move_at 1

-- `MIPSREG_ISTEMP`
unfoldable pub mipsreg_istemp : ℕ → Bool
mipsreg_istemp r = (leb 8 r && leb r 15) || (leb 24 r && leb r 25)

unfoldable pub is_mips_temp : Operand → Bool
is_mips_temp (reg r) = mipsreg_istemp r
is_mips_temp _ = false

unfoldable pub mips_carg : Machine → ℕ → Operand
mips_carg m argidx =
    if ltb argidx 4 then op_target_reg (r_a0 + argidx) else op_target_daddr m.sp (16 + 4 * argidx)

unfoldable pub mips_cret : Operand
mips_cret = op_target_reg r_v0

-- `mips_mach`, with `allow_spill` set by `main`
abbrev pub mips_mach : Machine
mips_mach = record {
  sp = 29;
  fp = 30;
  ra = 31;
  is_ra = true;
  nr_reg = 22;
  nr_temp_regs = 4;
  allow_spill = true;
  max_access = 0;
  reg =
      4 ∷ 5 ∷ 6 ∷ 7 ∷ 16 ∷ 17 ∷ 18 ∷ 19 ∷ 20 ∷ 21 ∷ 22 ∷ 23 ∷ 8 ∷ 9 ∷ 10 ∷ 11 ∷ 12 ∷ 14 ∷ 14 ∷ 15
      ∷ 24 ∷ 25 ∷ [];
}
