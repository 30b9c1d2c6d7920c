-- ===== src/Mips/Depth.antt =====
-- The bound on the depth of `move` in arch/mips/machine.c is enough.
use too_legit_to_jit.Common.{ℕ, zero, suc, ◌≡◌, refl}
use too_legit_to_jit.Operand.{Operand, reg, direct_addr, immed, op_target_reg, op_target_daddr}
use too_legit_to_jit.Machine.{Jit}
use too_legit_to_jit.Temporaries.{acquire_temp, release_temp, move_unspilled}
use too_legit_to_jit.Mips.Move.{move_at}

-- One level of nesting is enough for `move`: with more levels it does the same, whatever the
-- operands and the state.
move_at-depth : (n : ℕ) (d s : Operand) (j : Jit) → move_at (suc n) d s j ≡ move_at 1 d s j
unfolding move_at acquire_temp release_temp move_unspilled op_target_daddr op_target_reg
move_at-depth n (immed k) s j = refl
move_at-depth n (reg r) s j = refl
move_at-depth n (direct_addr b o) (reg r) j = refl
move_at-depth zero (direct_addr b o) (immed k) j = refl
move_at-depth (suc n) (direct_addr b o) (immed k) j = refl
move_at-depth zero (direct_addr b o) (direct_addr b' o') j = refl
move_at-depth (suc n) (direct_addr b o) (direct_addr b' o') j = refl
