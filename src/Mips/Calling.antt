-- ===== src/Mips/Calling.antt =====
-- arch/mips/call.c: the argument registers of a C call, and the moves that bring the arguments
-- into them. A matrix has a row for each argument register; row `i` is marked at `j` where register
-- `i` gets the value of register `j`, and at `i` where the source means a stack slot.
use too_legit_to_jit.Common.{
  ℕ, zero, suc, ◌+◌, ◌-◌, ◌*◌, ◌%◌, ◌^◌, ◌++◌, replicate, Bool, true, false, ◌&&◌, List, [], ◌∷◌,
  leb, ◌==◌, if◌then◌else◌, get_or, set, out_of_fuel, Result, ok, fail, and_then,
}
use too_legit_to_jit.Word.{sub32, neg32}
use too_legit_to_jit.Operand.{Operand, reg, op_target_reg, op_target_daddr}
use too_legit_to_jit.Machine.{Emit, pure, ◌>>=◌, ◌>>◌, get_machine, lift_result}
use too_legit_to_jit.Mips.Opcodes.{r_a0}
use too_legit_to_jit.Mips.Arithmetic.{reg_of}

abbrev pub Matrix : Type 0
Matrix = List (List ℕ)

-- `MIPSREG_ISARG` and `MIPSREG_ARGIDX` of include/arch/mips/regdef.h
unfoldable pub mipsreg_isarg : ℕ → Bool
mipsreg_isarg r = leb 4 r && leb r 7

unfoldable pub mipsreg_argidx : ℕ → ℕ
mipsreg_argidx r = r - r_a0

-- `ISO_REG( o ) && MIPSREG_ISARG( o.reg )`
unfoldable pub is_arg_reg : Operand → Bool
unfolding mipsreg_isarg
is_arg_reg (reg r) = mipsreg_isarg r
is_arg_reg _ = false

abbrev pub row : Matrix → ℕ → List ℕ
row g i = get_or g i []

unfoldable pub set_entry : Matrix → (i j v : ℕ) → Matrix
set_entry g i j v = set g i (set (row g i) j v)

-- one more than the first marked column from `j` on, or 0
unfoldable pub zerorow_from : ℕ → List ℕ → ℕ
zerorow_from j [] = 0
zerorow_from j (x ∷ xs) = let rest = zerorow_from (j + 1) xs in if x == 0 then rest else j + 1

unfoldable pub zerorow : Matrix → ℕ → ℕ
unfolding zerorow_from
zerorow g r = zerorow_from 0 (row g r)

unfoldable pub zerocol_from : (i c : ℕ) → Matrix → Bool
zerocol_from i c [] = true
zerocol_from i c (xs ∷ rows) =
    let rest = zerocol_from (i + 1) c rows in
    if i == c then rest else if get_or xs c 0 == 0 then rest else false

unfoldable pub zerocol : Matrix → ℕ → Bool
unfolding zerocol_from
zerocol g c = zerocol_from 0 c g

-- the loop of `resolv_cycle` from row `i` on, with the new stack offset cut to the `uint8_t` of the
-- matrix; `n` rows are left
unfoldable pub resolv_rows : (n i v slot : ℕ) → Matrix → Matrix
unfolding zerorow set_entry
resolv_rows zero i v slot g = g
resolv_rows (suc n) i v slot g =
    resolv_rows n (i + 1) v slot
      (if zerorow g i == v then set_entry (set_entry g i (v - 1) 0) i i slot else g)

-- The matrix and `*sp` as the function leaves them.
unfoldable pub resolv_cycle : (n : ℕ) → Matrix → (v stack : ℕ) → Matrix × ℕ
unfolding resolv_rows
resolv_cycle n g v stack =
    let stack' = sub32 stack 4 in (resolv_rows n 0 v (stack' % 2 ^ 8) g, stack')

-- A pass of `assign_arg_regs` over the rows: the matrix, `unresolved`, `resolved`, and the moves
-- made, in their order, with the destination first.
pub record Pass : Type 0 where
  pub dgraph : Matrix
  pub unresolved : ℕ
  pub resolved : ℕ

abbrev pub Moves : Type 0
Moves = List (Operand × Operand)

unfoldable pub assign_rows : (n i sp : ℕ) → Pass → Pass × Moves
unfolding zerorow zerocol set_entry
assign_rows zero i sp p = (p, [])
assign_rows (suc n) i sp p =
    let v = zerorow p.dgraph i in
    let src =
      if v - 1 == i
      then op_target_daddr sp (get_or (row p.dgraph i) i 0)
      else op_target_reg (r_a0 + (v - 1)) in
    let p' : Pass =
      if v == 0
      then p
      else if zerocol p.dgraph i
      then record p { dgraph = set_entry p.dgraph i (v - 1) 0; resolved = p.resolved + 1 }
      else record p { unresolved = i + 1 } in
    let rest = assign_rows n (i + 1) sp p' in
    (
      rest.0,
      if v == 0
          then rest.1
          else if zerocol p.dgraph i
          then (op_target_reg (r_a0 + i), src) ∷ rest.1
          else rest.1,
    )

-- the moves of the passes, on fuel
unfoldable pub assign_passes : (fuel n sp : ℕ) → Matrix → (stack : ℕ) → Result Moves
unfolding assign_rows resolv_cycle
assign_passes zero n sp g stack = fail out_of_fuel
assign_passes (suc fuel) n sp g stack =
    let (p, moves) = assign_rows n 0 sp (record { dgraph = g; unresolved = 0; resolved = 0 }) in
    let next =
      if p.resolved == 0 then resolv_cycle n p.dgraph p.unresolved stack else (p.dgraph, stack) in
    let rest = assign_passes fuel n sp next.0 next.1 in
    if p.unresolved == 0 then ok moves else and_then rest λ later. ok (moves ++ later)

-- Every pass makes a move or turns a mark into one on the diagonal, so that twice as many passes as
-- there are registers, and one more, are enough.
unfoldable pub assign_moves : (n sp : ℕ) → Matrix → Result Moves
unfolding assign_passes
assign_moves n sp g = assign_passes (n * 2 + 1) n sp g (neg32 4)

unfoldable pub each_move : (Operand → Operand → Emit (Unit {0})) → Moves → Emit (Unit {0})
each_move move [] = pure tt
each_move move ((d, s) ∷ ms) = do move d s; each_move move ms

unfoldable pub assign_arg_regs :
    (move : Operand → Operand → Emit (Unit {0})) (n : ℕ) → Matrix → Emit (Unit {0})
unfolding assign_moves each_move
assign_arg_regs move n g = do
  m ← get_machine
  moves ← lift_result (assign_moves n m.sp g)
  each_move move moves

-- `dep_graph`, from the operands
unfoldable pub dep_row : Operand → List ℕ
unfolding is_arg_reg mipsreg_argidx
dep_row o =
    if is_arg_reg o then set (replicate 4 0) (mipsreg_argidx (reg_of o)) 1 else replicate 4 0

unfoldable pub dep_graph : (n : ℕ) → List Operand → Matrix
unfolding dep_row
dep_graph zero args = []
dep_graph (suc n) [] = replicate 4 0 ∷ dep_graph n []
dep_graph (suc n) (o ∷ os) = dep_row o ∷ dep_graph n os
