-- ===== src/Temporaries.antt =====
-- temporaries.c: temporary registers with reference counts, spilt onto the stack in turn.
pub mod Acquire
pub mod Level
pub mod Slots
use Prim.Native.Nat.{bit_or}
use too_legit_to_jit.Common.{
  ℕ, zero, suc, ◌+◌, ◌-◌, ◌*◌, ◌/◌, ◌%◌, ◌^◌, Bool, true, false, List, [], ◌∷◌, ltb, ◌==◌,
  if◌then◌else◌, get_or, set, out_of_bounds,
}
use too_legit_to_jit.Word.{sub32, neg32, signed_lt}
use too_legit_to_jit.Operand.{Operand, reg, op_target_reg, op_target_daddr, iso_reg}
use too_legit_to_jit.Machine.{
  Machine, Jit, Emit, pure, ◌>>=◌, ◌>>◌, stop, check, get_machine, set_machine, when,
}

unfoldable pub get_reg : ℕ → ℕ
get_reg r = r % 2 ^ 16

unfoldable pub get_refcount : ℕ → ℕ
get_refcount r = r / 2 ^ 16 % 2 ^ 16

unfoldable pub set_refcount : ℕ → ℕ → ℕ
unfolding get_reg
set_refcount r rc = bit_or (rc % 2 ^ 16 * 2 ^ 16) (get_reg r)

-- `m->reg[ i ]`; the loops below stay under `nr_temp_regs`
abbrev pub reg_at : Machine → ℕ → ℕ
reg_at m i = get_or m.reg i 0

unfoldable pub refcount_at : Machine → ℕ → ℕ
unfolding get_refcount
refcount_at m i = get_refcount (reg_at m i)

unfoldable pub abs_stack_offset : (idx rc n : ℕ) → ℕ
abs_stack_offset idx rc n = 4 * (sub32 rc 1 * n + idx + rc) % 2 ^ 32

-- `for( i = nr_temp_regs - 1; i > 0; i-- )` up to its `break`
unfoldable pub acquire_slot : Machine → ℕ → ℕ
unfolding refcount_at
acquire_slot m zero = 0
acquire_slot m (suc i) =
    let rest = acquire_slot m i in
    if ltb (refcount_at m (suc i)) (refcount_at m i) then suc i else rest

-- `for( i = 0; i < nr_temp_regs - 1; i++ )` up to its `break`, with the rounds that are left
unfoldable pub release_slot : Machine → ℕ → ℕ → ℕ
unfolding refcount_at
release_slot m zero i = i
release_slot m (suc left) i =
    let rest = release_slot m left (suc i) in
    if ltb (refcount_at m (suc i)) (refcount_at m i) then i else rest

-- unsigned arithmetic, so that no temporary in use gives 0
unfoldable pub temps_accessed : Machine → ℕ
unfolding release_slot
temps_accessed m =
    let i = release_slot m (m.nr_temp_regs - 1) 0 in
    (sub32 (refcount_at m i) 1 * m.nr_temp_regs + i + 1) % 2 ^ 32

-- include/machine.h
unfoldable pub has_spill : Machine → Bool
unfolding temps_accessed
has_spill m = signed_lt m.nr_temp_regs (temps_accessed m)

unfoldable pub disable_spill : Emit Bool
disable_spill = do
  m ← get_machine
  set_machine (record m { allow_spill = false })
  pure m.allow_spill

unfoldable pub restore_spill : Bool → Emit (Unit {0})
restore_spill prior = do m ← get_machine; set_machine (record m { allow_spill = prior })

unfoldable pub enable_spill : Emit (Unit {0})
enable_spill = do m ← get_machine; set_machine (record m { allow_spill = true })

unfoldable pub spill_off : ℕ → ℕ → ℕ → ℕ
unfolding abs_stack_offset
spill_off i rc n = neg32 (abs_stack_offset i rc n)

unfoldable pub set_slot : Machine → ℕ → ℕ → Machine
unfolding set_refcount
set_slot m i rc = record m { reg = set m.reg i (set_refcount (reg_at m i) rc) }

-- `if( ta > m->max_access ) m->max_access = ta;`
unfoldable pub update_max : Machine → Machine
unfolding temps_accessed
update_max m =
    if signed_lt m.max_access (temps_accessed m)
    then record m { max_access = temps_accessed m }
    else m

-- The functions take the `move` of the machine's operations.
module _ (move : Operand → Operand → Emit (Unit {0})) where
  -- a move with spilling disabled
  unfoldable pub move_unspilled : Operand → Operand → Emit (Unit {0})
  unfolding disable_spill restore_spill
  move_unspilled dst src = do prior ← disable_spill; move dst src; restore_spill prior

  unfoldable pub acquire_temp : Emit ℕ
  acquire_temp = do
    m ← get_machine
    if m.nr_temp_regs == 0 then stop out_of_bounds else (do
      let i = acquire_slot m (m.nr_temp_regs - 1)
      let rc = refcount_at m i
      let reg = get_reg (reg_at m i)
      when (ltb 0 rc) (do
        check m.allow_spill
        move_unspilled (op_target_daddr m.sp (spill_off i rc m.nr_temp_regs)) (op_target_reg reg))
      m' ← get_machine
      set_machine (update_max (set_slot m' i (rc + 1)))
      pure reg)

  -- The result says whether the register is still in use.
  unfoldable pub release_temp : Emit Bool
  release_temp = do
    m ← get_machine
    if m.nr_temp_regs == 0 then stop out_of_bounds else (do
      let i = release_slot m (m.nr_temp_regs - 1) 0
      let reg = get_reg (reg_at m i)
      let rc = refcount_at m i
      check (ltb 0 rc)
      when (ltb 0 (rc - 1)) (
          move_unspilled (op_target_reg reg)
            (op_target_daddr m.sp (spill_off i (rc - 1) m.nr_temp_regs)))
      m' ← get_machine
      set_machine (set_slot m' i (rc - 1))
      pure (ltb 0 (rc - 1)))

  -- `release_tempn` and `unload_coregisters`
  unfoldable pub release_tempn : ℕ → Emit (Unit {0})
  release_tempn zero = pure tt
  release_tempn (suc n) = do _ ← release_temp; release_tempn n

  -- The operands as `load_coregisters` leaves them, and the number of temporaries taken.
  unfoldable pub load_operands : List Operand → Emit (List Operand × ℕ)
  load_operands [] = pure ([], 0)
  load_operands (o ∷ os) =
      if iso_reg o then (do (os', n) ← load_operands os; pure (o ∷ os', n)) else (do
        t ← acquire_temp
        move_unspilled (op_target_reg t) o
        (os', n) ← load_operands os
        pure (op_target_reg t ∷ os', n + 1))

  unfoldable pub load_coregisters : List Operand → Emit (List Operand × ℕ)
  load_coregisters os = do
    (os', temps) ← load_operands os
    m ← get_machine
    check (ltb temps (m.nr_temp_regs + 1))
    pure (os', temps)

unfoldable pub is_temp_below : Machine → ℕ → ℕ → Bool
unfolding get_reg
is_temp_below m zero r = false
is_temp_below m (suc n) r = if get_reg (reg_at m n) == r then true else is_temp_below m n r

unfoldable pub is_temp : Machine → ℕ → Bool
unfolding is_temp_below
is_temp m r = is_temp_below m m.nr_temp_regs r
