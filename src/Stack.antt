-- ===== src/Stack.antt =====
-- stack.c: saving the Lua registers of a frame to the stack, and loading them.
pub mod Sections
use too_legit_to_jit.Common.{ℕ, zero, suc, ◌+◌, ◌-◌, ◌/◌, Bool, true, false, ◌||◌, if◌then◌else◌}
use too_legit_to_jit.Operand.{Operand, iso_reg}
use too_legit_to_jit.Machine.{
  Machine, Frame, MachineOps, Emit, pure, ◌>>=◌, ◌>>◌, get_machine, lift_result,
}
use too_legit_to_jit.Frame.{vreg_to_operand}

-- `int_ceil_div` of include/macros.h
unfoldable pub int_ceil_div : ℕ → ℕ → ℕ
int_ceil_div a b = (a + (b - 1)) / b

unfoldable pub max_live_locals : Machine → ℕ
unfolding int_ceil_div
max_live_locals m = int_ceil_div (m.nr_reg - m.nr_temp_regs) 2

module _ (mop : MachineOps) where
  -- One round of the inner loop: a move where one side is a register, and how many moves it was.
  unfoldable pub x_slot : (d s : Operand) → Emit ℕ
  x_slot d s = if iso_reg s || iso_reg d then (do mop.move d s; pure 1) else pure 0

  -- `n` registers from `off` on, the last one first
  unfoldable pub x_frame : (isstore : Bool) → (off n : ℕ) → Emit ℕ
  unfolding x_slot
  x_frame isstore off zero = pure 0
  x_frame isstore off (suc n) = do
    m ← get_machine
    stack ← lift_result (vreg_to_operand m (off + n) true)
    live ← lift_result (vreg_to_operand m (off + n) false)
    let d = if isstore then stack else live
    let s = if isstore then live else stack
    a ← x_slot d.value s.value
    b ← x_slot d.type s.type
    rest ← x_frame isstore off n
    pure (a + b + rest)

  unfoldable pub store_frame : Frame → Emit (Unit {0})
  unfolding x_frame
  store_frame f = do _ ← x_frame true 0 f.nr_locals; pure tt

  unfoldable pub load_frame : Frame → Emit (Unit {0})
  unfolding x_frame
  load_frame f = do _ ← x_frame false 0 f.nr_locals; pure tt

  unfoldable pub load_frame_limit : (off n : ℕ) → Emit (Unit {0})
  unfolding x_frame
  load_frame_limit off n = do _ ← x_frame false off n; pure tt

  unfoldable pub save_frame_limit : (off n : ℕ) → Emit (Unit {0})
  unfolding x_frame
  save_frame_limit off n = do _ ← x_frame true off n; pure tt
