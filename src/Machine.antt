-- ===== src/Machine.antt =====
-- include/machine.h: the physical machine, the state of a translation, and the operations that an
-- architecture provides.
use too_legit_to_jit.Common.{
  ℕ, Bool, List, Option, Fault, assertion, Result, ok, fail, and_then, if◌then◌else◌,
}
use too_legit_to_jit.Emitter.{Emitter32}
use too_legit_to_jit.Operand.{Operand, Label, VregOperand}

-- `reg` holds register numbers in the lower halves of its words and reference counts in the upper
-- ones; the first `nr_temp_regs` registers are the temporaries.
pub record Machine : Type 0 where
  pub sp : ℕ
  pub fp : ℕ
  pub ra : ℕ
  pub is_ra : Bool
  pub nr_reg : ℕ
  pub nr_temp_regs : ℕ
  pub allow_spill : Bool
  pub max_access : ℕ
  pub reg : List ℕ

-- The emitter and the machine, which every function of the translator takes by pointer.
pub record Jit : Type 0 where
  pub emitter : Emitter32
  pub machine : Machine

abbrev pub Emit : Type 0 → Type 0
Emit A = Jit → Result (A × Jit)

abbrev pub pure : {A : Type 0} → A → Emit A
pure a j = ok (a, j)

infixl 5 ◌>>=◌ ◌>>◌
abbrev pub ◌>>=◌ : {A B : Type 0} → Emit A → (A → Emit B) → Emit B
◌>>=◌ m f j = and_then (m j) λ r. f r.0 r.1

abbrev pub ◌>>◌ : {B : Type 0} → Emit (Unit {0}) → Emit B → Emit B
m >> k = m >>= λ _. k

-- a branch of the source that fails an assertion
abbrev pub stop : {A : Type 0} → Fault → Emit A
stop x j = fail x

-- `assert( test )`
abbrev pub check : Bool → Emit (Unit {0})
check test j = if test then ok (tt, j) else fail assertion

abbrev pub get_machine : Emit Machine
get_machine j = ok (j.machine, j)

abbrev pub get_emitter : Emit Emitter32
get_emitter j = ok (j.emitter, j)

abbrev pub set_machine : Machine → Emit (Unit {0})
set_machine m j = ok (tt, record j { machine = m })

abbrev pub set_emitter : Emitter32 → Emit (Unit {0})
set_emitter e j = ok (tt, record j { emitter = e })

abbrev pub lift_emitter : (Emitter32 → Result Emitter32) → Emit (Unit {0})
lift_emitter f j = and_then (f j.emitter) λ e. ok (tt, record j { emitter = e })

abbrev pub when : Bool → Emit (Unit {0}) → Emit (Unit {0})
when test m = if test then m else pure tt

-- include/frame.h; the machine of a frame is the one of the translation
pub record Frame : Type 0 where
  pub nr_locals : ℕ
  pub nr_params : ℕ
  pub nr_consts : ℕ
  pub epi : ℕ
  pub pro : ℕ
  pub consts : List VregOperand

abbrev pub lift_result : {A : Type 0} → Result A → Emit A
lift_result r j = and_then r λ a. ok (a, j)

-- `struct machine_ops`; a C function is called by its address, with the operand that gets the
-- result, if any, and the arguments.
pub record MachineOps : Type 0 where
  pub move : Operand → Operand → Emit (Unit {0})
  pub add : Operand → Operand → Operand → Emit (Unit {0})
  pub sub : Operand → Operand → Operand → Emit (Unit {0})
  pub mul : Operand → Operand → Operand → Emit (Unit {0})
  pub sdiv : Operand → Operand → Operand → Emit (Unit {0})
  pub udiv : Operand → Operand → Operand → Emit (Unit {0})
  pub smod : Operand → Operand → Operand → Emit (Unit {0})
  pub umod : Operand → Operand → Operand → Emit (Unit {0})
  pub pow : Operand → Operand → Operand → Emit (Unit {0})
  pub bor : Operand → Operand → Operand → Emit (Unit {0})
  pub b : Label → Emit (Unit {0})
  pub beq : Operand → Operand → Label → Emit (Unit {0})
  pub bne : Operand → Operand → Label → Emit (Unit {0})
  pub blt : Operand → Operand → Label → Emit (Unit {0})
  pub bgt : Operand → Operand → Label → Emit (Unit {0})
  pub ble : Operand → Operand → Label → Emit (Unit {0})
  pub bge : Operand → Operand → Label → Emit (Unit {0})
  pub call : Label → Emit (Unit {0})
  pub ret : Emit (Unit {0})
  pub carg : Machine → ℕ → Operand
  pub cret : Operand
  pub call_static_cfn : Frame → ℕ → Option Operand → List Operand → Emit (Unit {0})
  pub push : Option (Operand → Emit (Unit {0}))
  pub pop : Option (Operand → Emit (Unit {0}))
