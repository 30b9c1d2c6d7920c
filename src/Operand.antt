-- ===== src/Operand.antt =====
-- include/operand.h and operand.c: operands and labels of the generic machine, and the register or
-- constant operands of the Lua machine. Registers are numbered; `int` and `int16_t` values are
-- 32-bit patterns.
use too_legit_to_jit.Common.{ℕ, ◌-◌, ◌/◌, ◌%◌, ◌^◌, Bool, true, false, not, ◌==◌, if◌then◌else◌}
use too_legit_to_jit.Word.{sext16}

pub data Operand : Type 0 where
  reg : ℕ → Operand
  direct_addr : (base offset : ℕ) → Operand
  immed : ℕ → Operand

unfoldable pub op_target_reg : ℕ → Operand
op_target_reg r = reg r

-- the field `offset` is an `int16_t`
unfoldable pub op_target_daddr : ℕ → ℕ → Operand
op_target_daddr b off = direct_addr b (sext16 off)

unfoldable pub op_target_immed : ℕ → Operand
op_target_immed k = immed k

unfoldable pub iso_reg : Operand → Bool
iso_reg (reg r) = true
iso_reg _ = false

unfoldable pub iso_daddr : Operand → Bool
iso_daddr (direct_addr b o) = true
iso_daddr _ = false

unfoldable pub iso_immed : Operand → Bool
iso_immed (immed k) = true
iso_immed _ = false

pub data Label : Type 0 where
  label_pc : (vline : ℕ) → Label
  label_local : (local : ℕ) (isnext : Bool) → Label
  label_ec : (ec : ℕ) → Label
  label_absolute : (abs : Operand) → Label

unfoldable pub lbl_next : ℕ → Label
lbl_next l = label_local l true

unfoldable pub lbl_prev : ℕ → Label
lbl_prev l = label_local l false

unfoldable pub isl_abs : Label → Bool
isl_abs (label_absolute abs) = true
isl_abs _ = false

-- `vreg_operand`: where the value and the type of a Lua variable are
pub record VregOperand : Type 0 where
  pub value : Operand
  pub type : Operand

pub record Loperand : Type 0 where
  pub islocal : Bool
  pub index : ℕ

-- `BITRK`, `ISK` and `INDEXK` of include/lopcodes.h
abbrev pub bitrk : ℕ
bitrk = 2 ^ 8

-- bit 8 of a value
unfoldable pub isk : ℕ → Bool
isk x = x / bitrk % 2 == 1

unfoldable pub indexk : ℕ → ℕ
unfolding isk
indexk r = if isk r then r - bitrk else r

unfoldable pub to_loperand : ℕ → Loperand
unfolding isk indexk
to_loperand rk =
    let islocal = not (isk rk) in
    record { islocal = islocal; index = if islocal then rk else indexk rk }
