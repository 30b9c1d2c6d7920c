-- ===== src/Tests/Words.antt =====
-- The words of the MIPS instructions at concrete inputs.
use too_legit_to_jit.Common.{ℕ, ◌%◌, ◌^◌, ◌≡◌, refl, some, List, arith, ok}
use too_legit_to_jit.Operand.{immed, reg}
use too_legit_to_jit.Mips.Opcodes.{mi_addiu, mi_addu, mi_lw, mi_subu, mi_sll, mi_sw}
use too_legit_to_jit.Mips.Isa.{addu, subu, sll, addiu, lw, sw, decode, read}
use too_legit_to_jit.Word.{add32, sub32, ispowerof2}
use too_legit_to_jit.Word.Manip.{
  roundup_power2, rounddown_power2, bitfield_overwrite, bitfield_write, bitfield_encode,
  bitfield_mask, powerof2,
}
use too_legit_to_jit.Mips.Arithmetic.{is_add_immed, mips_add, mips_sub}
use too_legit_to_jit.Mips.Sums.{mips_add-Loads, mips_sub-Loads}
use too_legit_to_jit.Mips.Encoding.{decode-mi}
use too_legit_to_jit.Mips.Move.{move}
use too_legit_to_jit.Mips.MoveLaws.{Emits, Loads, value, move-Loads}

decode-mi_example :
    (decode (mi_addu 4 5 6) ≡ some (addu 4 5 6))
    × (decode (mi_subu 4 5 6) ≡ some (subu 4 5 6))
    × (decode (mi_sll 4 5 6) ≡ some (sll 4 5 6))
    × (decode (mi_addiu 4 5 70000) ≡ some (addiu 4 5 (70000 % 2 ^ 16)))
    × (decode (mi_lw 4 5 70000) ≡ some (lw 4 5 (70000 % 2 ^ 16)))
    × (decode (mi_sw 4 5 70000) ≡ some (sw 4 5 (70000 % 2 ^ 16)))
decode-mi_example = decode-mi 4 5 6 70000 (omega arith) (omega arith) (omega arith)

move-Loads_example :
    (ws : List ℕ) × Emits (move (reg 8) (immed 70000)) ws × Loads ws 8 (λ c. value c (immed 70000))
move-Loads_example = move-Loads 8 (omega arith) (λ e. omega arith) (immed 70000) (omega arith)

mips_add-Loads_example :
    ((ws : List ℕ) × Emits (mips_add (reg 8) (reg 9) (immed 5)) ws
      × Loads ws 8 (λ c. add32 (read c 9) (value c (immed 5))))
    × ((ws : List ℕ) × Emits (mips_add (reg 8) (immed 5) (reg 9)) ws
        × Loads ws 8 (λ c. add32 (value c (immed 5)) (read c 9)))
unfolding is_add_immed
mips_add-Loads_example =
    mips_add-Loads 8 (omega arith) (λ e. omega arith) 9 (immed 5) (omega arith) (omega arith, refl)

mips_sub-Loads_example :
    (ws : List ℕ) × Emits (mips_sub (reg 8) (reg 9) (immed 5)) ws
    × Loads ws 8 (λ c. sub32 (read c 9) (value c (immed 5)))
unfolding is_add_immed
mips_sub-Loads_example =
    mips_sub-Loads 8 (omega arith) (λ e. omega arith) 9 (immed 5) (omega arith) (omega arith, refl)

roundup_power2_13 : roundup_power2 13 8 ≡ ok 16
unfolding roundup_power2 ispowerof2
roundup_power2_13 = refl

rounddown_power2_13 : rounddown_power2 13 8 ≡ ok 8
unfolding rounddown_power2 ispowerof2
rounddown_power2_13 = refl

bitfield_overwrite_255 : bitfield_overwrite 4 3 2 255 ≡ 175
unfolding bitfield_overwrite bitfield_write bitfield_encode bitfield_mask powerof2
bitfield_overwrite_255 = refl
