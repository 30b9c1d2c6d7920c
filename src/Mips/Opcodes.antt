-- ===== src/Mips/Opcodes.antt =====
-- include/arch/mips/opcodes.h and regdef.h: instruction words.
pub mod Unused
use Prim.Native.Nat.{bit_or}
use too_legit_to_jit.Common.{ℕ, ◌*◌, ◌/◌, ◌%◌, ◌^◌}
use too_legit_to_jit.Word.{sext16}

unfoldable pub gen_mips_opcode_3reg : (primaryop rs rt rd secondaryop : ℕ) → ℕ
gen_mips_opcode_3reg primaryop rs rt rd secondaryop =
    bit_or
      (bit_or
        (bit_or (bit_or (primaryop % 2 ^ 6 * 2 ^ 26) (secondaryop % 2 ^ 6)) (rs % 2 ^ 5 * 2 ^ 21))
        (rt % 2 ^ 5 * 2 ^ 16))
      (rd % 2 ^ 5 * 2 ^ 11)

unfoldable pub gen_mips_opcode_2reg : (primaryop rs rt immed : ℕ) → ℕ
gen_mips_opcode_2reg primaryop rs rt immed =
    bit_or
      (bit_or (bit_or (primaryop % 2 ^ 6 * 2 ^ 26) (rs % 2 ^ 5 * 2 ^ 21)) (rt % 2 ^ 5 * 2 ^ 16))
      (immed % 2 ^ 16)

unfoldable pub gen_mips_opcode_abs : (op ins_idx : ℕ) → ℕ
gen_mips_opcode_abs op ins_idx = bit_or (op % 2 ^ 6 * 2 ^ 26) (ins_idx % 2 ^ 26)

unfoldable pub gen_mips_opcode_3reg_tert : (primaryop rs rt rd secondaryop tertop : ℕ) → ℕ
unfolding gen_mips_opcode_3reg
gen_mips_opcode_3reg_tert primaryop rs rt rd secondaryop tertop =
    bit_or (gen_mips_opcode_3reg primaryop rs rt rd secondaryop) (tertop % 2 ^ 6 * 2 ^ 6)

abbrev pub mop_special : ℕ
mop_special = 0

abbrev pub mop_special_sll : ℕ
mop_special_sll = 0

abbrev pub mop_special_srl : ℕ
mop_special_srl = 2

abbrev pub mop_special_sra : ℕ
mop_special_sra = 3

abbrev pub mop_special_jr : ℕ
mop_special_jr = 8

abbrev pub mop_special_jalr : ℕ
mop_special_jalr = 9

abbrev pub mop_special_mfhi : ℕ
mop_special_mfhi = 16

abbrev pub mop_special_mflo : ℕ
mop_special_mflo = 18

abbrev pub mop_special_div : ℕ
mop_special_div = 26

abbrev pub mop_special_divu : ℕ
mop_special_divu = 27

abbrev pub mop_special_addu : ℕ
mop_special_addu = 33

abbrev pub mop_special_subu : ℕ
mop_special_subu = 35

abbrev pub mop_special_or : ℕ
mop_special_or = 37

abbrev pub mop_bltz : ℕ
mop_bltz = 1

abbrev pub mop_bgez : ℕ
mop_bgez = 1

abbrev pub mop_j : ℕ
mop_j = 2

abbrev pub mop_jal : ℕ
mop_jal = 3

abbrev pub mop_beq : ℕ
mop_beq = 4

abbrev pub mop_bne : ℕ
mop_bne = 5

abbrev pub mop_blez : ℕ
mop_blez = 6

abbrev pub mop_bgtz : ℕ
mop_bgtz = 7

abbrev pub mop_addiu : ℕ
mop_addiu = 9

abbrev pub mop_ori : ℕ
mop_ori = 13

abbrev pub mop_lui : ℕ
mop_lui = 15

abbrev pub mop_bgtzl : ℕ
mop_bgtzl = 23

abbrev pub mop_special2 : ℕ
mop_special2 = 28

abbrev pub mop_special2_mul : ℕ
mop_special2_mul = 2

abbrev pub mop_lw : ℕ
mop_lw = 35

abbrev pub mop_sw : ℕ
mop_sw = 43

abbrev pub r_zero : ℕ
r_zero = 0

abbrev pub r_v0 : ℕ
r_v0 = 2

abbrev pub r_a0 : ℕ
r_a0 = 4

abbrev pub r_t0 : ℕ
r_t0 = 8

abbrev pub r_ra : ℕ
r_ra = 31

unfoldable pub mi_addiu : (rt rs i : ℕ) → ℕ
unfolding gen_mips_opcode_2reg
mi_addiu rt rs i = gen_mips_opcode_2reg mop_addiu rs rt (sext16 i)

unfoldable pub mi_addu : (rd rs rt : ℕ) → ℕ
unfolding gen_mips_opcode_3reg
mi_addu rd rs rt = gen_mips_opcode_3reg mop_special rs rt rd mop_special_addu

unfoldable pub mi_subu : (rd rs rt : ℕ) → ℕ
unfolding gen_mips_opcode_3reg
mi_subu rd rs rt = gen_mips_opcode_3reg mop_special rs rt rd mop_special_subu

unfoldable pub mi_negu : (rd rs : ℕ) → ℕ
unfolding mi_subu
mi_negu rd rs = mi_subu rd r_zero rs

unfoldable pub mi_lw : (rt base off : ℕ) → ℕ
unfolding gen_mips_opcode_2reg
mi_lw rt base off = gen_mips_opcode_2reg mop_lw base rt (sext16 off)

unfoldable pub mi_sw : (rt base off : ℕ) → ℕ
unfolding gen_mips_opcode_2reg
mi_sw rt base off = gen_mips_opcode_2reg mop_sw base rt (sext16 off)

unfoldable pub mi_sll : (rd rt sa : ℕ) → ℕ
unfolding gen_mips_opcode_3reg_tert
mi_sll rd rt sa = gen_mips_opcode_3reg_tert mop_special r_zero rt rd mop_special_sll sa

unfoldable pub mi_sra : (rd rt sa : ℕ) → ℕ
unfolding gen_mips_opcode_3reg_tert
mi_sra rd rt sa = gen_mips_opcode_3reg_tert mop_special r_zero rt rd mop_special_sra sa

unfoldable pub mi_srl : (rd rt sa : ℕ) → ℕ
unfolding gen_mips_opcode_3reg_tert
mi_srl rd rt sa = gen_mips_opcode_3reg_tert mop_special r_zero rt rd mop_special_srl sa

unfoldable pub mi_nop : ℕ
mi_nop = 0

unfoldable pub mi_b : (off : ℕ) → ℕ
unfolding gen_mips_opcode_2reg
mi_b off = gen_mips_opcode_2reg mop_beq 0 0 off

unfoldable pub mi_bal : (off : ℕ) → ℕ
unfolding gen_mips_opcode_2reg
mi_bal off = gen_mips_opcode_2reg mop_bgtz 0 mop_bgtzl off

unfoldable pub mi_beq : (rs rt off : ℕ) → ℕ
unfolding gen_mips_opcode_2reg
mi_beq rs rt off = gen_mips_opcode_2reg mop_beq rs rt off

unfoldable pub mi_bne : (rs rt off : ℕ) → ℕ
unfolding gen_mips_opcode_2reg
mi_bne rs rt off = gen_mips_opcode_2reg mop_bne rs rt off

unfoldable pub mi_jr : (rs : ℕ) → ℕ
unfolding gen_mips_opcode_3reg
mi_jr rs = gen_mips_opcode_3reg mop_special rs 0 0 mop_special_jr

unfoldable pub mi_jalr : (rs : ℕ) → ℕ
unfolding gen_mips_opcode_3reg
mi_jalr rs = gen_mips_opcode_3reg mop_special rs r_zero r_ra mop_special_jalr

unfoldable pub mi_j : (addr : ℕ) → ℕ
unfolding gen_mips_opcode_abs
mi_j addr = gen_mips_opcode_abs mop_j (addr / 2 ^ 2)

unfoldable pub mi_jal : (addr : ℕ) → ℕ
unfolding gen_mips_opcode_abs
mi_jal addr = gen_mips_opcode_abs mop_jal (addr / 2 ^ 2)
