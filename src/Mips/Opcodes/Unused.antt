-- ===== src/Mips/Opcodes/Unused.antt =====
-- include/arch/mips/opcodes.h and regdef.h: the macros that the translator does not use.
use Prim.Native.Nat.{bit_or}
use too_legit_to_jit.Common.{ℕ, ◌*◌, ◌/◌, ◌%◌, ◌^◌}
use too_legit_to_jit.Mips.Opcodes.{
  gen_mips_opcode_2reg, gen_mips_opcode_3reg, gen_mips_opcode_3reg_tert, mop_special,
  mop_special_srl, mop_bltz, mop_bgez, mop_bgtz, r_zero,
}

unfoldable pub mips_opcode : ℕ → ℕ
mips_opcode x = x / 2 ^ 26

unfoldable pub mips_subopcode_special : ℕ → ℕ
mips_subopcode_special x = x % 2 ^ 6

unfoldable pub mips_opcode_dstreg : ℕ → ℕ
mips_opcode_dstreg x = x / 2 ^ 16 % 2 ^ 5

unfoldable pub mips_opcode_srcreg : ℕ → ℕ
mips_opcode_srcreg x = x / 2 ^ 11 % 2 ^ 5

unfoldable pub gen_mips_opcode_syscall : (code : ℕ) → ℕ
gen_mips_opcode_syscall code = bit_or (code % 2 ^ 20 * 2 ^ 6) 12

abbrev pub mop_special_rotr : ℕ
mop_special_rotr = 2

abbrev pub mop_special_sllv : ℕ
mop_special_sllv = 4

abbrev pub mop_special_srlv : ℕ
mop_special_srlv = 6

abbrev pub mop_special_break : ℕ
mop_special_break = 13

abbrev pub mop_special_add : ℕ
mop_special_add = 32

abbrev pub mop_special_sub : ℕ
mop_special_sub = 34

abbrev pub mop_special_and : ℕ
mop_special_and = 36

abbrev pub mop_special_nor : ℕ
mop_special_nor = 39

abbrev pub mop_cond_branch_op1 : ℕ
mop_cond_branch_op1 = 1

abbrev pub mop_bltz_rt : ℕ
mop_bltz_rt = 0

abbrev pub mop_bgez_rt : ℕ
mop_bgez_rt = 1

abbrev pub mop_cond_branch_op1_trap_start : ℕ
mop_cond_branch_op1_trap_start = 8

abbrev pub mop_cond_branch_op1_trap_end : ℕ
mop_cond_branch_op1_trap_end = 14

abbrev pub mop_bgezal : ℕ
mop_bgezal = 17

abbrev pub mop_addi : ℕ
mop_addi = 8

abbrev pub mop_beql : ℕ
mop_beql = 20

abbrev pub mop_bnel : ℕ
mop_bnel = 21

abbrev pub mop_blezl : ℕ
mop_blezl = 22

abbrev pub mop_special3 : ℕ
mop_special3 = 31

abbrev pub mop_special3_bshfl : ℕ
mop_special3_bshfl = 32

abbrev pub mop_special3_bshfl_wsbh : ℕ
mop_special3_bshfl_wsbh = 2

abbrev pub mop_special3_rdhwr : ℕ
mop_special3_rdhwr = 59

abbrev pub mop_lb : ℕ
mop_lb = 32

abbrev pub mop_lh : ℕ
mop_lh = 33

abbrev pub mop_lbu : ℕ
mop_lbu = 36

abbrev pub mop_lhu : ℕ
mop_lhu = 37

abbrev pub mop_lwu : ℕ
mop_lwu = 39

abbrev pub mop_sb : ℕ
mop_sb = 40

abbrev pub mop_sh : ℕ
mop_sh = 41

unfoldable pub mi_bltz : (rs off : ℕ) → ℕ
unfolding gen_mips_opcode_2reg
mi_bltz rs off = gen_mips_opcode_2reg mop_bltz rs 0 off

unfoldable pub mi_bgez : (rs off : ℕ) → ℕ
unfolding gen_mips_opcode_2reg
mi_bgez rs off = gen_mips_opcode_2reg 1 rs mop_bgez off

unfoldable pub mi_bgtz : (rs off : ℕ) → ℕ
unfolding gen_mips_opcode_2reg
mi_bgtz rs off = gen_mips_opcode_2reg mop_bgtz rs 0 off

unfoldable pub mi_nor : (rd rs rt : ℕ) → ℕ
unfolding gen_mips_opcode_3reg
mi_nor rd rs rt = gen_mips_opcode_3reg mop_special rs rt rd mop_special_nor

unfoldable pub mi_not : (rd rs : ℕ) → ℕ
unfolding mi_nor
mi_not rd rs = mi_nor rd rs r_zero

unfoldable pub mi_rotr : (rd rt sa : ℕ) → ℕ
unfolding gen_mips_opcode_3reg_tert
mi_rotr rd rt sa = gen_mips_opcode_3reg_tert mop_special 1 rt rd mop_special_srl sa

abbrev pub r_at : ℕ
r_at = 1

abbrev pub r_v1 : ℕ
r_v1 = 3

abbrev pub r_a1 : ℕ
r_a1 = 5

abbrev pub r_a2 : ℕ
r_a2 = 6

abbrev pub r_a3 : ℕ
r_a3 = 7

abbrev pub r_t1 : ℕ
r_t1 = 9

abbrev pub r_t2 : ℕ
r_t2 = 10

abbrev pub r_t3 : ℕ
r_t3 = 11

abbrev pub r_t4 : ℕ
r_t4 = 12

abbrev pub r_t5 : ℕ
r_t5 = 13

abbrev pub r_t6 : ℕ
r_t6 = 14

abbrev pub r_t7 : ℕ
r_t7 = 15

abbrev pub r_s0 : ℕ
r_s0 = 16

abbrev pub r_s1 : ℕ
r_s1 = 17

abbrev pub r_s2 : ℕ
r_s2 = 18

abbrev pub r_s3 : ℕ
r_s3 = 19

abbrev pub r_s4 : ℕ
r_s4 = 20

abbrev pub r_s5 : ℕ
r_s5 = 21

abbrev pub r_s6 : ℕ
r_s6 = 22

abbrev pub r_s7 : ℕ
r_s7 = 23

abbrev pub r_t8 : ℕ
r_t8 = 24

abbrev pub r_t9 : ℕ
r_t9 = 25

abbrev pub r_jp : ℕ
r_jp = 25

abbrev pub r_k0 : ℕ
r_k0 = 26

abbrev pub r_k1 : ℕ
r_k1 = 27

abbrev pub r_gp : ℕ
r_gp = 28

abbrev pub r_sp : ℕ
r_sp = 29

abbrev pub r_fp : ℕ
r_fp = 30

abbrev pub r_s8 : ℕ
r_s8 = 30
