-- ===== src/Mips/Encoding.antt =====
-- The words of opcodes.h as sums of fields, and what the processor decodes them to.
use Prim.Native.Nat.{bit_or}
use too_legit_to_jit.Common.{ℕ, ◌+◌, ◌*◌, ◌%◌, ◌^◌, ◌<◌, ◌≡◌, refl, some, ap, ◌∙◌, arith}
use too_legit_to_jit.Word.{sext16}
use too_legit_to_jit.Word.Bits.{bit_or-disjoint, bit_or-split, bit_or-zero}
use too_legit_to_jit.Mips.Opcodes.{
  gen_mips_opcode_2reg, gen_mips_opcode_3reg, gen_mips_opcode_3reg_tert, mi_addiu, mi_addu, mi_subu,
  mi_lw, mi_sw, mi_sll,
}
use too_legit_to_jit.Mips.Isa.{
  addu, subu, sll, addiu, lw, sw, decode, decode_fields, op_field, rs_field, rt_field, rd_field,
  sa_field, funct_field, imm_field,
}

-- a field `x` of the bits from `k` on, put beside bits above it and below it
slot :
    (k high low x : ℕ)
    → low < 2 ^ k
    → bit_or (high * 2 ^ k + low) (x * 2 ^ k) ≡ bit_or high x * 2 ^ k + low
slot k high low x h =
    let e : x * 2 ^ k ≡ x * 2 ^ k + 0 = omega arith in
    rw e (omega (arith, bit_or-split k high low x 0 h (omega arith), bit_or-zero low))

pub gen_mips_opcode_2reg-sum :
    (op rs rt imm : ℕ)
    → op < 2 ^ 6
    → rs < 2 ^ 5
    → rt < 2 ^ 5
    → gen_mips_opcode_2reg op rs rt imm ≡ op * 2 ^ 26 + rs * 2 ^ 21 + rt * 2 ^ 16 + imm % 2 ^ 16
unfolding gen_mips_opcode_2reg
gen_mips_opcode_2reg-sum op rs rt imm h h' h'' =
    let e : op % 2 ^ 6 ≡ op = omega arith in
    let e' : rs % 2 ^ 5 ≡ rs = omega arith in
    let e'' : rt % 2 ^ 5 ≡ rt = omega arith in
    let a = bit_or-disjoint 26 op (rs * 2 ^ 21) (omega arith) in
    let x : op * 2 ^ 26 + rs * 2 ^ 21 ≡ (op * 2 ^ 5 + rs) * 2 ^ 21 = omega arith in
    let b = bit_or-disjoint 21 (op * 2 ^ 5 + rs) (rt * 2 ^ 16) (omega arith) in
    let y : (op * 2 ^ 5 + rs) * 2 ^ 21 + rt * 2 ^ 16 ≡ (op * 2 ^ 10 + rs * 2 ^ 5 + rt) * 2 ^ 16 =
      omega arith in
    let c = bit_or-disjoint 16 (op * 2 ^ 10 + rs * 2 ^ 5 + rt) (imm % 2 ^ 16) (omega arith) in
    rw (e, e', e'', a, x, b, y, c) (omega arith)

pub gen_mips_opcode_3reg-sum :
    (op rs rt rd funct : ℕ)
    → op < 2 ^ 6
    → rs < 2 ^ 5
    → rt < 2 ^ 5
    → rd < 2 ^ 5
    → funct < 2 ^ 6
    → gen_mips_opcode_3reg op rs rt rd funct
      ≡ op * 2 ^ 26 + rs * 2 ^ 21 + rt * 2 ^ 16 + rd * 2 ^ 11 + funct
unfolding gen_mips_opcode_3reg
gen_mips_opcode_3reg-sum op rs rt rd funct h₁ h₂ h₃ h₄ h₅ =
    let e₁ : op % 2 ^ 6 ≡ op = omega arith in
    let e₂ : rs % 2 ^ 5 ≡ rs = omega arith in
    let e₃ : rt % 2 ^ 5 ≡ rt = omega arith in
    let e₄ : rd % 2 ^ 5 ≡ rd = omega arith in
    let e₅ : funct % 2 ^ 6 ≡ funct = omega arith in
    let a = bit_or-disjoint 26 op funct (omega arith) in
    let x : op * 2 ^ 26 + funct ≡ op * 2 ^ 5 * 2 ^ 21 + funct = omega arith in
    let b = slot 21 (op * 2 ^ 5) funct rs (omega arith) in
    let b' = bit_or-disjoint 5 op rs h₂ in
    let y : (op * 2 ^ 5 + rs) * 2 ^ 21 + funct ≡ (op * 2 ^ 5 + rs) * 2 ^ 5 * 2 ^ 16 + funct =
      omega arith in
    let c = slot 16 ((op * 2 ^ 5 + rs) * 2 ^ 5) funct rt (omega arith) in
    let c' = bit_or-disjoint 5 (op * 2 ^ 5 + rs) rt h₃ in
    let z : ((op * 2 ^ 5 + rs) * 2 ^ 5 + rt) * 2 ^ 16 + funct
        ≡ ((op * 2 ^ 5 + rs) * 2 ^ 5 + rt) * 2 ^ 5 * 2 ^ 11 + funct =
      omega arith in
    let d = slot 11 (((op * 2 ^ 5 + rs) * 2 ^ 5 + rt) * 2 ^ 5) funct rd (omega arith) in
    let d' = bit_or-disjoint 5 ((op * 2 ^ 5 + rs) * 2 ^ 5 + rt) rd h₄ in
    rw (e₁, e₂, e₃, e₄, e₅, a, x, b, b', y, c, c', z, d, d') (omega arith)

decode-fields_eq :
    (w op rs rt rd sa funct imm : ℕ)
    → op_field w ≡ op
    → rs_field w ≡ rs
    → rt_field w ≡ rt
    → rd_field w ≡ rd
    → sa_field w ≡ sa
    → funct_field w ≡ funct
    → imm_field w ≡ imm
    → decode w ≡ decode_fields op rs rt rd sa funct imm
unfolding decode
decode-fields_eq w op rs rt rd sa funct imm a b c d e f g = rw (a, b, c, d, e, f, g)

pub decode-2reg :
    (op rs rt imm : ℕ)
    → op < 2 ^ 6
    → rs < 2 ^ 5
    → rt < 2 ^ 5
    → (rd sa funct : ℕ) × (decode (gen_mips_opcode_2reg op rs rt imm)
        ≡ decode_fields op rs rt rd sa funct (imm % 2 ^ 16))
decode-2reg op rs rt imm h h' h'' =
    let w = gen_mips_opcode_2reg op rs rt imm in
    let sum = gen_mips_opcode_2reg-sum op rs rt imm h h' h'' in
    (
      rd_field w,
      sa_field w,
      funct_field w,
      decode-fields_eq w op rs rt (rd_field w) (sa_field w) (funct_field w) (imm % 2 ^ 16)
          (omega (arith, sum)) (omega (arith, sum)) (omega (arith, sum)) refl refl refl
          (omega (arith, sum)),
    )

pub decode-3reg :
    (op rs rt rd funct : ℕ)
    → op < 2 ^ 6
    → rs < 2 ^ 5
    → rt < 2 ^ 5
    → rd < 2 ^ 5
    → funct < 2 ^ 6
    → (imm : ℕ) × (decode (gen_mips_opcode_3reg op rs rt rd funct)
        ≡ decode_fields op rs rt rd 0 funct imm)
decode-3reg op rs rt rd funct h₁ h₂ h₃ h₄ h₅ =
    let w = gen_mips_opcode_3reg op rs rt rd funct in
    let sum = gen_mips_opcode_3reg-sum op rs rt rd funct h₁ h₂ h₃ h₄ h₅ in
    (
      imm_field w,
      decode-fields_eq w op rs rt rd 0 funct (imm_field w) (omega (arith, sum)) (omega (arith, sum))
          (omega (arith, sum)) (omega (arith, sum)) (omega (arith, sum)) (omega (arith, sum)) refl,
    )

low16-sext16 : (i : ℕ) → sext16 i % 2 ^ 16 ≡ i % 2 ^ 16
low16-sext16 i = ground arith

pub decode-mi_sll :
    (rd rt sa : ℕ)
    → rd < 2 ^ 5
    → rt < 2 ^ 5
    → sa < 2 ^ 5
    → decode (mi_sll rd rt sa) ≡ some (sll rd rt sa)
unfolding mi_sll
decode-mi_sll rd rt sa h h' h'' =
    let w = gen_mips_opcode_3reg_tert 0 0 rt rd 0 sa in
    let sum = gen_mips_opcode_3reg-sum 0 0 rt rd 0 (omega arith) (omega arith) h' h (omega arith) in
    let x : 0 * 2 ^ 26 + 0 * 2 ^ 21 + rt * 2 ^ 16 + rd * 2 ^ 11 + 0 ≡ (rt * 2 ^ 5 + rd) * 2 ^ 11 =
      omega arith in
    let a = bit_or-disjoint 11 (rt * 2 ^ 5 + rd) (sa % 2 ^ 6 * 2 ^ 6) (omega arith) in
    let total : w ≡ (rt * 2 ^ 5 + rd) * 2 ^ 11 + sa % 2 ^ 6 * 2 ^ 6 =
      rw (gen_mips_opcode_3reg_tert, sum, x) a in
    decode-fields_eq w 0 0 rt rd sa 0 (imm_field w) (omega (arith, total)) (omega (arith, total))
      (omega (arith, total)) (omega (arith, total)) (omega (arith, total)) (omega (arith, total))
      refl

-- Where the register numbers and the shift are below 32, the processor reads the words of the
-- macros for addu, subu, sll, addiu, lw and sw as the instructions that they name, with the same
-- registers, the immediates cut to 16 bits.
pub decode-mi :
    (a b c i : ℕ)
    → a < 2 ^ 5
    → b < 2 ^ 5
    → c < 2 ^ 5
    → (decode (mi_addu a b c) ≡ some (addu a b c))
      × (decode (mi_subu a b c) ≡ some (subu a b c))
      × (decode (mi_sll a b c) ≡ some (sll a b c))
      × (decode (mi_addiu a b i) ≡ some (addiu a b (i % 2 ^ 16)))
      × (decode (mi_lw a b i) ≡ some (lw a b (i % 2 ^ 16)))
      × (decode (mi_sw a b i) ≡ some (sw a b (i % 2 ^ 16)))
unfolding mi_addu mi_subu mi_addiu mi_lw mi_sw
decode-mi a b c i ha hb hc = (
  (decode-3reg 0 b c a 33 (omega arith) hb hc ha (omega arith)).1,
  (decode-3reg 0 b c a 35 (omega arith) hb hc ha (omega arith)).1,
  decode-mi_sll a b c ha hb hc,
  (decode-2reg 9 b a (sext16 i) (omega arith) hb ha).3
      ∙ ap (λ x. some (addiu a b x)) (low16-sext16 i),
  (decode-2reg 35 b a (sext16 i) (omega arith) hb ha).3
      ∙ ap (λ x. some (lw a b x)) (low16-sext16 i),
  (decode-2reg 43 b a (sext16 i) (omega arith) hb ha).3
      ∙ ap (λ x. some (sw a b x)) (low16-sext16 i),
)
