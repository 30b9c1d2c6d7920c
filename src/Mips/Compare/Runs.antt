-- ===== src/Mips/Compare/Runs.antt =====
-- arch/mips/branch.c: the processor runs the words of a comparison.
use too_legit_to_jit.Common.{
  ℕ, ◌/◌, ◌%◌, ◌^◌, ◌<◌, ◌≡◌, ◌≢◌, ◌∙◌, refl, sym, ap, Bool, true, false, none, some, List, [], ◌∷◌,
  ◌==◌, if◌then◌else◌, arith, tests,
}
use too_legit_to_jit.Word.{add32, sub32, neg32, sext16}
use too_legit_to_jit.Operand.{Operand, reg, direct_addr, immed}
use too_legit_to_jit.Emitter.{Target}
use too_legit_to_jit.Mips.Opcodes.{mi_addiu, mi_addu, mi_subu, mi_beq, mi_bne}
use too_legit_to_jit.Mips.Arithmetic.{is_add_immed}
use too_legit_to_jit.Mips.Isa.{Cpu, Insn, addu, subu, addiu, read, write, step, decode}
use too_legit_to_jit.Mips.Encoding.{decode-mi}
use too_legit_to_jit.Mips.MoveLaws.{value, read-zero, read-write, read-write_ne}
use too_legit_to_jit.Mips.Sums.{sext16-immediate}
use too_legit_to_jit.Mips.Processor.{
  beq, bne, taken, decode_branch, decode_branch-2reg, decode_branch-3reg,
}
use too_legit_to_jit.Mips.Compare.{
  Comparison, eq, ne, lt, gt, le, ge, holds, Comparable, condition, taken-condition, branch_zero,
  block, block_regs, sub_immed, IsComparand, Stands, goes_on, Jumps, direct-Jumps, around-Jumps,
}
use too_legit_to_jit.Mips.Compare.Emission.{
  emit_compare, label_of, EmitsBlock, emit_compare-EmitsBlock,
}

-- the upper half of the branch `w` is that of `b`
abbrev pub IsLinked : (w b : ℕ) → Type 0
IsLinked w b = w / 2 ^ 16 ≡ b / 2 ^ 16

decode-branch_zero :
    (cmp : Comparison) (s w : ℕ)
    → s < 2 ^ 5
    → IsLinked w (branch_zero cmp s)
    → decode_branch w ≡ some (condition cmp s)
decode-branch_zero eq s w h half = decode_branch-2reg 4 s 0 0 w (omega arith) h (omega arith) half
decode-branch_zero ne s w h half = decode_branch-2reg 5 s 0 0 w (omega arith) h (omega arith) half
decode-branch_zero lt s w h half = decode_branch-2reg 1 s 0 0 w (omega arith) h (omega arith) half
decode-branch_zero gt s w h half = decode_branch-2reg 7 s 0 0 w (omega arith) h (omega arith) half
decode-branch_zero le s w h half = decode_branch-2reg 6 s 0 0 w (omega arith) h (omega arith) half
decode-branch_zero ge s w h half = decode_branch-2reg 1 s 1 0 w (omega arith) h (omega arith) half

module _ (cmp : Comparison) (s : ℕ) (small : s < 2 ^ 5) (pos : s ≢ 0) (code : List ℕ) (p w : ℕ)
    (c : Cpu) (word : read c s < 2 ^ 32) where
  -- the words around the branch subtract `b` and add it again
  sub-Jumps :
      (w₁ w₂ b : ℕ) (i₁ i₂ : Insn)
      → b < 2 ^ 32
      → Comparable cmp (read c s) b
      → Stands code p (w₁ ∷ []) w w₂
      → IsLinked w (branch_zero cmp s)
      → decode_branch w₁ ≡ none
      → decode_branch w₂ ≡ none
      → decode w₁ ≡ some i₁
      → decode w₂ ≡ some i₂
      → step i₁ c ≡ write c s (sub32 (read c s) b)
      → ((v : ℕ) → step i₂ (write c s v) ≡ write (write c s v) s (add32 (read (write c s v) s) b))
      → Jumps code p c (goes_on (holds cmp (read c s) b) p (w₁ ∷ []) w)
  sub-Jumps w₁ w₂ b i₁ i₂ h k stands half n₁ n₂ d₁ d₂ e₁ e₂ =
      let v = sub32 (read c s) b in
      let c₁ = write c s v in
      let there : read c₁ s ≡ v = read-write c s v pos in
      let back : add32 (read c₁ s) b ≡ read c s = rw there (omega arith) in
      let test : taken (condition cmp s) c₁ ≡ holds cmp (read c s) b =
        taken-condition cmp s (read c s) b c₁ word h k there (read-zero c₁) in
      rw (← test) (
        around-Jumps code p s v w₁ w₂ w c (condition cmp s) i₁ i₂ stands n₁ n₂ d₁ d₂
          (decode-branch_zero cmp s w small half) e₁ (e₂ v ∙ ap (λ x. write c₁ s x) back) pos)

  sub_regs-Jumps :
      (t : ℕ)
      → t < 2 ^ 5
      → t ≢ s
      → read c t < 2 ^ 32
      → Comparable cmp (read c s) (read c t)
      → Stands code p (mi_subu s s t ∷ []) w (mi_addu s s t)
      → IsLinked w (branch_zero cmp s)
      → Jumps code p c (goes_on (holds cmp (read c s) (read c t)) p (mi_subu s s t ∷ []) w)
  unfolding step mi_addu mi_subu
  sub_regs-Jumps t h other h' k stands half =
      sub-Jumps (mi_subu s s t) (mi_addu s s t) (read c t) (subu s s t) (addu s s t) h' k stands
        half (decode_branch-3reg 0 s t s 35 (omega arith) small h small (omega arith))
        (decode_branch-3reg 0 s t s 33 (omega arith) small h small (omega arith))
        (decode-mi s s t 0 small small h).1 (decode-mi s s t 0 small small h).0 refl
        (λ v. rw (read-write_ne c s v t other) refl)

  sub_immed-Jumps :
      (k : ℕ)
      → k < 2 ^ 32
      → is_add_immed (immed k) ≡ true
      → is_add_immed (immed (neg32 k)) ≡ true
      → Comparable cmp (read c s) k
      → Stands code p (mi_addiu s s (neg32 k) ∷ []) w (mi_addiu s s k)
      → IsLinked w (branch_zero cmp s)
      → Jumps code p c (goes_on (holds cmp (read c s) k) p (mi_addiu s s (neg32 k) ∷ []) w)
  unfolding step mi_addiu
  sub_immed-Jumps k h fits fits' near stands half =
      let same : add32 (read c s) (neg32 k) ≡ sub32 (read c s) k = omega arith in
      let less : neg32 k < 2 ^ 32 = omega arith in
      sub-Jumps (mi_addiu s s (neg32 k)) (mi_addiu s s k) k (addiu s s (neg32 k % 2 ^ 16))
        (addiu s s (k % 2 ^ 16)) h near stands half
        (decode_branch-2reg 9 s s (sext16 (neg32 k)) _ (omega arith) small small refl)
        (decode_branch-2reg 9 s s (sext16 k) _ (omega arith) small small refl)
        (decode-mi s s 0 (neg32 k) small small (omega arith)).3
        (decode-mi s s 0 k small small (omega arith)).3
        (rw (sext16-immediate s small pos (neg32 k) less fits') (ap (λ x. write c s x) same))
        (λ v. rw (sext16-immediate s small pos k h fits) refl)

block_regs-Jumps :
    (cmp : Comparison) (s t : ℕ) (code : List ℕ) (p w : ℕ) (c : Cpu)
    → s < 2 ^ 5
    → s ≢ 0
    → t < 2 ^ 5
    → t ≢ s
    → read c s < 2 ^ 32
    → read c t < 2 ^ 32
    → Comparable cmp (read c s) (read c t)
    → Stands code p ((block_regs cmp s t).before) w ((block_regs cmp s t).slot)
    → IsLinked w ((block_regs cmp s t).branch)
    → Jumps code p c (goes_on (holds cmp (read c s) (read c t)) p ((block_regs cmp s t).before) w)
unfolding taken mi_beq mi_bne
block_regs-Jumps eq s t code p w c small pos h other word word' near stands half =
    direct-Jumps code p w c (beq s t) stands
      (decode_branch-2reg 4 s t 0 w (omega arith) small h half)
block_regs-Jumps ne s t code p w c small pos h other word word' near stands half =
    direct-Jumps code p w c (bne s t) stands
      (decode_branch-2reg 5 s t 0 w (omega arith) small h half)
block_regs-Jumps lt s t code p w c small pos h other word word' near stands half =
    sub_regs-Jumps lt s small pos code p w c word t h other word' near stands half
block_regs-Jumps gt s t code p w c small pos h other word word' near stands half =
    sub_regs-Jumps gt s small pos code p w c word t h other word' near stands half
block_regs-Jumps le s t code p w c small pos h other word word' near stands half =
    sub_regs-Jumps le s small pos code p w c word t h other word' near stands half
block_regs-Jumps ge s t code p w c small pos h other word word' near stands half =
    sub_regs-Jumps ge s small pos code p w c word t h other word' near stands half

immed-Jumps :
    (cmp : Comparison) (s k : ℕ) (code : List ℕ) (p w : ℕ) (c : Cpu)
    → s < 2 ^ 5
    → s ≢ 0
    → k < 2 ^ 32
    → is_add_immed (immed k) ≡ true
    → is_add_immed (immed (neg32 k)) ≡ true
    → read c s < 2 ^ 32
    → Comparable cmp (read c s) k
    → (zero : Bool) → (k == 0) ≡ zero
    → Stands code p
        ((if zero then block_regs cmp s 0 else sub_immed cmp s k).before)
        w
        ((if zero then block_regs cmp s 0 else sub_immed cmp s k).slot)
    → IsLinked w ((if zero then block_regs cmp s 0 else sub_immed cmp s k).branch)
    → Jumps code p c (
        goes_on
          (holds cmp (read c s) k)
          p
          ((if zero then block_regs cmp s 0 else sub_immed cmp s k).before)
          w)
immed-Jumps cmp s k code p w c small pos h fits fits' word near true y stands half =
    let zk : read c 0 ≡ k = read-zero c ∙ omega (tests, y) in
    let word₀ : read c 0 < 2 ^ 32 = omega (arith, zk) in
    rw (← zk) (
      block_regs-Jumps cmp s 0 code p w c small pos (omega arith) (λ e. pos (sym e)) word word₀
        (rw (← zk) at near) stands half)
immed-Jumps cmp s k code p w c small pos h fits fits' word near false y stands half =
    sub_immed-Jumps cmp s small pos code p w c word k h fits fits' near stands half

pub block-Jumps :
    (cmp : Comparison) (s : ℕ) (t : Operand) (code : List ℕ) (p w : ℕ) (c : Cpu)
    → s < 2 ^ 5
    → s ≢ 0
    → IsComparand s t
    → read c s < 2 ^ 32
    → value c t < 2 ^ 32
    → Comparable cmp (read c s) (value c t)
    → Stands code p ((block cmp s t).before) w ((block cmp s t).slot)
    → IsLinked w ((block cmp s t).branch)
    → Jumps code p c (goes_on (holds cmp (read c s) (value c t)) p ((block cmp s t).before) w)
block-Jumps cmp s (reg t) code p w c small pos (h, other) word word' near stands half =
    block_regs-Jumps cmp s t code p w c small pos h other word word' near stands half
block-Jumps cmp s (direct_addr base offset) code p w c small pos h word word' near stands half =
    absurd h
block-Jumps cmp s (immed k) code p w c small pos (h, fits, fits') word word' near stands half =
    immed-Jumps cmp s k code p w c small pos h fits fits' word near (k == 0) refl stands half

-- A comparison of a register with another register or an immediate, for a branch that the linker
-- resolves: emits the words of `block` and notes the branch. Let the processor come to these words
-- in linked code, with 32-bit values in the two operands whose signed difference is an `int` where
-- the comparison is an order. Then it goes on at the branch's target if the comparison of the
-- signed values holds, and behind the words if not, and every register and the memory are as
-- before. The register is not the zero register, registers are below 32, and the immediate and its
-- negative fit `addiu`.
pub emit_compare-Jumps :
    (cmp : Comparison) (s : ℕ) (t : Operand) (to : Target) (code : List ℕ) (p w : ℕ) (c : Cpu)
    → s < 2 ^ 5
    → s ≢ 0
    → IsComparand s t
    → read c s < 2 ^ 32
    → value c t < 2 ^ 32
    → Comparable cmp (read c s) (value c t)
    → Stands code p ((block cmp s t).before) w ((block cmp s t).slot)
    → IsLinked w ((block cmp s t).branch)
    → EmitsBlock (emit_compare cmp (reg s) t (label_of to)) to (block cmp s t)
      × Jumps code p c (goes_on (holds cmp (read c s) (value c t)) p ((block cmp s t).before) w)
emit_compare-Jumps cmp s t to code p w c small pos h word word' near stands half = (
  emit_compare-EmitsBlock cmp s t to small pos h,
  block-Jumps cmp s t code p w c small pos h word word' near stands half,
)
