-- ===== src/Mips/Compare.antt =====
-- arch/mips/branch.c: the emitted words of the six comparisons jump when the comparison holds, and
-- leave the registers as they were.
pub mod Emission
pub mod Runs
use too_legit_to_jit.Common.{
  ℕ, ◌+◌, ◌/◌, ◌%◌, ◌^◌, ◌≤◌, ◌<◌, ◌≡◌, ◌≢◌, ◌∙◌, refl, sym, ap, inl, inr, Bool, true, false, not,
  ◌||◌, Bool-cases, Option, none, some, List, [], ◌∷◌, get_elem?, ◌==◌, if◌then◌else◌, ltb, arith,
  tests,
}
use too_legit_to_jit.Word.{add32, sub32, neg32, signed_lt, is_negative}
use too_legit_to_jit.Operand.{Operand, reg, direct_addr, immed}
use too_legit_to_jit.Emitter.Link.{lands}
use too_legit_to_jit.Mips.Opcodes.{
  gen_mips_opcode_2reg, mi_addu, mi_subu, mi_addiu, mi_beq, mi_bne, mi_nop,
}
use too_legit_to_jit.Mips.Arithmetic.{is_add_immed}
use too_legit_to_jit.Mips.Isa.{Cpu, Insn, sll, read, write, step, decode}
use too_legit_to_jit.Mips.MoveLaws.{read-write, read-write_ne, mem-write}
use too_legit_to_jit.Mips.Processor.{
  Condition, beq, bne, bltz, bgez, blez, bgtz, taken, Core, at, Reaches, here, next, tick-plain,
  tick-branch, decode_branch,
}

pub data Comparison : Type 0 where
  eq ne lt gt le ge : Comparison

-- the comparison of two values of type `int`
abbrev pub holds : Comparison → ℕ → ℕ → Bool
holds eq a b = a == b
holds ne a b = not (a == b)
holds lt a b = signed_lt a b
holds gt a b = signed_lt b a
holds le a b = not (signed_lt b a)
holds ge a b = not (signed_lt a b)

-- `x + 2 ^ 31` for the integer `x` that a word stands for
abbrev pub biased : ℕ → ℕ
biased a = (a + 2 ^ 31) % 2 ^ 32

-- An order needs a difference that is an `int`; `==` and `!=` do not.
abbrev pub Comparable : Comparison → ℕ → ℕ → Type 0
Comparable eq a b = Unit
Comparable ne a b = Unit
Comparable lt a b = (biased a < biased b + 2 ^ 31) × (biased b ≤ biased a + 2 ^ 31)
Comparable gt a b = (biased a < biased b + 2 ^ 31) × (biased b ≤ biased a + 2 ^ 31)
Comparable le a b = (biased a < biased b + 2 ^ 31) × (biased b ≤ biased a + 2 ^ 31)
Comparable ge a b = (biased a < biased b + 2 ^ 31) × (biased b ≤ biased a + 2 ^ 31)

-- the test of the difference of two values, in register `r`
abbrev pub condition : Comparison → (r : ℕ) → Condition
condition eq r = beq r 0
condition ne r = bne r 0
condition lt r = bltz r
condition gt r = bgtz r
condition le r = blez r
condition ge r = bgez r

-- the test works on a difference
pub taken-condition :
    (cmp : Comparison) (r a b : ℕ) (c : Cpu)
    → a < 2 ^ 32
    → b < 2 ^ 32
    → Comparable cmp a b
    → read c r ≡ sub32 a b
    → read c 0 ≡ 0
    → taken (condition cmp r) c ≡ holds cmp a b
unfolding taken
taken-condition eq r a b c h h' k e z = rw (e, z) (ground arith)
taken-condition ne r a b c h h' k e z = rw (e, z) (ground arith)
taken-condition lt r a b c h h' k e z = rw e (ground arith)
taken-condition gt r a b c h h' k e z = rw e (ground arith)
taken-condition le r a b c h h' k e z = rw e (ground arith)
taken-condition ge r a b c h h' k e z = rw e (ground arith)

-- The words of a comparison: what stands before the branch, the branch and its delay slot.
pub record Block : Type 0 where
  pub before : List ℕ
  pub branch : ℕ
  pub slot : ℕ

-- the branch of a comparison with zero
abbrev pub branch_zero : Comparison → (s : ℕ) → ℕ
branch_zero eq s = gen_mips_opcode_2reg 4 s 0 0
branch_zero ne s = gen_mips_opcode_2reg 5 s 0 0
branch_zero lt s = gen_mips_opcode_2reg 1 s 0 0
branch_zero gt s = gen_mips_opcode_2reg 7 s 0 0
branch_zero le s = gen_mips_opcode_2reg 6 s 0 0
branch_zero ge s = gen_mips_opcode_2reg 1 s 1 0

-- the difference of two registers in the first one, which the delay slot restores
abbrev pub sub_regs : Comparison → (s t : ℕ) → Block
sub_regs cmp s t = record {
  before = mi_subu s s t ∷ [];
  branch = branch_zero cmp s;
  slot = mi_addu s s t;
}

abbrev pub sub_immed : Comparison → (s k : ℕ) → Block
sub_immed cmp s k = record {
  before = mi_addiu s s (neg32 k) ∷ [];
  branch = branch_zero cmp s;
  slot = mi_addiu s s k;
}

abbrev pub block_regs : Comparison → (s t : ℕ) → Block
block_regs eq s t = record { before = []; branch = mi_beq s t 0; slot = mi_nop }
block_regs ne s t = record { before = []; branch = mi_bne s t 0; slot = mi_nop }
block_regs cmp s t = sub_regs cmp s t

-- a comparison of a register with a register or an immediate
abbrev pub block : Comparison → (s : ℕ) → Operand → Block
block cmp s (reg t) = block_regs cmp s t
block cmp s (immed k) = if k == 0 then block_regs cmp s 0 else sub_immed cmp s k
block cmp s (direct_addr base offset) = block_regs cmp s 0

-- a register of its own, or an immediate whose negative is one too
abbrev pub IsComparand : (s : ℕ) → Operand → Type 0
IsComparand s (reg t) = (t < 2 ^ 5) × (t ≢ s)
IsComparand s (direct_addr base offset) = ⊥
IsComparand s (immed k) =
    (k < 2 ^ 32) × (is_add_immed (immed k) ≡ true) × (is_add_immed (immed (neg32 k)) ≡ true)

-- the words of `b` are at `p`; the linker may have changed the lower half of the branch, now `w`
abbrev pub Stands : List ℕ → (p : ℕ) → List ℕ → (w slot : ℕ) → Type 0
Stands code p [] w slot = (get_elem? code p ≡ some w) × (get_elem? code (p + 1) ≡ some slot)
Stands code p (x ∷ xs) w slot = (get_elem? code p ≡ some x) × Stands code (p + 1) xs w slot

-- where the processor goes on: at the target of the branch `w`, or behind the delay slot
abbrev pub goes_on : Bool → (p : ℕ) → (before : List ℕ) → (w : ℕ) → ℕ
goes_on jumps p [] w = if jumps then lands p w else p + 1 + 1
goes_on jumps p (x ∷ xs) w = goes_on jumps (p + 1) xs w

-- the run from `p` ends with the same registers and memory
abbrev pub Jumps : List ℕ → (p : ℕ) → Cpu → (to : ℕ) → Type 0
Jumps code p c to =
    (c' : Cpu) × Reaches code (at p c) (at to c')
    × ((x : ℕ) → read c' x ≡ read c x)
    × ((a : ℕ) → c'.mem a ≡ c.mem a)

pub decode-nop : (decode_branch mi_nop ≡ none) × (decode mi_nop ≡ some (sll 0 0 0))
unfolding mi_nop decode_branch decode
decode-nop = (refl, refl)

pub nop_lem :
    (c : Cpu)
    → ((x : ℕ) → read (step (sll 0 0 0) c) x ≡ read c x)
      × ((a : ℕ) → (step (sll 0 0 0) c).mem a ≡ c.mem a)
unfolding step read write
nop_lem c = ((λ x. ground arith), λ a. refl)

read-restored : (c : Cpu) (s v x : ℕ) → s ≢ 0 → read (write (write c s v) s (read c s)) x ≡ read c x
unfolding read write
read-restored c s v x pos = ground arith

-- A block with the branch in front and an empty delay slot.
pub direct-Jumps :
    (code : List ℕ) (p w : ℕ) (c : Cpu) (b : Condition)
    → Stands code p [] w mi_nop
    → decode_branch w ≡ some b
    → Jumps code p c (goes_on (taken b c) p [] w)
direct-Jumps code p w c b (first, second) d =
    let to = if taken b c then lands p w else p + 1 + 1 in
    let slot : Core = record { cpu = c; pc = p + 1; npc = to } in
    (
      step (sll 0 0 0) c,
      next (next here (tick-branch code (at p c) w b first d))
          (tick-plain code slot mi_nop (sll 0 0 0) second decode-nop.0 decode-nop.1),
      (nop_lem c).0,
      (nop_lem c).1,
    )

-- A block that changes register `s` by the first word and restores it by the last one.
pub around-Jumps :
    (code : List ℕ) (p s v w₁ w₂ w : ℕ) (c : Cpu) (b : Condition) (i₁ i₂ : Insn)
    → Stands code p (w₁ ∷ []) w w₂
    → decode_branch w₁ ≡ none
    → decode_branch w₂ ≡ none
    → decode w₁ ≡ some i₁
    → decode w₂ ≡ some i₂
    → decode_branch w ≡ some b
    → step i₁ c ≡ write c s v
    → step i₂ (write c s v) ≡ write (write c s v) s (read c s)
    → s ≢ 0
    → Jumps code p c (goes_on (taken b (write c s v)) p (w₁ ∷ []) w)
around-Jumps code p s v w₁ w₂ w c b i₁ i₂ (first, (second, third)) n₁ n₂ d₁ d₂ d e₁ e₂ pos =
    let c₁ = write c s v in
    let to = if taken b c₁ then lands (p + 1) w else p + 1 + 1 + 1 in
    let slot : Core = record { cpu = c₁; pc = p + 1 + 1; npc = to } in
    (
      write c₁ s (read c s),
      next
          (next
            (next here
              (tick-plain code (at p c) w₁ i₁ first n₁ d₁ ∙ ap (λ x. some (at (p + 1) x)) e₁))
            (tick-branch code (at (p + 1) c₁) w b second d))
          (tick-plain code slot w₂ i₂ third n₂ d₂ ∙ ap (λ x. some (at to x)) e₂),
      (λ x. read-restored c s v x pos),
      (λ a. mem-write c₁ s (read c s) a ∙ mem-write c s v a),
    )
