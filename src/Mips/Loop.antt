-- ===== src/Mips/Loop.antt =====
-- Loops of emitted code on the processor: a branch at word 0 leaves the loop when the counter has
-- reached its limit, and the last two words go back to word 0.
use too_legit_to_jit.Common.{
  ℕ, ◌+◌, ◌%◌, ◌^◌, ◌<◌, ◌≡◌, ◌∙◌, refl, ap, Bool, true, false, none, some, List, get_elem?, ◌==◌,
  if◌then◌else◌, arith,
}
use too_legit_to_jit.Word.{sext16}
use too_legit_to_jit.Emitter.{patch_word}
use too_legit_to_jit.Emitter.Link.{lands, patch_word-halves}
use too_legit_to_jit.Mips.Opcodes.{
  gen_mips_opcode_2reg, gen_mips_opcode_3reg, mi_beq, mi_nop, mi_sw, mi_addiu,
}
use too_legit_to_jit.Mips.Isa.{Cpu, Insn, or, sll, lw, sw, addiu, read, step, decode}
use too_legit_to_jit.Mips.Encoding.{decode-mi, decode-2reg, decode-3reg}
use too_legit_to_jit.Mips.Processor.{
  beq, taken, Core, at, Reaches, here, next, tick, tick-plain, tick-branch, decode_branch,
  decode_branch-2reg, decode_branch-3reg,
}
use too_legit_to_jit.Mips.Compare.{decode-nop}

-- a word that is the instruction `i` and no branch
abbrev pub IsPlain : (w : ℕ) → Insn → Type 0
IsPlain w i = (decode_branch w ≡ none) × (decode w ≡ some i)

pub addiu-IsPlain : (r k : ℕ) → r < 2 ^ 5 → IsPlain (mi_addiu r r k) (addiu r r (k % 2 ^ 16))
unfolding mi_addiu
addiu-IsPlain r k h = (
  decode_branch-2reg 9 r r (sext16 k) _ (omega arith) h h refl,
  (decode-mi r r 0 k h h (omega arith)).3,
)

pub sw-IsPlain :
    (r base k : ℕ) → r < 2 ^ 5 → base < 2 ^ 5 → IsPlain (mi_sw r base k) (sw r base (k % 2 ^ 16))
unfolding mi_sw
sw-IsPlain r base k h h' = (
  decode_branch-2reg 43 base r (sext16 k) _ (omega arith) h' h refl,
  (decode-mi r base 0 k h h' (omega arith)).5,
)

pub lw-IsPlain :
    (r base k : ℕ)
    → r < 2 ^ 5
    → base < 2 ^ 5
    → IsPlain (gen_mips_opcode_2reg 35 base r k) (lw r base (k % 2 ^ 16))
lw-IsPlain r base k h h' = (
  decode_branch-2reg 35 base r k _ (omega arith) h' h refl,
  (decode-2reg 35 base r k (omega arith) h' h).3,
)

pub or-IsPlain :
    (r s : ℕ) → r < 2 ^ 5 → s < 2 ^ 5 → IsPlain (gen_mips_opcode_3reg 0 s 0 r 37) (or r s 0)
or-IsPlain r s h h' = (
  decode_branch-3reg 0 s 0 r 37 (omega arith) h' (omega arith) h (omega arith),
  (decode-3reg 0 s 0 r 37 (omega arith) h' (omega arith) h (omega arith)).1,
)

-- one word more
pub plain-Reaches :
    (code : List ℕ) (s : Core) (pc : ℕ) (c : Cpu) (w : ℕ) (i : Insn)
    → get_elem? code pc ≡ some w
    → IsPlain w i
    → Reaches code s (at pc c)
    → Reaches code s (at (pc + 1) (step i c))
plain-Reaches code s pc c w i f (n, d) r = next r (tick-plain code (at pc c) w i f n d)

module _ (iter limit k : ℕ) (iter_small : iter < 2 ^ 5) (limit_small : limit < 2 ^ 5)
    (near : k < 2 ^ 15) (code : List ℕ)
    (first : get_elem? code 0 ≡ some (patch_word (mi_beq iter limit 0) k))
    (second : get_elem? code 1 ≡ some mi_nop) where
  exit_word_lem :
      (decode_branch (patch_word (mi_beq iter limit 0) k) ≡ some (beq iter limit))
      × (lands 0 (patch_word (mi_beq iter limit 0) k) ≡ 1 + k)
  unfolding mi_beq
  exit_word_lem =
      let w = patch_word (mi_beq iter limit 0) k in
      let halves = patch_word-halves (mi_beq iter limit 0) k in
      (
        decode_branch-2reg 4 iter limit 0 w (omega arith) iter_small limit_small halves.0,
        ground (arith, halves.1),
      )

  -- the branch at the head of the loop
  head-tick :
      (c : Cpu) (reached : Bool)
      → (read c iter == read c limit) ≡ reached
      → tick code (at 0 c) ≡ some (record { cpu = c; pc = 1; npc = if reached then 1 + k else 2 })
  unfolding taken
  head-tick c reached test =
      tick-branch code (at 0 c) (patch_word (mi_beq iter limit 0) k) (beq iter limit) first
        exit_word_lem.0
      ∙ ap
          (λ to.
            some (record { cpu = c; pc = 1; npc = if read c iter == read c limit then to else 2 }))
          exit_word_lem.1
      ∙ ap (λ b. some (record { cpu = c; pc = 1; npc = if b then 1 + k else 2 })) test

  -- into the body, and out of the loop
  pub enter-Reaches :
      (c : Cpu)
      → (read c iter == read c limit) ≡ false
      → Reaches code (at 0 c) (at 2 (step (sll 0 0 0) c))
  enter-Reaches c go =
      plain-Reaches code (at 0 c) 1 c mi_nop (sll 0 0 0) second decode-nop
        (next here (head-tick c false go))

  pub exit-Reaches :
      (c : Cpu)
      → (read c iter == read c limit) ≡ true
      → Reaches code (at 0 c) (at (1 + k) (step (sll 0 0 0) c))
  exit-Reaches c stop = next (next here (head-tick c true stop)) (
      tick-plain code (record { cpu = c; pc = 1; npc = 1 + k }) mi_nop (sll 0 0 0) second
        decode-nop.0 decode-nop.1)

-- an unconditional branch, whose word `w` goes to `to`
pub goto-Reaches :
    (code : List ℕ) (s : Core) (pc w to : ℕ) (c : Cpu)
    → get_elem? code pc ≡ some w
    → get_elem? code (pc + 1) ≡ some mi_nop
    → decode_branch w ≡ some (beq 0 0)
    → lands pc w ≡ to
    → Reaches code s (at pc c)
    → Reaches code s (at to (step (sll 0 0 0) c))
unfolding taken read
goto-Reaches code s pc w to c f f' d there r =
    let branch : tick code (at pc c) ≡ some (record { cpu = c; pc = pc + 1; npc = to }) =
      tick-branch code (at pc c) w (beq 0 0) f d
      ∙ ap (λ t. some (record { cpu = c; pc = pc + 1; npc = t })) there in
    next (next r branch) (
      tick-plain code (record { cpu = c; pc = pc + 1; npc = to }) mi_nop (sll 0 0 0) f' decode-nop.0
        decode-nop.1)
