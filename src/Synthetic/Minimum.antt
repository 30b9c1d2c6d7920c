-- ===== src/Synthetic/Minimum.antt =====
-- synthetic.c: the minimum of two registers, emitted, linked and run. The maximum has the same
-- code.
use too_legit_to_jit.Common.{
  ℕ, ◌^◌, ◌<◌, ◌≡◌, ◌≢◌, ◌∙◌, refl, Bool, true, false, some, List, [], ◌∷◌, length, Result, ok,
  and_then, if◌then◌else◌, ◌==◌, arith,
}
use too_legit_to_jit.Word.{signed_lt}
use too_legit_to_jit.Word.Bits.{bit_or-zero}
use too_legit_to_jit.Operand.{reg, op_target_reg, lbl_next, iso_reg, iso_immed}
use too_legit_to_jit.Emitter.{
  Emitter32, emitter32_create, label_local, branch_local, encode_op, store_word, link, patch_word,
}
use too_legit_to_jit.Emitter.Link.{lands, patch_word-halves}
use too_legit_to_jit.Machine.{Jit, Emit}
use too_legit_to_jit.Jitfunc.{JFuncs}
use too_legit_to_jit.Temporaries.{release_tempn}
use too_legit_to_jit.Synthetic.{syn_min, syn_max}
use too_legit_to_jit.Mips.Opcodes.{
  gen_mips_opcode_2reg, gen_mips_opcode_3reg, mi_addu, mi_subu, mi_b, mi_nop,
}
use too_legit_to_jit.Mips.Isa.{Cpu, or, sll, read, write, step}
use too_legit_to_jit.Mips.Move.{mips_mach, move, move_at, loadreg, emit}
use too_legit_to_jit.Mips.Arithmetic.{
  is_add_immed, is_sub_immed, sub_zero_reg, load_source, acquire_reg, release_reg, do_nonimm_bop,
  validate_operands, do_add_valid, do_add, mips_add, mips_sub,
}
use too_legit_to_jit.Mips.Branch.{
  mips_branch, validate_branch, ineq_load_temp, inequality_loaded, mips_inequality, mips_blt,
  mips_b,
}
use too_legit_to_jit.Mips.Jfunc.{mips_ops}
use too_legit_to_jit.Mips.Processor.{beq, at, Reaches, decode_branch}
use too_legit_to_jit.Mips.Compare.{lt, Comparable, goes_on, nop_lem}
use too_legit_to_jit.Mips.Compare.Runs.{block-Jumps}
use too_legit_to_jit.Mips.Loop.{or-IsPlain, plain-Reaches, goto-Reaches}

abbrev start : Jit
start = record { emitter = emitter32_create 0; machine = mips_mach }

-- the words that an operation on registers becomes
abbrev pub linked_words : Emit (Unit {0}) → Result (List ℕ)
linked_words f = and_then (f start) λ r. and_then (link (r.1.emitter)) λ e. ok e.mcode

abbrev min_words : (d s t : ℕ) → List ℕ
min_words d s t =
    mi_subu s s t
    ∷ patch_word (gen_mips_opcode_2reg 1 s 0 0) 4
    ∷ mi_addu s s t
    ∷ gen_mips_opcode_3reg 0 t 0 d 37
    ∷ patch_word (mi_b 0) 2
    ∷ mi_nop
    ∷ gen_mips_opcode_3reg 0 s 0 d 37
    ∷ []

words_lem :
    (buffer : Emitter32 → ℕ) (t : JFuncs) (d x y : ℕ)
    → (linked_words (syn_min (mips_ops buffer t) (reg d) (reg x) (reg y)) ≡ ok (min_words d x y))
      × (linked_words (syn_max (mips_ops buffer t) (reg d) (reg x) (reg y)) ≡ ok (min_words d x y))
unfolding syn_min syn_max mips_ops mips_blt mips_b move move_at link label_local validate_branch
    mips_inequality inequality_loaded ineq_load_temp mips_sub mips_branch iso_reg iso_immed
    sub_zero_reg mips_add do_add validate_operands do_add_valid acquire_reg load_source release_reg
    release_tempn is_add_immed is_sub_immed do_nonimm_bop emit encode_op emitter32_create
    branch_local loadreg op_target_reg lbl_next store_word mi_subu
words_lem buffer t d x y = (refl, refl)

-- a move between registers
move_lem :
    (d s : ℕ) (c : Cpu)
    → d ≢ 0
    → ((x : ℕ) → read (step (or d s 0) c) x ≡ (if x == d then read c s else read c x))
      × ((a : ℕ) → (step (or d s 0) c).mem a ≡ c.mem a)
unfolding step read write
move_lem d s c pos = ((λ x. ground (arith, bit_or-zero (read c s))), λ a. refl)

-- the smaller one of two values of type `int`
abbrev pub signed_min : ℕ → ℕ → ℕ
signed_min a b = if signed_lt a b then a else b

module _ (d x y : ℕ) (d_small : d < 2 ^ 5) (x_small : x < 2 ^ 5) (y_small : y < 2 ^ 5)
    (d_pos : d ≢ 0) (x_pos : x ≢ 0) (apart : y ≢ x) (c : Cpu) (x_word : read c x < 2 ^ 32)
    (y_word : read c y < 2 ^ 32) (comparable : Comparable lt (read c x) (read c y)) where
  abbrev code : List ℕ
  code = min_words d x y

  -- what the words leave
  abbrev Outcome : (result : ℕ) → Type 0
  Outcome result =
      (c' : Cpu) × Reaches code (at 0 c) (at 7 c')
      × ((r : ℕ) → read c' r ≡ (if r == d then result else read c r))
      × ((a : ℕ) → c'.mem a ≡ c.mem a)

  abbrev branch : ℕ
  branch = patch_word (gen_mips_opcode_2reg 1 x 0 0) 4

  branch-lands : lands 1 branch ≡ 6
  branch-lands = ground (arith, (patch_word-halves (gen_mips_opcode_2reg 1 x 0 0) 4).1)

  end_word_lem :
      (decode_branch (patch_word (mi_b 0) 2) ≡ some (beq 0 0))
      × (lands 4 (patch_word (mi_b 0) 2) ≡ 7)
  unfolding decode_branch patch_word mi_b
  end_word_lem = (refl, refl)

  -- behind the comparison, which leaves `c₁`
  less-Outcome :
      (c₁ : Cpu)
      → Reaches code (at 0 c) (at (lands 1 branch) c₁)
      → ((r : ℕ) → read c₁ r ≡ read c r)
      → ((a : ℕ) → c₁.mem a ≡ c.mem a)
      → Outcome (read c x)
  less-Outcome c₁ r same mem =
      let moved = move_lem d x c₁ d_pos in
      let there : Reaches code (at 0 c) (at 6 c₁) = rw branch-lands at r in
      (
        step (or d x 0) c₁,
        plain-Reaches code (at 0 c) 6 c₁ (gen_mips_opcode_3reg 0 x 0 d 37) (or d x 0) refl
            (or-IsPlain d x d_small x_small) there,
        (λ q. moved.0 q ∙ rw (same x, same q) refl),
        λ a. moved.1 a ∙ mem a,
      )

  not_less-Outcome :
      (c₁ : Cpu)
      → Reaches code (at 0 c) (at 3 c₁)
      → ((r : ℕ) → read c₁ r ≡ read c r)
      → ((a : ℕ) → c₁.mem a ≡ c.mem a)
      → Outcome (read c y)
  not_less-Outcome c₁ r same mem =
      let moved = move_lem d y c₁ d_pos in
      let c₂ = step (or d y 0) c₁ in
      let nop = nop_lem c₂ in
      (
        step (sll 0 0 0) c₂,
        goto-Reaches code (at 0 c) 4 (patch_word (mi_b 0) 2) 7 c₂ refl refl end_word_lem.0
            end_word_lem.1
            (plain-Reaches code (at 0 c) 3 c₁ (gen_mips_opcode_3reg 0 y 0 d 37) (or d y 0) refl
              (or-IsPlain d y d_small y_small) r),
        (λ q. nop.0 q ∙ moved.0 q ∙ rw (same y, same q) refl),
        λ a. nop.1 a ∙ moved.1 a ∙ mem a,
      )

  by_comparison :
      (less : Bool) (c₁ : Cpu)
      → Reaches code (at 0 c) (at (goes_on less 0 (mi_subu x x y ∷ []) branch) c₁)
      → ((r : ℕ) → read c₁ r ≡ read c r)
      → ((a : ℕ) → c₁.mem a ≡ c.mem a)
      → Outcome (if less then read c x else read c y)
  by_comparison true c₁ r same mem = less-Outcome c₁ r same mem
  by_comparison false c₁ r same mem = not_less-Outcome c₁ r same mem

  min-Outcome : Outcome (signed_min (read c x) (read c y))
  min-Outcome =
      let (c₁, r, same, mem) =
        block-Jumps lt x (reg y) code 0 branch c x_small x_pos (y_small, apart) x_word y_word
          comparable (refl, (refl, refl))
          ((patch_word-halves (gen_mips_opcode_2reg 1 x 0 0) 4).0) in
      by_comparison (signed_lt (read c x) (read c y)) c₁ r same mem

  -- On the MIPS machine, `syn_min` of two different registers is translated and linked to words
  -- which the processor, from the first one, leaves at their end with the smaller one of the two
  -- signed values in the destination, and every other register and the memory as before. `syn_max`
  -- becomes the same words, so that it computes the minimum too. The destination and the first
  -- operand are not the zero register, registers are below 32, and the difference of the two 32-bit
  -- values is an `int`.
  pub syn_min-signed_min :
      (buffer : Emitter32 → ℕ) (t : JFuncs)
      → (words : List ℕ) × (linked_words (syn_min (mips_ops buffer t) (reg d) (reg x) (reg y))
          ≡ ok words)
        × (linked_words (syn_max (mips_ops buffer t) (reg d) (reg x) (reg y)) ≡ ok words)
        × (c' : Cpu) × Reaches words (at 0 c) (at (length words) c')
        × ((r : ℕ) → read c' r ≡ (if r == d then signed_min (read c x) (read c y) else read c r))
        × ((a : ℕ) → c'.mem a ≡ c.mem a)
  syn_min-signed_min buffer t =
      let (c', r, regs, mem) = min-Outcome in
      let translated = words_lem buffer t d x y in
      (code, translated.0, translated.1, c', r, regs, mem)
