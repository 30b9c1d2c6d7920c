-- ===== src/Tests/Running.antt =====
-- Emitted and linked code on the processor at concrete inputs.
use too_legit_to_jit.Common.{
  ap, ◌≢◌, ℕ, All, get_or, replicate, ◌-◌, ◌≡◌, refl, true, false, none, List, [], ◌∷◌, length, ok,
  ◌==◌, if◌then◌else◌, arith,
}
use too_legit_to_jit.Word.{neg32}
use too_legit_to_jit.Object.{lua_tnil}
use too_legit_to_jit.Operand.{reg, immed}
use too_legit_to_jit.Emitter.{
  Emitter32, local_label, patch_word, emitter32_create, encode_op, branch_local, label_local,
  find_local_label, ec, link,
}
use too_legit_to_jit.Emitter.Link.{patch_word-halves, Patched, Elsewhere}
use too_legit_to_jit.Emitter.Steps.{
  Translation, new, next, word, mark, jump_local, IsSound, Destined, Translation-link,
}
use too_legit_to_jit.Mips.Opcodes.{mi_addiu, mi_b}
use too_legit_to_jit.Jitfunc.{JFuncs}
use too_legit_to_jit.Machine.{Jit, Frame}
use too_legit_to_jit.Frame.{nr_spare_regs, slot_offset}
use too_legit_to_jit.Lua.Instruction.{local_at, emit_move}
use too_legit_to_jit.Lua.Moves.{home, Moved, emit_move-Moved}
use too_legit_to_jit.Mips.Move.{mips_mach}
use too_legit_to_jit.Mips.MoveLaws.{emit_all, value}
use too_legit_to_jit.Synthetic.{syn_min, syn_max}
use too_legit_to_jit.Synthetic.Minimum.{linked_words, signed_min, syn_min-signed_min}
use too_legit_to_jit.Mips.Arithmetic.{is_add_immed, reg_of}
use too_legit_to_jit.Mips.Isa.{Cpu, read}
use too_legit_to_jit.Mips.Jfunc.{mips_ops}
use too_legit_to_jit.Mips.Processor.{at, Reaches}
use too_legit_to_jit.Mips.Compare.{lt, block, holds, goes_on, Jumps}
use too_legit_to_jit.Mips.Compare.Emission.{emit_compare, label_of, EmitsBlock}
use too_legit_to_jit.Mips.Compare.Runs.{emit_compare-Jumps}
use too_legit_to_jit.Xlogue.Nilling.{nilling_code, is_nilled, do_nilling-Ends}
use too_legit_to_jit.Xlogue.Copying.{copying_code, is_copied, do_copying-Ends}

abbrev no_sections : JFuncs
no_sections = record { jit_functions = []; jfuncs_code = none }

abbrev at_64k : Emitter32 → ℕ
at_64k e = 65536

-- 3 in register 8, a counter and its limit in 16 and 17, two addresses in 18 and 19
abbrev some_cpu : Cpu
some_cpu = record {
  regs = λ x.
      if x == 8
      then 3
      else if x == 17
      then 2
      else if x == 18
      then 1000
      else if x == 19
      then 900
      else 0;
  mem = λ a. a;
}

-- a jump to the word 6 if register 8 is less than 5
abbrev less_word : ℕ
less_word = patch_word ((block lt 8 (immed 5)).branch) 4

abbrev less_code : List ℕ
less_code = mi_addiu 8 8 (neg32 5) ∷ less_word ∷ mi_addiu 8 8 5 ∷ []

emit_compare-Jumps_example :
    EmitsBlock
      (emit_compare lt (reg 8) (immed 5) (label_of (local_label 0 true)))
      (local_label 0 true)
      (block lt 8 (immed 5))
    × Jumps less_code 0 some_cpu
        (goes_on (holds lt (read some_cpu 8) 5) 0 ((block lt 8 (immed 5)).before) less_word)
unfolding read is_add_immed
emit_compare-Jumps_example =
    emit_compare-Jumps lt 8 (immed 5) (local_label 0 true) less_code 0 less_word some_cpu
      (omega arith) (λ e. omega arith) (omega arith, refl, refl) (omega arith) (omega arith)
      (omega arith, omega arith) (refl, (refl, refl))
      ((patch_word-halves ((block lt 8 (immed 5)).branch) 4).0)

do_nilling-Ends_example :
    (words : List ℕ) × (nilling_code at_64k no_sections 16 17 18 ≡ ok words)
    × (c' : Cpu) × Reaches words (at 0 some_cpu) (at (length words) c')
    × (read c' 16 ≡ read some_cpu 17)
    × ((a : ℕ) → c'.mem a ≡ (if is_nilled (read some_cpu 18) 2 a then lua_tnil else some_cpu.mem a))
unfolding read
do_nilling-Ends_example =
    do_nilling-Ends 16 17 18 (omega arith) (omega arith) (omega arith) (λ e. omega arith)
      (λ e. omega arith) (λ e. omega arith) (λ e. omega arith) (λ e. omega arith) (λ e. omega arith)
      (λ e. omega arith) (λ e. omega arith) at_64k no_sections 2 some_cpu refl (omega arith)

do_copying-Ends_example :
    (words : List ℕ) × (copying_code at_64k no_sections 16 17 18 19 ≡ ok words)
    × (c' : Cpu) × Reaches words (at 0 some_cpu) (at (length words) c')
    × (read c' 16 ≡ read some_cpu 17)
    × ((a : ℕ)
        → c'.mem a ≡ (
            if is_copied (read some_cpu 18) 2 a
            then some_cpu.mem (a - (read some_cpu 18 - read some_cpu 19))
            else some_cpu.mem a))
unfolding read
do_copying-Ends_example =
    do_copying-Ends 16 17 18 19 (omega arith) (omega arith) (omega arith) (omega arith)
      (λ e. omega arith) (λ e. omega arith) (λ e. omega arith) (λ e. omega arith) (λ e. omega arith)
      (λ e. omega arith) (λ e. omega arith) (λ e. omega arith) (λ e. omega arith) (λ e. omega arith)
      (λ e. omega arith) (λ e. omega arith) (λ e. omega arith) at_64k no_sections 2 some_cpu refl
      (omega arith) (omega arith) (omega arith) (omega arith)

syn_min-signed_min_example :
    (words : List ℕ) × (linked_words
        (syn_min (mips_ops at_64k no_sections) (reg 8) (reg 8) (reg 17))
      ≡ ok words)
    × (linked_words (syn_max (mips_ops at_64k no_sections) (reg 8) (reg 8) (reg 17)) ≡ ok words)
    × (c' : Cpu) × Reaches words (at 0 some_cpu) (at (length words) c')
    × ((r : ℕ)
        → read c' r
          ≡ (if r == 8 then signed_min (read some_cpu 8) (read some_cpu 17) else read some_cpu r))
    × ((a : ℕ) → c'.mem a ≡ some_cpu.mem a)
unfolding read
syn_min-signed_min_example =
    syn_min-signed_min 8 8 17 (omega arith) (omega arith) (omega arith) (λ e. omega arith)
      (λ e. omega arith) (λ e. omega arith) some_cpu (omega arith) (omega arith)
      (omega arith, omega arith) at_64k no_sections

-- a loop of a label, a word and a branch back
abbrev marked : Emitter32
marked = record (emitter32_create 4) { local = (0 ∷ []) ∷ replicate 9 [] }

abbrev back : Emitter32
back = encode_op (branch_local (encode_op marked 0) 0 false) (mi_b 0)

back-Translation : Translation back
unfolding label_local emitter32_create ec
back-Translation =
    next (next (next (new 4) (mark 0 (omega arith) refl)) (word 0)) (jump_local 0 false (mi_b 0))

back-Destined : All (Destined back) back.head
unfolding find_local_label encode_op branch_local emitter32_create ec
back-Destined = ((0, refl, (omega arith, omega arith, omega arith)), tt)

Translation-link_example :
    IsSound back
    × ((e' : Emitter32) × (link back ≡ ok e')
        × All (Patched back e'.mcode) back.head
        × ((i : ℕ) → All (Elsewhere i) back.head → get_or e'.mcode i 0 ≡ get_or back.mcode i 0)
        × (length e'.mcode ≡ length back.mcode)
        × (e'.head ≡ []))
Translation-link_example = Translation-link back back-Translation back-Destined

abbrev one_frame : Frame
one_frame = record { nr_locals = 12; nr_params = 0; nr_consts = 0; epi = 0; pro = 0; consts = [] }

differ : (a b : ℕ) → a ≡ b → a ≢ b → ⊥
differ a b e ne = ne e

-- from a register of the frame, the local 10, to machine registers, the local 3
emit_move-Moved_example :
    (ws : List ℕ) × (j : Jit) × (emit_move
        (mips_ops at_64k no_sections)
        one_frame
        (local_at 3)
        (local_at 10)
        (record { emitter = emitter32_create 0; machine = mips_mach })
      ≡ ok (tt, j))
    × (j.emitter ≡ emit_all ws (emitter32_create 0))
    × (c' : Cpu) × Moved ws 3 10 some_cpu c'
    × (value c' (home 1) ≡ value some_cpu (home 1))
unfolding nr_spare_regs slot_offset
emit_move-Moved_example =
    emit_move-Moved at_64k no_sections one_frame (emitter32_create 0) 3 10 1 some_cpu
      (λ e. differ 23 22 (ap reg_of e) (omega arith)) (λ e. differ 0 22 (ap reg_of e) (omega arith))
      (λ e. differ 17 22 (ap reg_of e) (omega arith))
      (λ e. differ 17 23 (ap reg_of e) (omega arith))
