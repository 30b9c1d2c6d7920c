-- ===== src/Xlogue/Nilling.antt =====
-- xlogue.c: the loop that sets the results that are missing to nil, emitted, linked and run.
use too_legit_to_jit.Common.{
  tests, length, ◌∙◌, none, some, zero, suc, Bool, false, ◌||◌, ◌==◌, if◌then◌else◌, ◌<◌, ◌≢◌,
  arith, ◌-◌, ◌^◌, ℕ, ◌+◌, ◌≡◌, refl, List, [], ◌∷◌, Result, ok, and_then,
}
use too_legit_to_jit.Word.{neg32, sext16, add32, sub32}
use too_legit_to_jit.Operand.{
  reg, op_target_reg, op_target_daddr, op_target_immed, lbl_next, lbl_prev, iso_reg, iso_immed,
  iso_daddr,
}
use too_legit_to_jit.Emitter.{
  store_word, Emitter32, emitter32_create, link, patch_word, label_local, branch_local, encode_op,
}
use too_legit_to_jit.Machine.{Jit}
use too_legit_to_jit.Jitfunc.{JFuncs}
use too_legit_to_jit.Mips.Opcodes.{mi_beq, mi_b, mi_nop, mi_sw, mi_addiu, gen_mips_opcode_2reg}
use too_legit_to_jit.Mips.Isa.{Cpu, Insn, sll, ori, sw, addiu, read, write, store, step, decode}
use too_legit_to_jit.Emitter.Link.{lands}
use too_legit_to_jit.Mips.Processor.{beq, at, Reaches, Reaches-trans, decode_branch}
use too_legit_to_jit.Mips.Compare.{nop_lem}
use too_legit_to_jit.Mips.Loop.{
  addiu-IsPlain, sw-IsPlain, plain-Reaches, enter-Reaches, exit-Reaches, goto-Reaches,
}
use too_legit_to_jit.Mips.Move.{mips_mach, move, move_at, loadim, loadreg, fits_one, emit}
use too_legit_to_jit.Mips.Jfunc.{mips_ops}
use too_legit_to_jit.Temporaries.{
  refcount_at, acquire_slot, update_max, set_slot, acquire_temp, release_temp, release_tempn,
}
use too_legit_to_jit.Mips.Arithmetic.{
  is_add_immed, sub_zero_reg, load_source, acquire_reg, release_reg, validate_operands,
  do_add_valid, do_add, mips_add,
}
use too_legit_to_jit.Mips.Branch.{
  mips_branch, emiteq, equv_reg_reg, equv_match, do_equv, validate_branch, mips_beq, mips_b,
}
use too_legit_to_jit.Object.{lua_tnil}
use too_legit_to_jit.Xlogue.Sections.{do_nilling}

abbrev start : Jit
start = record { emitter = emitter32_create 0; machine = mips_mach }

-- the code of the loop for three registers
unfoldable pub nilling_code :
    (buffer : Emitter32 → ℕ) → JFuncs → (iter limit dst : ℕ) → Result (List ℕ)
nilling_code buffer t iter limit dst =
    and_then (do_nilling (mips_ops buffer t) (reg iter) (reg limit) (reg dst) start)
      λ r. and_then (link (r.1.emitter)) λ e. ok e.mcode

-- the words that the linker leaves
abbrev pub nilling_words : (iter limit dst : ℕ) → List ℕ
nilling_words iter limit dst =
    patch_word (mi_beq iter limit 0) 7
    ∷ mi_nop
    ∷ gen_mips_opcode_2reg 13 0 4 3
    ∷ mi_sw 4 dst (sext16 (neg32 4))
    ∷ mi_addiu dst dst (neg32 8)
    ∷ mi_addiu iter iter 1
    ∷ patch_word (mi_b 0) (2 ^ 16 - 7)
    ∷ mi_nop
    ∷ []

nilling_code_lem :
    (buffer : Emitter32 → ℕ) (t : JFuncs) (iter limit dst : ℕ)
    → nilling_code buffer t iter limit dst ≡ ok (nilling_words iter limit dst)
unfolding nilling_code do_nilling mips_ops mips_beq mips_b move move_at acquire_temp release_temp
    link label_local validate_branch do_equv equv_match equv_reg_reg emiteq mips_branch iso_reg
    iso_immed iso_daddr sub_zero_reg mips_add do_add validate_operands do_add_valid acquire_reg
    load_source release_reg release_tempn is_add_immed emit encode_op emitter32_create branch_local
    loadim loadreg fits_one op_target_reg op_target_immed op_target_daddr lbl_next lbl_prev
    refcount_at acquire_slot update_max set_slot store_word
nilling_code_lem buffer t iter limit dst = refl

-- whether `a` is the address of the type of one of the `n` values from `d` on, downwards
unfoldable pub is_nilled : (d n a : ℕ) → Bool
is_nilled d zero a = false
is_nilled d (suc n) a = (a == sub32 d 4) || is_nilled (sub32 d 8) n a

abbrev ori_nil : Insn
ori_nil = ori 4 0 3

abbrev body : (iter dst : ℕ) → Cpu → Cpu
body iter dst c =
    let c₁ = step (sll 0 0 0) c in
    let c₂ = step (ori 4 0 3) c₁ in
    let c₃ = step (sw 4 dst 65532) c₂ in
    let c₄ = step (addiu dst dst 65528) c₃ in
    let c₅ = step (addiu iter iter 1) c₄ in step (sll 0 0 0) c₅

module _ (iter limit dst : ℕ) (iter_small : iter < 2 ^ 5) (limit_small : limit < 2 ^ 5)
    (dst_small : dst < 2 ^ 5) (iter_pos : iter ≢ 0) (dst_pos : dst ≢ 0) (iter_temp : iter ≢ 4)
    (limit_temp : limit ≢ 4) (dst_temp : dst ≢ 4) (iter_limit : iter ≢ limit)
    (iter_dst : iter ≢ dst) (limit_dst : limit ≢ dst) where
  abbrev code : List ℕ
  code = nilling_words iter limit dst

  body_lem :
      (c : Cpu)
      → (read (body iter dst c) iter ≡ add32 (read c iter) 1)
        × (read (body iter dst c) limit ≡ read c limit)
        × (read (body iter dst c) dst ≡ sub32 (read c dst) 8)
        × ((a : ℕ) → (body iter dst c).mem a ≡ (if a == sub32 (read c dst) 4 then 3 else c.mem a))
  unfolding step read write store
  body_lem c = (ground arith, ground arith, ground arith, λ a. ground arith)

  back_word_lem :
      (decode_branch (patch_word (mi_b 0) (2 ^ 16 - 7)) ≡ some (beq 0 0))
      × (lands 6 (patch_word (mi_b 0) (2 ^ 16 - 7)) ≡ 0)
  unfolding decode_branch patch_word mi_b
  back_word_lem = (refl, refl)

  ori_lem :
      (decode_branch (gen_mips_opcode_2reg 13 0 4 3) ≡ none)
      × (decode (gen_mips_opcode_2reg 13 0 4 3) ≡ some (ori 4 0 3))
  unfolding decode_branch decode gen_mips_opcode_2reg
  ori_lem = (refl, refl)

  -- one round
  round-Reaches :
      (c : Cpu)
      → (read c iter == read c limit) ≡ false
      → Reaches code (at 0 c) (at 0 (body iter dst c))
  round-Reaches c go =
      let s = at 0 c in
      let c₁ = step (sll 0 0 0) c in
      let c₂ = step (ori 4 0 3) c₁ in
      let c₃ = step (sw 4 dst 65532) c₂ in
      let c₄ = step (addiu dst dst 65528) c₃ in
      let c₅ = step (addiu iter iter 1) c₄ in
      let store = mi_sw 4 dst (sext16 (neg32 4)) in
      let r₁ =
        enter-Reaches iter limit 7 iter_small limit_small (omega arith) code refl refl c go in
      let r₂ =
        plain-Reaches code s 2 c₁ (gen_mips_opcode_2reg 13 0 4 3) (ori 4 0 3) refl ori_lem r₁ in
      let r₃ =
        plain-Reaches code s 3 c₂ store (sw 4 dst 65532) refl
          (sw-IsPlain 4 dst (sext16 (neg32 4)) (omega arith) dst_small) r₂ in
      let r₄ =
        plain-Reaches code s 4 c₃ (mi_addiu dst dst (neg32 8)) (addiu dst dst 65528) refl
          (addiu-IsPlain dst (neg32 8) dst_small) r₃ in
      let r₅ =
        plain-Reaches code s 5 c₄ (mi_addiu iter iter 1) (addiu iter iter 1) refl
          (addiu-IsPlain iter 1 iter_small) r₄ in
      goto-Reaches code s 6 (patch_word (mi_b 0) (2 ^ 16 - 7)) 0 c₅ refl refl back_word_lem.0
        back_word_lem.1 r₅

  rounds :
      (n : ℕ) (c : Cpu)
      → read c iter + n ≡ read c limit
      → read c limit < 2 ^ 32
      → (c' : Cpu) × Reaches code (at 0 c) (at 8 c')
        × (read c' iter ≡ read c limit)
        × ((a : ℕ) → c'.mem a ≡ (if is_nilled (read c dst) n a then 3 else c.mem a))
  unfolding is_nilled
  rounds zero c h word =
      let out = nop_lem c in
      let leaves =
        exit-Reaches iter limit 7 iter_small limit_small (omega arith) code refl refl c in
      (step (sll 0 0 0) c, leaves (omega (tests, h)), (out.0 iter ∙ omega (arith, h)), out.1)
  rounds (suc n) c h word =
      let (up, same, down, mem) = body_lem c in
      let go : (read c iter == read c limit) ≡ false = omega (tests, h) in
      let (c', r, there, mem') =
        rounds n (body iter dst c) (omega (arith, up, same, h, word)) (omega (arith, same, word)) in
      (
        c',
        Reaches-trans (round-Reaches c go) r,
        there ∙ same,
        λ a. mem' a ∙ rw (down, mem a) (ground arith),
      )

  -- The loop that sets missing results to nil, on the MIPS machine and over any three registers
  -- that are distinct, not zero and not the first temporary: it is translated and linked to words
  -- which the processor, from the first one, leaves at their end. Where the counter is `n` below
  -- the limit, a 32-bit value, the counter has then reached the limit, the types of `n` values from
  -- the destination downwards are nil, and every other word of the memory is as before.
  pub do_nilling-Ends :
      (buffer : Emitter32 → ℕ) (t : JFuncs) (n : ℕ) (c : Cpu)
      → read c iter + n ≡ read c limit
      → read c limit < 2 ^ 32
      → (words : List ℕ) × (nilling_code buffer t iter limit dst ≡ ok words)
        × (c' : Cpu) × Reaches words (at 0 c) (at (length words) c')
        × (read c' iter ≡ read c limit)
        × ((a : ℕ) → c'.mem a ≡ (if is_nilled (read c dst) n a then lua_tnil else c.mem a))
  do_nilling-Ends buffer t n c h word =
      let (c', r, there, mem) = rounds n c h word in
      (code, nilling_code_lem buffer t iter limit dst, c', r, there, mem)
