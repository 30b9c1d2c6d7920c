-- ===== src/Xlogue/Copying.antt =====
-- xlogue.c: the loop that copies arguments and results, emitted, linked and run.
use too_legit_to_jit.Common.{
  ◌*◌, inl, inr, Bool-cases, ◌≤◌, tests, length, ◌∙◌, some, zero, suc, Bool, true, false, ◌||◌,
  ◌==◌, if◌then◌else◌, ◌<◌, ◌≢◌, arith, ◌-◌, ◌^◌, ℕ, ◌+◌, ◌≡◌, refl, List, [], ◌∷◌, Result, ok,
  and_then,
}
use too_legit_to_jit.Word.{neg32, sext16, add32, sub32}
use too_legit_to_jit.Operand.{
  reg, op_target_reg, op_target_daddr, op_target_immed, lbl_next, lbl_prev, iso_reg, iso_immed,
  iso_daddr,
}
use too_legit_to_jit.Emitter.{
  store_word, Emitter32, emitter32_create, link, patch_word, label_local, branch_local, encode_op,
}
use too_legit_to_jit.Machine.{Jit}
use too_legit_to_jit.Jitfunc.{JFuncs}
use too_legit_to_jit.Mips.Opcodes.{mi_beq, mi_b, mi_nop, mi_sw, mi_addiu, gen_mips_opcode_2reg}
use too_legit_to_jit.Mips.Isa.{Cpu, sll, lw, sw, addiu, read, write, store, step}
use too_legit_to_jit.Emitter.Link.{lands}
use too_legit_to_jit.Mips.Processor.{beq, at, Reaches, Reaches-trans, decode_branch}
use too_legit_to_jit.Mips.Compare.{nop_lem}
use too_legit_to_jit.Mips.Loop.{
  addiu-IsPlain, lw-IsPlain, sw-IsPlain, plain-Reaches, enter-Reaches, exit-Reaches, goto-Reaches,
}
use too_legit_to_jit.Mips.Move.{mips_mach, move, move_at, loadim, loadreg, fits_one, emit}
use too_legit_to_jit.Mips.Jfunc.{mips_ops}
use too_legit_to_jit.Temporaries.{
  refcount_at, acquire_slot, update_max, set_slot, acquire_temp, release_temp, release_tempn,
}
use too_legit_to_jit.Mips.Arithmetic.{
  is_add_immed, sub_zero_reg, load_source, acquire_reg, release_reg, validate_operands,
  do_add_valid, do_add, mips_add,
}
use too_legit_to_jit.Mips.Branch.{
  mips_branch, emiteq, equv_reg_reg, equv_match, do_equv, validate_branch, mips_beq, mips_b,
}
use too_legit_to_jit.Xlogue.Sections.{do_copying}

abbrev start : Jit
start = record { emitter = emitter32_create 0; machine = mips_mach }

-- the code of the loop for four registers
unfoldable pub copying_code :
    (buffer : Emitter32 → ℕ) → JFuncs → (iter limit dst src : ℕ) → Result (List ℕ)
copying_code buffer t iter limit dst src =
    and_then (do_copying (mips_ops buffer t) (reg iter) (reg limit) (reg dst) (reg src) start)
      λ r. and_then (link (r.1.emitter)) λ e. ok e.mcode

-- the words that the linker leaves
abbrev copying_words : (iter limit dst src : ℕ) → List ℕ
copying_words iter limit dst src =
    patch_word (mi_beq iter limit 0) 10
    ∷ mi_nop
    ∷ gen_mips_opcode_2reg 35 src 4 0
    ∷ mi_sw 4 dst 0
    ∷ gen_mips_opcode_2reg 35 src 4 (sext16 (neg32 4))
    ∷ mi_sw 4 dst (sext16 (neg32 4))
    ∷ mi_addiu dst dst (neg32 8)
    ∷ mi_addiu src src (neg32 8)
    ∷ mi_addiu iter iter 1
    ∷ patch_word (mi_b 0) (2 ^ 16 - 10)
    ∷ mi_nop
    ∷ []

copying_code_lem :
    (buffer : Emitter32 → ℕ) (t : JFuncs) (iter limit dst src : ℕ)
    → copying_code buffer t iter limit dst src ≡ ok (copying_words iter limit dst src)
unfolding copying_code do_copying mips_ops mips_beq mips_b move move_at acquire_temp release_temp
    link label_local validate_branch do_equv equv_match equv_reg_reg emiteq mips_branch iso_reg
    iso_immed iso_daddr sub_zero_reg mips_add do_add validate_operands do_add_valid acquire_reg
    load_source release_reg release_tempn is_add_immed emit encode_op emitter32_create branch_local
    loadim loadreg fits_one op_target_reg op_target_immed op_target_daddr lbl_next lbl_prev
    refcount_at acquire_slot update_max set_slot store_word
copying_code_lem buffer t iter limit dst src = refl

-- whether `a` is the address of the value or the type of one of `n` values from `d` on, downwards
unfoldable pub is_copied : (d n a : ℕ) → Bool
is_copied d zero a = false
is_copied d (suc n) a = (a == d) || ((a == d - 4) || is_copied (d - 8) n a)

is_copied-le : (d n a : ℕ) → is_copied d n a ≡ true → a ≤ d
unfolding is_copied
is_copied-le d zero a h = absurd (cc)
is_copied-le d (suc n) a h = ground (arith, is_copied-le (d - 8) n a)

-- one round and those behind it
copied_next :
    (n d s a : ℕ) (mem mem' : ℕ → ℕ)
    → s ≤ d
    → 8 ≤ s
    → ((x : ℕ) → mem' x ≡ (if x == d then mem s else if x == d - 4 then mem (s - 4) else mem x))
    → (if is_copied (d - 8) n a then mem' (a - (d - s)) else mem' a)
      ≡ (if is_copied d (suc n) a then mem (a - (d - s)) else mem a)
unfolding is_copied
copied_next n d s a mem mem' order low round =
    rw (round a, round (a - (d - s)))
      (elim (Bool-cases (is_copied (d - 8) n a)) [
        | inl below ↦ let le = is_copied-le (d - 8) n a below in rw below (ground arith)
        | inr not_below ↦ rw not_below (ground arith)
      ])

abbrev body : (iter dst src : ℕ) → Cpu → Cpu
body iter dst src c =
    let c₁ = step (sll 0 0 0) c in
    let c₂ = step (lw 4 src 0) c₁ in
    let c₃ = step (sw 4 dst 0) c₂ in
    let c₄ = step (lw 4 src 65532) c₃ in
    let c₅ = step (sw 4 dst 65532) c₄ in
    let c₆ = step (addiu dst dst 65528) c₅ in
    let c₇ = step (addiu src src 65528) c₆ in
    let c₈ = step (addiu iter iter 1) c₇ in step (sll 0 0 0) c₈

module _ (iter limit dst src : ℕ) (iter_small : iter < 2 ^ 5) (limit_small : limit < 2 ^ 5)
    (dst_small : dst < 2 ^ 5) (src_small : src < 2 ^ 5) (iter_pos : iter ≢ 0) (dst_pos : dst ≢ 0)
    (src_pos : src ≢ 0) (iter_temp : iter ≢ 4) (limit_temp : limit ≢ 4) (dst_temp : dst ≢ 4)
    (src_temp : src ≢ 4) (iter_limit : iter ≢ limit) (iter_dst : iter ≢ dst) (iter_src : iter ≢ src)
    (limit_dst : limit ≢ dst) (limit_src : limit ≢ src) (dst_src : dst ≢ src) where
  abbrev code : List ℕ
  code = copying_words iter limit dst src

  body_regs :
      (c : Cpu)
      → (read (body iter dst src c) iter ≡ add32 (read c iter) 1)
        × (read (body iter dst src c) limit ≡ read c limit)
        × (read (body iter dst src c) dst ≡ sub32 (read c dst) 8)
        × (read (body iter dst src c) src ≡ sub32 (read c src) 8)
  unfolding step read write store
  body_regs c = (ground arith, ground arith, ground arith, ground arith)

  raw_mem :
      (c : Cpu) (a : ℕ)
      → (body iter dst src c).mem a ≡ (
          if a == add32 (read c dst) (sext16 65532)
          then (if add32 (read c src) (sext16 65532) == add32 (read c dst) (sext16 0)
              then c.mem (add32 (read c src) (sext16 0))
              else c.mem (add32 (read c src) (sext16 65532)))
          else if a == add32 (read c dst) (sext16 0)
          then c.mem (add32 (read c src) (sext16 0))
          else c.mem a)
  unfolding step read write store
  raw_mem c a = ground arith

  body_mem :
      (c : Cpu) (a : ℕ)
      → read c src ≤ read c dst
      → read c dst < 2 ^ 32
      → 8 ≤ read c src
      → (body iter dst src c).mem a ≡ (
          if a == read c dst
          then c.mem (read c src)
          else if a == read c dst - 4
          then c.mem (read c src - 4)
          else c.mem a)
  body_mem c a order word low =
      let d : add32 (read c dst) (sext16 0) ≡ read c dst = omega arith in
      let s : add32 (read c src) (sext16 0) ≡ read c src = omega arith in
      let d' : add32 (read c dst) (sext16 65532) ≡ read c dst - 4 = omega arith in
      let s' : add32 (read c src) (sext16 65532) ≡ read c src - 4 = omega arith in
      raw_mem c a ∙ rw (d, s, d', s') (ground arith)

  back_word_lem :
      (decode_branch (patch_word (mi_b 0) (2 ^ 16 - 10)) ≡ some (beq 0 0))
      × (lands 9 (patch_word (mi_b 0) (2 ^ 16 - 10)) ≡ 0)
  unfolding decode_branch patch_word mi_b
  back_word_lem = (refl, refl)

  -- one round
  round-Reaches :
      (c : Cpu)
      → (read c iter == read c limit) ≡ false
      → Reaches code (at 0 c) (at 0 (body iter dst src c))
  round-Reaches c go =
      let s = at 0 c in
      let low = sext16 (neg32 4) in
      let c₁ = step (sll 0 0 0) c in
      let c₂ = step (lw 4 src 0) c₁ in
      let c₃ = step (sw 4 dst 0) c₂ in
      let c₄ = step (lw 4 src 65532) c₃ in
      let c₅ = step (sw 4 dst 65532) c₄ in
      let c₆ = step (addiu dst dst 65528) c₅ in
      let c₇ = step (addiu src src 65528) c₆ in
      let c₈ = step (addiu iter iter 1) c₇ in
      let four : 4 < 2 ^ 5 = omega arith in
      let r₁ =
        enter-Reaches iter limit 10 iter_small limit_small (omega arith) code refl refl c go in
      let r₂ =
        plain-Reaches code s 2 c₁ (gen_mips_opcode_2reg 35 src 4 0) (lw 4 src 0) refl
          (lw-IsPlain 4 src 0 four src_small) r₁ in
      let r₃ =
        plain-Reaches code s 3 c₂ (mi_sw 4 dst 0) (sw 4 dst 0) refl
          (sw-IsPlain 4 dst 0 four dst_small) r₂ in
      let r₄ =
        plain-Reaches code s 4 c₃ (gen_mips_opcode_2reg 35 src 4 low) (lw 4 src 65532) refl
          (lw-IsPlain 4 src low four src_small) r₃ in
      let r₅ =
        plain-Reaches code s 5 c₄ (mi_sw 4 dst low) (sw 4 dst 65532) refl
          (sw-IsPlain 4 dst low four dst_small) r₄ in
      let r₆ =
        plain-Reaches code s 6 c₅ (mi_addiu dst dst (neg32 8)) (addiu dst dst 65528) refl
          (addiu-IsPlain dst (neg32 8) dst_small) r₅ in
      let r₇ =
        plain-Reaches code s 7 c₆ (mi_addiu src src (neg32 8)) (addiu src src 65528) refl
          (addiu-IsPlain src (neg32 8) src_small) r₆ in
      let r₈ =
        plain-Reaches code s 8 c₇ (mi_addiu iter iter 1) (addiu iter iter 1) refl
          (addiu-IsPlain iter 1 iter_small) r₇ in
      goto-Reaches code s 9 (patch_word (mi_b 0) (2 ^ 16 - 10)) 0 c₈ refl refl back_word_lem.0
        back_word_lem.1 r₈

  rounds :
      (n : ℕ) (c : Cpu)
      → read c iter + n ≡ read c limit
      → read c limit < 2 ^ 32
      → read c src ≤ read c dst
      → read c dst < 2 ^ 32
      → 8 * n ≤ read c src
      → (c' : Cpu) × Reaches code (at 0 c) (at 11 c')
        × (read c' iter ≡ read c limit)
        × ((a : ℕ)
            → c'.mem a ≡ (
                if is_copied (read c dst) n a
                then c.mem (a - (read c dst - read c src))
                else c.mem a))
  unfolding is_copied
  rounds zero c h word order word' low =
      let out = nop_lem c in
      let leaves =
        exit-Reaches iter limit 10 iter_small limit_small (omega arith) code refl refl c in
      (step (sll 0 0 0) c, leaves (omega (tests, h)), (out.0 iter ∙ omega (arith, h)), out.1)
  rounds (suc n) c h word order word' low =
      let (up, same, down, down') = body_regs c in
      let go : (read c iter == read c limit) ≡ false = omega (tests, h) in
      let d : read (body iter dst src c) dst ≡ read c dst - 8 = omega (arith, down) in
      let s : read (body iter dst src c) src ≡ read c src - 8 = omega (arith, down') in
      let apart : (read c dst - 8) - (read c src - 8) ≡ read c dst - read c src = omega arith in
      let (c', r, there, mem') =
        rounds n (body iter dst src c) (omega (arith, up, same, h, word))
          (omega (arith, same, word)) (omega (arith, d, s)) (omega (arith, d)) (omega (arith, s)) in
      (
        c',
        Reaches-trans (round-Reaches c go) r,
        there ∙ same,
        λ a.
            mem' a
            ∙ rw (d, s, apart)
                (copied_next n (read c dst) (read c src) a c.mem ((body iter dst src c).mem) order
                  (omega arith) (λ x. body_mem c x order word' (omega arith))),
      )

  -- The loop that copies arguments and results, on the MIPS machine and over any four registers
  -- that are distinct, where the counter, the destination and the source are not zero, and none is
  -- the first temporary: it is translated and linked to words which the processor, from the first
  -- one, leaves at their end. Let the counter be `n` below the limit, a 32-bit value, and `n`
  -- values of 8 bytes have room below the source's address, which is not above the destination's.
  -- Then the counter has reached the limit, the `n` values from the destination downwards are those
  -- that were at the source, also where the two overlap, and every other word of the memory is as
  -- before.
  pub do_copying-Ends :
      (buffer : Emitter32 → ℕ) (t : JFuncs) (n : ℕ) (c : Cpu)
      → read c iter + n ≡ read c limit
      → read c limit < 2 ^ 32
      → read c src ≤ read c dst
      → read c dst < 2 ^ 32
      → 8 * n ≤ read c src
      → (words : List ℕ) × (copying_code buffer t iter limit dst src ≡ ok words)
        × (c' : Cpu) × Reaches words (at 0 c) (at (length words) c')
        × (read c' iter ≡ read c limit)
        × ((a : ℕ)
            → c'.mem a ≡ (
                if is_copied (read c dst) n a
                then c.mem (a - (read c dst - read c src))
                else c.mem a))
  do_copying-Ends buffer t n c h word order word' low =
      let (c', r, there, mem) = rounds n c h word order word' low in
      (code, copying_code_lem buffer t iter limit dst src, c', r, there, mem)
