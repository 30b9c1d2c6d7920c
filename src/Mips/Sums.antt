-- ===== src/Mips/Sums.antt =====
-- What the words of `mips_add` and `mips_sub` do when the processor runs them.
use too_legit_to_jit.Common.{
  ℕ, ◌%◌, ◌^◌, ◌<◌, ◌≡◌, ◌≢◌, refl, inl, inr, Bool-cases, true, false, ◌==◌, List, [], ◌∷◌, arith,
  tests, ◌∙◌,
}
use too_legit_to_jit.Word.{add32, sub32, neg32, sext16}
use too_legit_to_jit.Operand.{Operand, reg, direct_addr, immed, iso_reg, iso_immed, op_target_immed}
use too_legit_to_jit.Temporaries.{release_tempn}
use too_legit_to_jit.Mips.Opcodes.{mi_addiu, mi_addu, mi_subu}
use too_legit_to_jit.Mips.Isa.{Cpu, addiu, addu, subu, read, step}
use too_legit_to_jit.Mips.Encoding.{decode-mi}
use too_legit_to_jit.Mips.Move.{emit}
use too_legit_to_jit.Mips.MoveLaws.{emit_all, value, Loads, one-Loads, Emits, read-zero}
use too_legit_to_jit.Mips.Arithmetic.{
  is_add_immed, is_sub_immed, sub_zero_reg, load_source, acquire_reg, release_reg, do_nonimm_bop,
  validate_operands, do_add_valid, do_add, mips_add, mips_sub,
}

-- A register, or a word that fits the immediate of `addiu`.
abbrev pub IsSimple : Operand → Type 0
IsSimple (reg r) = r < 2 ^ 5
IsSimple (direct_addr base offset) = ⊥
IsSimple (immed k) = (k < 2 ^ 32) × (is_add_immed (immed k) ≡ true)

abbrev pub IsSubtrahend : Operand → Type 0
IsSubtrahend (reg r) = r < 2 ^ 5
IsSubtrahend (direct_addr base offset) = ⊥
IsSubtrahend (immed k) = (k < 2 ^ 32) × (is_add_immed (immed (neg32 k)) ≡ true)

Loads-ext :
    (ws : List ℕ) (r : ℕ) (v v' : Cpu → ℕ) → ((c : Cpu) → v c ≡ v' c) → Loads ws r v → Loads ws r v'
Loads-ext ws r v v' same l c =
    let (c', ran, here, there, mem) = l c in (c', ran, here ∙ same c, there, mem)

module _ (d : ℕ) (small : d < 2 ^ 5) (pos : d ≢ 0) where
  addu-Loads :
      (s t : ℕ)
      → s < 2 ^ 5
      → t < 2 ^ 5
      → Loads (mi_addu d s t ∷ []) d (λ c. add32 (read c s) (read c t))
  unfolding step
  addu-Loads s t h h' =
      one-Loads (mi_addu d s t) d (λ c. add32 (read c s) (read c t)) (addu d s t)
        (decode-mi d s t 0 small h h').0 (λ c. refl) pos

  subu-Loads :
      (s t : ℕ)
      → s < 2 ^ 5
      → t < 2 ^ 5
      → Loads (mi_subu d s t ∷ []) d (λ c. sub32 (read c s) (read c t))
  unfolding step
  subu-Loads s t h h' =
      one-Loads (mi_subu d s t) d (λ c. sub32 (read c s) (read c t)) (subu d s t)
        (decode-mi d s t 0 small h h').1 (λ c. refl) pos

  pub sext16-immediate :
      (k : ℕ) → k < 2 ^ 32 → is_add_immed (immed k) ≡ true → sext16 (k % 2 ^ 16) ≡ k
  unfolding is_add_immed
  sext16-immediate k h fits = ground arith

  addiu-Loads :
      (s k : ℕ)
      → s < 2 ^ 5
      → k < 2 ^ 32
      → is_add_immed (immed k) ≡ true
      → Loads (mi_addiu d s k ∷ []) d (λ c. add32 (read c s) k)
  unfolding step
  addiu-Loads s k h word fits =
      one-Loads (mi_addiu d s k) d (λ c. add32 (read c s) k) (addiu d s (k % 2 ^ 16))
        (decode-mi d s 0 k small h (omega arith)).3 (λ c. rw (sext16-immediate k word fits)) pos

  -- the emission for two operands that need no temporary
  add_regs-Emits : (s t : ℕ) → Emits (mips_add (reg d) (reg s) (reg t)) (mi_addu d s t ∷ [])
  unfolding mips_add do_add validate_operands do_add_valid acquire_reg load_source release_reg
      release_tempn is_add_immed sub_zero_reg iso_reg iso_immed emit emit_all
  add_regs-Emits s t j = refl

  add_zero-Emits : (s : ℕ) → Emits (mips_add (reg d) (reg s) (immed 0)) (mi_addu d s 0 ∷ [])
  unfolding mips_add do_add validate_operands do_add_valid acquire_reg load_source release_reg
      release_tempn is_add_immed sub_zero_reg iso_reg iso_immed emit emit_all
  add_zero-Emits s j = refl

  zero_add-Emits : (s : ℕ) → Emits (mips_add (reg d) (immed 0) (reg s)) (mi_addu d 0 s ∷ [])
  unfolding mips_add do_add validate_operands do_add_valid acquire_reg load_source release_reg
      release_tempn is_add_immed sub_zero_reg iso_reg iso_immed emit emit_all
  zero_add-Emits s j = refl

  sub_zero-Emits : (s : ℕ) → Emits (mips_sub (reg d) (reg s) (immed 0)) (mi_subu d s 0 ∷ [])
  unfolding mips_sub validate_operands do_nonimm_bop acquire_reg load_source release_reg
      release_tempn is_add_immed is_sub_immed sub_zero_reg iso_reg iso_immed emit emit_all mi_subu
  sub_zero-Emits s j = refl

  pub add_immediate-Emits :
      (s k : ℕ)
      → (k == 0) ≡ false
      → is_add_immed (immed k) ≡ true
      → Emits (mips_add (reg d) (reg s) (immed k)) (mi_addiu d s k ∷ [])
  unfolding mips_add do_add validate_operands do_add_valid acquire_reg load_source release_reg
      release_tempn is_add_immed sub_zero_reg iso_reg iso_immed emit emit_all
  add_immediate-Emits s k some fits j = rw (some, fits)

  immediate_add-Emits :
      (k t : ℕ)
      → (k == 0) ≡ false
      → is_add_immed (immed k) ≡ true
      → Emits (mips_add (reg d) (immed k) (reg t)) (mi_addiu d t k ∷ [])
  unfolding mips_add do_add validate_operands do_add_valid acquire_reg load_source release_reg
      release_tempn is_add_immed sub_zero_reg iso_reg iso_immed emit emit_all
  immediate_add-Emits k t some fits j = simp (some, fits)

  sub_regs-Emits : (s t : ℕ) → Emits (mips_sub (reg d) (reg s) (reg t)) (mi_subu d s t ∷ [])
  unfolding mips_sub validate_operands do_nonimm_bop acquire_reg load_source release_reg
      release_tempn is_add_immed is_sub_immed sub_zero_reg iso_reg iso_immed emit emit_all mi_subu
  sub_regs-Emits s t j = refl

  pub sub_immediate-Emits :
      (s k : ℕ)
      → (k == 0) ≡ false
      → k < 2 ^ 32
      → is_add_immed (immed (neg32 k)) ≡ true
      → Emits (mips_sub (reg d) (reg s) (immed k)) (mi_addiu d s (neg32 k) ∷ [])
  unfolding mips_sub mips_add validate_operands is_sub_immed sub_zero_reg iso_reg iso_immed
      op_target_immed
  sub_immediate-Emits s k some word fits j =
      let still : (neg32 k == 0) ≡ false = omega (tests, some) in
      rw some (rw fits (add_immediate-Emits s (neg32 k) still fits j))

  -- For a destination that is no zero register and a register below 32, with the other operand a
  -- register or a word that fits the instruction's immediate, `mips_add` emits words that put the
  -- sum of the two values into the destination, modulo 2 ^ 32, and change nothing else. The
  -- operands stand in either order.
  pub mips_add-Loads :
      (s : ℕ) (t : Operand)
      → s < 2 ^ 5
      → IsSimple t
      → ((ws : List ℕ) × Emits (mips_add (reg d) (reg s) t) ws
          × Loads ws d (λ c. add32 (read c s) (value c t)))
        × ((ws : List ℕ) × Emits (mips_add (reg d) t (reg s)) ws
            × Loads ws d (λ c. add32 (value c t) (read c s)))
  mips_add-Loads s (reg t) h h' = (
    (mi_addu d s t ∷ [], add_regs-Emits s t, addu-Loads s t h h'),
    (mi_addu d t s ∷ [], add_regs-Emits t s, addu-Loads t s h' h),
  )
  mips_add-Loads s (direct_addr base offset) h h' = elim h' [ ]
  mips_add-Loads s (immed k) h (word, fits) = elim (Bool-cases (k == 0)) [
    | inl y ↦
        let e : k ≡ 0 = omega tests in
        rw e (
          (
            mi_addu d s 0 ∷ [],
            add_zero-Emits s,
            Loads-ext (mi_addu d s 0 ∷ []) d (λ c. add32 (read c s) (read c 0))
                (λ c. add32 (read c s) 0) (λ c. rw (read-zero c)) (addu-Loads s 0 h (omega arith)),
          ),
          (
            mi_addu d 0 s ∷ [],
            zero_add-Emits s,
            Loads-ext (mi_addu d 0 s ∷ []) d (λ c. add32 (read c 0) (read c s))
                (λ c. add32 0 (read c s)) (λ c. rw (read-zero c)) (addu-Loads 0 s (omega arith) h),
          ),
        )
    | inr some ↦ (
      (mi_addiu d s k ∷ [], add_immediate-Emits s k some fits, addiu-Loads s k h word fits),
      (
        mi_addiu d s k ∷ [],
        immediate_add-Emits k s some fits,
        Loads-ext (mi_addiu d s k ∷ []) d (λ c. add32 (read c s) k) (λ c. add32 k (read c s))
            (λ c. omega arith) (addiu-Loads s k h word fits),
      ),
    )
  ]

  -- For a destination that is no zero register and a register below 32, with the other operand a
  -- register or a word whose negative fits the immediate of `addiu`, `mips_sub` emits words that
  -- put the difference of the two values into the destination, modulo 2 ^ 32, and change nothing
  -- else.
  pub mips_sub-Loads :
      (s : ℕ) (t : Operand)
      → s < 2 ^ 5
      → IsSubtrahend t
      → (ws : List ℕ) × Emits (mips_sub (reg d) (reg s) t) ws
        × Loads ws d (λ c. sub32 (read c s) (value c t))
  mips_sub-Loads s (reg t) h h' = (mi_subu d s t ∷ [], sub_regs-Emits s t, subu-Loads s t h h')
  mips_sub-Loads s (direct_addr base offset) h h' = elim h' [ ]
  mips_sub-Loads s (immed k) h (word, fits) = elim (Bool-cases (k == 0)) [
    | inl y ↦
        let e : k ≡ 0 = omega tests in
        rw e (
          mi_subu d s 0 ∷ [],
          sub_zero-Emits s,
          Loads-ext (mi_subu d s 0 ∷ []) d (λ c. sub32 (read c s) (read c 0))
              (λ c. sub32 (read c s) 0) (λ c. rw (read-zero c)) (subu-Loads s 0 h (omega arith)),
        )
    | inr some ↦ (
      mi_addiu d s (neg32 k) ∷ [],
      sub_immediate-Emits s k some word fits,
      Loads-ext (mi_addiu d s (neg32 k) ∷ []) d (λ c. add32 (read c s) (neg32 k))
          (λ c. sub32 (read c s) k) (λ c. omega arith)
          (addiu-Loads s (neg32 k) h (omega arith) fits),
    )
  ]
