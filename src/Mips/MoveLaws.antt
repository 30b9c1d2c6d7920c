-- ===== src/Mips/MoveLaws.antt =====
-- What the words of `move` do when the processor runs them.
use Prim.Native.Nat.{bit_or}
use too_legit_to_jit.Common.{
  ℕ, ◌-◌, ◌*◌, ◌/◌, ◌%◌, ◌^◌, ◌≤◌, ◌<◌, ◌≡◌, ◌≢◌, refl, inl, inr, Bool-cases, true, false, some,
  List, [], ◌∷◌, ltb, leb, ok, arith, tests, ap, ◌∙◌,
}
use too_legit_to_jit.Word.{add32, sext16, low16, is_negative}
use too_legit_to_jit.Word.Bits.{bit_or-disjoint, bit_or-zero}
use too_legit_to_jit.Operand.{Operand, reg, direct_addr, immed, iso_reg}
use too_legit_to_jit.Emitter.{Emitter32, encode_op}
use too_legit_to_jit.Machine.{Jit, Emit}
use too_legit_to_jit.Temporaries.Acquire.{OnlyEmits}
use too_legit_to_jit.Mips.Opcodes.{gen_mips_opcode_2reg, gen_mips_opcode_3reg, mi_sw}
use too_legit_to_jit.Mips.Isa.{Cpu, Insn, addiu, ori, lui, lw, or, read, write, step, run, decode}
use too_legit_to_jit.Mips.Encoding.{decode-2reg, decode-3reg}
use too_legit_to_jit.Mips.Move.{emit, load_bigim, fits_one, loadim, loadreg, move_at, move}

-- the words `ws` behind the code of an emitter
unfoldable pub emit_all : List ℕ → Emitter32 → Emitter32
emit_all [] e = e
emit_all (w ∷ ws) e = emit_all ws (encode_op e w)

-- the address of a stack slot, and the value of an operand
abbrev pub address : Cpu → ℕ → ℕ → ℕ
address c base offset = add32 (read c base) (sext16 offset)

abbrev pub value : Cpu → Operand → ℕ
value c (reg r) = read c r
value c (direct_addr base offset) = c.mem (address c base offset)
value c (immed k) = k

-- Registers are below 32, and a destination is not the zero register; an immediate is a word.
abbrev pub IsSource : Operand → Type 0
IsSource (reg r) = r < 2 ^ 5
IsSource (direct_addr base offset) = base < 2 ^ 5
IsSource (immed k) = k < 2 ^ 32

-- The words `ws` put the value `v` into register `r` and change nothing else.
abbrev pub Loads : List ℕ → ℕ → (Cpu → ℕ) → Type 0
Loads ws r v =
    (c : Cpu)
    → (c' : Cpu) × (run ws c ≡ some c')
      × (read c' r ≡ v c)
      × ((x : ℕ) → x ≢ r → read c' x ≡ read c x)
      × ((a : ℕ) → c'.mem a ≡ c.mem a)

pub read-write : (c : Cpu) (r v : ℕ) → r ≢ 0 → read (write c r v) r ≡ v
unfolding read write
read-write c r v h = ground arith

pub read-write_ne : (c : Cpu) (r v x : ℕ) → x ≢ r → read (write c r v) x ≡ read c x
unfolding read write
read-write_ne c r v x h = ground arith

pub mem-write : (c : Cpu) (r v a : ℕ) → (write c r v).mem a ≡ c.mem a
unfolding write
mem-write c r v a = refl

pub read-zero : (c : Cpu) → read c 0 ≡ 0
unfolding read
read-zero c = refl

pub run-cons :
    (w : ℕ) (ws : List ℕ) (c : Cpu) (i : Insn)
    → decode w ≡ some i
    → run (w ∷ ws) c ≡ run ws (step i c)
unfolding run
run-cons w ws c i d = rw (d, run)

pub one-Loads :
    (w r : ℕ) (v : Cpu → ℕ) (i : Insn)
    → decode w ≡ some i
    → ((c : Cpu) → step i c ≡ write c r (v c))
    → r ≢ 0
    → Loads (w ∷ []) r v
unfolding run
one-Loads w r v i d s pos c = (
  write c r (v c),
  run-cons w [] c i d ∙ ap (λ x. some x) (s c),
  read-write c r (v c) pos,
  (λ x ne. read-write_ne c r (v c) x ne),
  λ a. mem-write c r (v c) a,
)

-- A second load of the same register, of a value that is made from the first.
two-Loads :
    (w w' r : ℕ) (u : ℕ) (v : ℕ) (i i' : Insn)
    → decode w ≡ some i
    → decode w' ≡ some i'
    → ((c : Cpu) → step i c ≡ write c r u)
    → ((c : Cpu) → read c r ≡ u → step i' c ≡ write c r v)
    → r ≢ 0
    → Loads (w ∷ w' ∷ []) r (λ c. v)
unfolding run
two-Loads w w' r u v i i' d d' s s' pos c =
    let c₁ = write c r u in
    (
      write c₁ r v,
      run-cons w (w' ∷ []) c i d
          ∙ rw (s c) (run-cons w' [] c₁ i' d' ∙ ap (λ x. some x) (s' c₁ (read-write c r u pos))),
      read-write c₁ r v pos,
      (λ x ne. read-write_ne c₁ r v x ne ∙ read-write_ne c r u x ne),
      λ a. mem-write c₁ r v a ∙ mem-write c r u a,
    )

-- what a function of the translator does that only emits code
abbrev pub Emits : Emit (Unit {0}) → List ℕ → Type 0
Emits f ws = (j : Jit) → f j ≡ ok (tt, record j { emitter = emit_all ws (j.emitter) })

sext16_small : (k : ℕ) → k < 2 ^ 32 → 2 ^ 32 - 32768 ≤ k → add32 0 (sext16 (k % 2 ^ 16)) ≡ k
sext16_small k h h' = ground arith

pub sext16-low16 : (k : ℕ) → sext16 (k % 2 ^ 16) ≡ sext16 k
sext16-low16 k = ground arith

or-zero-left : (k : ℕ) → k < 2 ^ 16 → bit_or 0 (k % 2 ^ 16) ≡ k
or-zero-left k h =
    let e : k % 2 ^ 16 ≡ k = omega arith in rw e (bit_or-disjoint 16 0 k h ∙ omega arith)

module _ (r : ℕ) (small : r < 2 ^ 5) (pos : r ≢ 0) where
  addiu-Loads :
      (k : ℕ)
      → k < 2 ^ 32
      → 2 ^ 32 - 32768 ≤ k
      → Loads (gen_mips_opcode_2reg 9 0 r k ∷ []) r (λ _. k)
  unfolding step
  addiu-Loads k h h' =
      one-Loads (gen_mips_opcode_2reg 9 0 r k) r (λ _. k) (addiu r 0 (k % 2 ^ 16))
        (decode-2reg 9 0 r k (omega arith) (omega arith) small).3
        (λ c. rw (read-zero c, sext16_small k h h')) pos

  ori-Loads : (k : ℕ) → k < 2 ^ 16 → Loads (gen_mips_opcode_2reg 13 0 r k ∷ []) r (λ _. k)
  unfolding step
  ori-Loads k h =
      one-Loads (gen_mips_opcode_2reg 13 0 r k) r (λ _. k) (ori r 0 (k % 2 ^ 16))
        (decode-2reg 13 0 r k (omega arith) (omega arith) small).3
        (λ c. rw (read-zero c, or-zero-left k h)) pos

  big-Loads :
      (k : ℕ)
      → k < 2 ^ 32
      → Loads
          (gen_mips_opcode_2reg 15 0 r (low16 (k / 2 ^ 16))
            ∷ gen_mips_opcode_2reg 13 r r (low16 k)
            ∷ [])
          r
          (λ _. k)
  unfolding step
  big-Loads k h =
      let high : k / 2 ^ 16 % 2 ^ 16 % 2 ^ 16 * 2 ^ 16 % 2 ^ 32 ≡ k / 2 ^ 16 * 2 ^ 16 =
        omega arith in
      let low : k % 2 ^ 16 % 2 ^ 16 ≡ k % 2 ^ 16 = omega arith in
      let both : bit_or (k / 2 ^ 16 * 2 ^ 16) (k % 2 ^ 16) ≡ k =
        bit_or-disjoint 16 (k / 2 ^ 16) (k % 2 ^ 16) (omega arith) ∙ omega arith in
      two-Loads (gen_mips_opcode_2reg 15 0 r (low16 (k / 2 ^ 16)))
        (gen_mips_opcode_2reg 13 r r (low16 k)) r (k / 2 ^ 16 * 2 ^ 16) k
        (lui r (low16 (k / 2 ^ 16) % 2 ^ 16)) (ori r r (low16 k % 2 ^ 16))
        (decode-2reg 15 0 r (low16 (k / 2 ^ 16)) (omega arith) (omega arith) small).3
        (decode-2reg 13 r r (low16 k) (omega arith) small small).3 (λ c. rw high)
        (λ c e. rw (e, low, both)) pos

  -- The three ways of loading an immediate give its value.
  loadim-Loads : (k : ℕ) → k < 2 ^ 32 → (ws : List ℕ) × Emits (loadim r k) ws × Loads ws r (λ _. k)
  unfolding loadim fits_one load_bigim emit emit_all
  loadim-Loads k h = elim (Bool-cases (ltb k 65536)) [
    | inl short ↦
        let sign : is_negative k ≡ false = omega tests in
        (gen_mips_opcode_2reg 13 0 r k ∷ [], (λ j. rw (short, sign)), ori-Loads k (omega tests))
    | inr long ↦ elim (Bool-cases (leb (2 ^ 32 - 32768) k)) [
      | inl negative ↦
          let sign : is_negative k ≡ true = ground arith in
          (
            gen_mips_opcode_2reg 9 0 r k ∷ [],
            (λ j. rw (long, negative, sign)),
            addiu-Loads k h (ground arith),
          )
      | inr big ↦ (
        gen_mips_opcode_2reg 15 0 r (low16 (k / 2 ^ 16))
            ∷ gen_mips_opcode_2reg 13 r r (low16 k)
            ∷ [],
        (λ j. rw (long, big)),
        big-Loads k h,
      )
    ]
  ]

  -- A move into a register emits words that put the value of the source there and change nothing
  -- else, whichever kind of source it is. The destination is no zero register, registers are below
  -- 32, and an immediate is below 2 ^ 32.
  pub move-Loads :
      (s : Operand)
      → IsSource s
      → (ws : List ℕ) × Emits (move (reg r) s) ws × Loads ws r (λ c. value c s)
  unfolding move move_at loadreg iso_reg emit emit_all step
  move-Loads (immed k) h = loadim-Loads k h
  move-Loads (direct_addr base offset) h = (
    gen_mips_opcode_2reg 35 base r offset ∷ [],
    (λ j. refl),
    one-Loads (gen_mips_opcode_2reg 35 base r offset) r (λ c. value c (direct_addr base offset))
        (lw r base (offset % 2 ^ 16)) (decode-2reg 35 base r offset (omega arith) h small).3
        (λ c. ap (λ x. write c r (c.mem (add32 (read c base) x))) (sext16-low16 offset)) pos,
  )
  move-Loads (reg s) h = (
    gen_mips_opcode_3reg 0 s 0 r 37 ∷ [],
    (λ j. refl),
    one-Loads (gen_mips_opcode_3reg 0 s 0 r 37) r (λ c. read c s) (or r s 0)
        (decode-3reg 0 s 0 r 37 (omega arith) h (omega arith) small (omega arith)).1
        (λ c. rw (read-zero c, bit_or-zero)) pos,
  )

-- `move` between a register and the stack only emits code, so that the temporaries can spill by it.
pub move-OnlyEmits : OnlyEmits move
unfolding move move_at loadreg iso_reg emit
move-OnlyEmits = record {
  spills = λ b o r j. (encode_op (j.emitter) (mi_sw r b o), refl);
  fills = λ b o r j. (encode_op (j.emitter) (gen_mips_opcode_2reg 35 b r o), refl);
}
