-- ===== src/Lua/Moves/Places.antt =====
-- arch/mips/machine.c: what the code of a move does on the processor between the places where Lua
-- registers are.
use too_legit_to_jit.Common.{
  ℕ, ◌%◌, ◌^◌, ◌<◌, ◌≡◌, ◌≢◌, ◌∙◌, refl, sym, ap, Bool, true, false, some, List, [], ◌∷◌, ok,
  if◌then◌else◌, arith,
}
use too_legit_to_jit.Word.{add32, sext16}
use too_legit_to_jit.Operand.{Operand, reg, direct_addr, immed}
use too_legit_to_jit.Emitter.{Emitter32}
use too_legit_to_jit.Machine.{Machine}
use too_legit_to_jit.Temporaries.{
  acquire_temp, release_temp, refcount_at, acquire_slot, update_max, set_slot,
}
use too_legit_to_jit.Mips.Opcodes.{gen_mips_opcode_2reg, mi_sw}
use too_legit_to_jit.Mips.Isa.{Cpu, sw, lw, read, write, store, run, step}
use too_legit_to_jit.Mips.Encoding.{decode-mi}
use too_legit_to_jit.Mips.Move.{mips_mach, move, move_at, loadreg, emit}
use too_legit_to_jit.Mips.MoveLaws.{
  emit_all, value, sext16-low16, run-cons, address, Loads, IsSource, one-Loads, move-Loads,
}
use too_legit_to_jit.Mips.Compose.{run-append}
use too_legit_to_jit.Mips.Loop.{lw-IsPlain}

-- The machine with no temporary in use, after it was or was not used.
abbrev pub fresh : Bool → Machine
fresh used = if used then record mips_mach { max_access = 1 } else mips_mach

-- where a Lua register's value or type is: a register that is no temporary, or a slot of the frame
abbrev pub IsPlace : Operand → Type 0
IsPlace (reg r) = (r < 2 ^ 5) × (r ≢ 0) × (r ≢ 4) × (r ≢ 30)
IsPlace (direct_addr base offset) = (base ≡ 30) × (sext16 offset ≡ offset)
IsPlace (immed k) = ⊥

abbrev pub Copies : List ℕ → (d s : Operand) → Type 0
Copies ws d s =
    (c : Cpu)
    → (c' : Cpu) × (run ws c ≡ some c')
      × (value c' d ≡ value c s)
      × ((x : Operand) → IsPlace x → x ≢ d → value c' x ≡ value c x)

abbrev pub EmitsCopy : (d s : Operand) → Bool → Type 0
EmitsCopy d s used =
    (ws : List ℕ) × (used' : Bool) × ((e : Emitter32)
      → move d s (record { emitter = e; machine = fresh used })
        ≡ ok (tt, record { emitter = emit_all ws e; machine = fresh used' }))
    × Copies ws d s

IsPlace-IsSource : (s : Operand) → IsPlace s → IsSource s
IsPlace-IsSource (reg r) h = h.0
IsPlace-IsSource (direct_addr base offset) h = omega arith
IsPlace-IsSource (immed k) h = absurd h

-- a register takes a value, and no place else changes
Loads-Copies :
    (ws : List ℕ) (r : ℕ) (s : Operand) → r ≢ 30 → Loads ws r (λ c. value c s) → Copies ws (reg r) s
Loads-Copies ws r s h loads c =
    let (c', ran, here, there, mem) = loads c in (c', ran, here, kept c c' there mem)
  where
    kept :
        (c c' : Cpu)
        → ((x : ℕ) → x ≢ r → read c' x ≡ read c x)
        → ((a : ℕ) → c'.mem a ≡ c.mem a)
        → (x : Operand) → IsPlace x
        → x ≢ reg r
        → value c' x ≡ value c x
    kept c c' there mem (reg q) hx other = there q (λ e. other (ap reg e))
    kept c c' there mem (direct_addr base offset) (fp, _) other =
        let same : read c' base ≡ read c base = there base (λ e. h (sym e ∙ fp)) in
        mem (address c' base offset) ∙ ap (λ b. c.mem (add32 b (sext16 offset))) same
    kept c c' there mem (immed k) hx other = absurd hx

reg-EmitsCopy :
    (r : ℕ) (s : Operand) (used : Bool) → IsPlace (reg r) → IsPlace s → EmitsCopy (reg r) s used
reg-EmitsCopy r s used h h' =
    let (ws, emits, loads) = move-Loads r h.0 h.1 s (IsPlace-IsSource s h') in
    (
      ws,
      used,
      (λ e. emits (record { emitter = e; machine = fresh used })),
      Loads-Copies ws r s h.3 loads,
    )

store_lem :
    (c : Cpu) (a v : ℕ)
    → ((store c a v).mem a ≡ v)
      × ((b : ℕ) → b ≢ a → (store c a v).mem b ≡ c.mem b)
      × ((r : ℕ) → read (store c a v) r ≡ read c r)
unfolding store read
store_lem c a v = (ground arith, (λ b other. ground arith), λ r. refl)

sw-run :
    (r base offset : ℕ) (c : Cpu)
    → r < 2 ^ 5
    → base < 2 ^ 5
    → run (mi_sw r base offset ∷ []) c ≡ some (store c (address c base offset) (read c r))
unfolding step run
sw-run r base offset c h h' =
    run-cons (mi_sw r base offset) [] c (sw r base (offset % 2 ^ 16))
      (decode-mi r base 0 offset h h' (omega arith)).5
    ∙ ap (λ x. some (store c (add32 (read c base) x) (read c r))) (sext16-low16 offset)

-- two slots of the frame with one address are the same
address-injective :
    (c : Cpu) (base offset offset' : ℕ)
    → sext16 offset ≡ offset
    → sext16 offset' ≡ offset'
    → address c base offset ≡ address c base offset'
    → offset ≡ offset'
address-injective c base offset offset' h h' e =
    let less : sext16 offset < 2 ^ 32 = ground arith in
    let less' : sext16 offset' < 2 ^ 32 = ground arith in omega (arith, h, h', e, less, less')

-- a register `r`, which holds the value of `s`, is stored into a slot
store-Copies :
    (r offset : ℕ) (s : Operand) (c c₁ : Cpu)
    → read c₁ r ≡ value c s
    → ((x : Operand) → IsPlace x → value c₁ x ≡ value c x)
    → r < 2 ^ 5
    → sext16 offset ≡ offset
    → (c' : Cpu) × (run (mi_sw r 30 offset ∷ []) c₁ ≡ some c')
      × (value c' (direct_addr 30 offset) ≡ value c s)
      × ((x : Operand) → IsPlace x → x ≢ direct_addr 30 offset → value c' x ≡ value c x)
store-Copies r offset s c c₁ got same small word =
    let a = address c₁ 30 offset in
    let c' = store c₁ a (read c₁ r) in
    let (here, there, regs) = store_lem c₁ a (read c₁ r) in
    let fp : read c' 30 ≡ read c₁ 30 = regs 30 in
    (
      c',
      sw-run r 30 offset c₁ small (omega arith),
      ap (λ b. c'.mem (add32 b (sext16 offset))) fp ∙ here ∙ got,
      others here there regs,
    )
  where
    a : ℕ
    a = address c₁ 30 offset

    c' : Cpu
    c' = store c₁ a (read c₁ r)

    others :
        (c'.mem a ≡ read c₁ r)
        → ((b : ℕ) → b ≢ a → c'.mem b ≡ c₁.mem b)
        → ((q : ℕ) → read c' q ≡ read c₁ q)
        → (x : Operand) → IsPlace x
        → x ≢ direct_addr 30 offset
        → value c' x ≡ value c x
    others here there regs (reg q) h other = regs q ∙ same (reg q) h
    others here there regs (direct_addr base o) (fp, h) other =
        let first : address c' base o ≡ address c₁ base o =
          ap (λ b. add32 b (sext16 o)) (regs base) in
        let apart : address c₁ base o ≢ a = λ e. other (
          ap (λ b. direct_addr b o) fp
          ∙ ap (direct_addr 30)
              (address-injective c₁ 30 o offset h word (ap (λ b. address c₁ b o) (sym fp) ∙ e))) in
        ap (λ b. c'.mem b) first
        ∙ there (address c₁ base o) apart
        ∙ same (direct_addr base o) (fp, h)
    others here there regs (immed k) h other = absurd h

slot_reg-EmitsCopy :
    (offset r : ℕ) (used : Bool)
    → sext16 offset ≡ offset
    → IsPlace (reg r)
    → EmitsCopy (direct_addr 30 offset) (reg r) used
unfolding move move_at loadreg emit emit_all
slot_reg-EmitsCopy offset r used word h = (
  mi_sw r 30 offset ∷ [],
  used,
  (λ e. refl),
  λ c. store-Copies r offset (reg r) c c refl (λ x _. refl) h.0 word,
)

-- from slot to slot through the first temporary
slot_slot-Emits :
    (offset offset' : ℕ) (used : Bool) (e : Emitter32)
    → move
        (direct_addr 30 offset)
        (direct_addr 30 offset')
        (record { emitter = e; machine = fresh used })
      ≡ ok (
        tt,
        record {
          emitter = emit_all (gen_mips_opcode_2reg 35 30 4 offset' ∷ mi_sw 4 30 offset ∷ []) e;
          machine = fresh true;
        },
      )
unfolding move move_at loadreg emit emit_all acquire_temp release_temp refcount_at acquire_slot
    update_max set_slot
slot_slot-Emits offset offset' true e = refl
slot_slot-Emits offset offset' false e = refl

lw-Loads :
    (offset : ℕ)
    → Loads (gen_mips_opcode_2reg 35 30 4 offset ∷ []) 4 (λ c. value c (direct_addr 30 offset))
unfolding step
lw-Loads offset =
    one-Loads (gen_mips_opcode_2reg 35 30 4 offset) 4 (λ c. value c (direct_addr 30 offset))
      (lw 4 30 (offset % 2 ^ 16)) (lw-IsPlain 4 30 offset (omega arith) (omega arith)).1
      (λ c. ap (λ x. write c 4 (c.mem (add32 (read c 30) x))) (sext16-low16 offset))
      (λ e. omega arith)

slot_slot-EmitsCopy :
    (offset offset' : ℕ) (used : Bool)
    → sext16 offset ≡ offset
    → EmitsCopy (direct_addr 30 offset) (direct_addr 30 offset') used
slot_slot-EmitsCopy offset offset' used word = (
  gen_mips_opcode_2reg 35 30 4 offset' ∷ mi_sw 4 30 offset ∷ [],
  true,
  slot_slot-Emits offset offset' used,
  copies,
)
  where
    s : Operand
    s = direct_addr 30 offset'

    copies :
        Copies
          (gen_mips_opcode_2reg 35 30 4 offset' ∷ mi_sw 4 30 offset ∷ [])
          (direct_addr 30 offset)
          s
    copies c =
        let (c₁, ran, got, same) =
          Loads-Copies (gen_mips_opcode_2reg 35 30 4 offset' ∷ []) 4 s (λ e. omega arith)
            (lw-Loads offset') c in
        let (c', ran', here, others) =
          store-Copies 4 offset s c c₁ got (λ x h. same x h (not_temp x h)) (omega arith) word in
        (
          c',
          run-append (gen_mips_opcode_2reg 35 30 4 offset' ∷ []) (mi_sw 4 30 offset ∷ []) c
              ∙ rw ran ran',
          here,
          others,
        )
      where
        not_temp : (x : Operand) → IsPlace x → x ≢ reg 4
        not_temp (reg r) h e = h.2 (cc)
        not_temp (direct_addr base o) h e = cc
        not_temp (immed k) h e = h

pub place-EmitsCopy : (d s : Operand) (used : Bool) → IsPlace d → IsPlace s → EmitsCopy d s used
place-EmitsCopy (reg r) s used h h' = reg-EmitsCopy r s used h h'
place-EmitsCopy (direct_addr base o) (reg r) used (fp, word) h' =
    rw fp (slot_reg-EmitsCopy o r used word h')
place-EmitsCopy (direct_addr base o) (direct_addr base' o') used (fp, word) (fp', word') =
    rw (fp, fp') (slot_slot-EmitsCopy o o' used word)
place-EmitsCopy (direct_addr base o) (immed k) used h h' = absurd h'
place-EmitsCopy (immed k) s used h h' = absurd h
