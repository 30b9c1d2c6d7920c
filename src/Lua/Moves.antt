-- ===== src/Lua/Moves.antt =====
-- instruction.c: what the code of OP_MOVE does to the Lua registers when the processor runs it.
mod Places
use too_legit_to_jit.Common.{
  ltb, not, ◌&&◌, get_or, ℕ, ◌+◌, ◌*◌, ◌<◌, ◌≡◌, ◌≢◌, ◌∙◌, refl, sym, inl, inr, Bool, true, false,
  Bool-cases, some, List, ◌++◌, Result, ok, and_then, ◌==◌, leb, arith,
}
use too_legit_to_jit.Word.{sext16}
use too_legit_to_jit.Operand.{Operand, reg, VregOperand}
use too_legit_to_jit.Emitter.{Emitter32}
use too_legit_to_jit.Machine.{Jit, Frame}
use too_legit_to_jit.Mips.Isa.{Cpu, run}
use too_legit_to_jit.Mips.Move.{mips_mach, move}
use too_legit_to_jit.Mips.MoveLaws.{emit_all, value}
use too_legit_to_jit.Mips.Compose.{run-append, emit_all-append}
use too_legit_to_jit.Frame.{
  nr_spare_regs, pslot_to_operand, slot_offset, vreg_to_operand, llocal_to_operand,
  loperand_to_operand,
}
use too_legit_to_jit.Jitfunc.{JFuncs}
use too_legit_to_jit.Synthetic.{assign}
use too_legit_to_jit.Mips.Jfunc.{mips_ops}
use too_legit_to_jit.Mips.Assign.{all_below-lt}
use too_legit_to_jit.Lua.Instruction.{local_at, emit_move}
use too_legit_to_jit.Frame.Slots.{place, pslot_to_operand-place}
use too_legit_to_jit.Lua.Moves.Places.{fresh, IsPlace, place-EmitsCopy}

-- where the slot `p` is on the MIPS machine
abbrev pub home : ℕ → Operand
home p = place mips_mach p false

abbrev is_spare : ℕ → Bool
is_spare r = ltb r 32 && (not (r == 0) && (not (r == 4) && not (r == 30)))

is_spare-IsPlace : (r : ℕ) → is_spare r ≡ true → IsPlace (reg r)
is_spare-IsPlace r h = (ground arith, (λ e. ground arith), (λ e. ground arith), λ e. ground arith)

spare_regs_lem : (p : ℕ) → p < 18 → IsPlace (reg (get_or mips_mach.reg (4 + p) 0))
spare_regs_lem p h =
    is_spare-IsPlace (get_or mips_mach.reg (4 + p) 0)
      (all_below-lt 18 (λ q. is_spare (get_or mips_mach.reg (4 + q) 0)) p refl h)

sext16-sext16 : (x : ℕ) → sext16 (sext16 x) ≡ sext16 x
sext16-sext16 x = ground arith

home-IsPlace : (p : ℕ) → IsPlace (home p)
unfolding nr_spare_regs
home-IsPlace p = elim (Bool-cases (leb 18 p)) [
  | inl y ↦ rw y (refl, sext16-sext16 (slot_offset p))
  | inr n ↦ rw n (spare_regs_lem p (ground arith))
]

homes : ℕ → VregOperand
homes l = record { value = home (l * 2); type = home (l * 2 + 1) }

both_found :
    (a b : Result Operand) (v t : Operand)
    → a ≡ ok v
    → b ≡ ok t
    → ◌≡◌ {A = Result VregOperand}
        (and_then a λ value. and_then b λ type. ok (record { value = value; type = type }))
        (ok (record { value = v; type = t }))
both_found a b v t h h' = rw (h, h') refl

loperand_to_operand-homes :
    (f : Frame) (l : ℕ) → loperand_to_operand mips_mach f (local_at l) ≡ ok (homes l)
unfolding loperand_to_operand llocal_to_operand vreg_to_operand homes
loperand_to_operand-homes f l =
    both_found (pslot_to_operand mips_mach (l * 2) false)
      (pslot_to_operand mips_mach (l * 2 + 1) false) (home (l * 2)) (home (l * 2 + 1))
      (pslot_to_operand-place mips_mach (l * 2) false (omega arith))
      (pslot_to_operand-place mips_mach (l * 2 + 1) false (omega arith))

-- the words of a move between Lua registers, and what they leave
abbrev pub Moved : (ws : List ℕ) → (d s : ℕ) → Cpu → Cpu → Type 0
Moved ws d s c c' =
    (run ws c ≡ some c')
    × (value c' (home (d * 2)) ≡ value c (home (s * 2)))
    × (value c' (home (d * 2 + 1)) ≡ value c (home (s * 2 + 1)))

-- OP_MOVE on the MIPS machine with no temporary in use emits words that copy the value and the type
-- of one Lua register to those of another, wherever the four are, in registers or in the frame, and
-- leave the value or the type of a third register as it is. The destination's value does not share
-- its place with its own type nor with the source's type, and the third one shares neither of the
-- destination's places.
pub emit_move-Moved :
    (buffer : Emitter32 → ℕ) (t : JFuncs) (f : Frame) (e : Emitter32) (d s p : ℕ) (c : Cpu)
    → home (d * 2 + 1) ≢ home (d * 2)
    → home (s * 2 + 1) ≢ home (d * 2)
    → home p ≢ home (d * 2)
    → home p ≢ home (d * 2 + 1)
    → (ws : List ℕ) × (j : Jit) × (emit_move
          (mips_ops buffer t)
          f
          (local_at d)
          (local_at s)
          (record { emitter = e; machine = mips_mach })
        ≡ ok (tt, j))
      × (j.emitter ≡ emit_all ws e)
      × (c' : Cpu) × Moved ws d s c c'
      × (value c' (home p) ≡ value c (home p))
unfolding emit_move mips_ops assign homes
emit_move-Moved buffer t f e d s p c own type other other' =
    let (ws, used, emits, copies) =
      place-EmitsCopy (home (d * 2)) (home (s * 2)) false (home-IsPlace (d * 2))
        (home-IsPlace (s * 2)) in
    let (ws', used', emits', copies') =
      place-EmitsCopy (home (d * 2 + 1)) (home (s * 2 + 1)) used (home-IsPlace (d * 2 + 1))
        (home-IsPlace (s * 2 + 1)) in
    let (c₁, ran, got, same) = copies c in
    let (c₂, ran', got', same') = copies' c₁ in
    (
      ws ++ ws',
      record { emitter = emit_all ws' (emit_all ws e); machine = fresh used' },
      rw (loperand_to_operand-homes f d, loperand_to_operand-homes f s, emits e)
          (emits' (emit_all ws e)),
      sym (emit_all-append ws ws' e),
      c₂,
      (
        run-append ws ws' c ∙ rw ran ran',
        same' (home (d * 2)) (home-IsPlace (d * 2)) (λ q. own (sym q)) ∙ got,
        got' ∙ same (home (s * 2 + 1)) (home-IsPlace (s * 2 + 1)) type,
      ),
      same' (home p) (home-IsPlace p) other' ∙ same (home p) (home-IsPlace p) other,
    )
