-- ===== src/Stack/Sections/Words.antt =====
-- stack.c on the MIPS machine: the words of `x_frame`, one for each register that is transferred.
use too_legit_to_jit.Common.{
  ℕ, zero, suc, ◌+◌, ◌*◌, ◌≤◌, ◌≡◌, ◌∙◌, refl, sym, ap, Bool, true, false, not, List, [], ◌∷◌, ◌++◌,
  length, length-append, leb, if◌then◌else◌, Bool-cases, inl, inr, get_or, ok, and_then, arith,
}
use too_legit_to_jit.Word.{sext16}
use too_legit_to_jit.Operand.{iso_reg}
use too_legit_to_jit.Emitter.{Emitter32}
use too_legit_to_jit.Machine.{Machine, Emit, pure, ◌>>=◌}
use too_legit_to_jit.Frame.{nr_spare_regs, slot_offset, vreg_to_operand}
use too_legit_to_jit.Frame.Slots.{place, pslot_to_operand-place}
use too_legit_to_jit.Jitfunc.{JFuncs}
use too_legit_to_jit.Stack.{x_slot, x_frame}
use too_legit_to_jit.Mips.Opcodes.{gen_mips_opcode_2reg, mi_sw, mop_lw}
use too_legit_to_jit.Mips.Move.{emit, move, move_at, loadreg}
use too_legit_to_jit.Mips.MoveLaws.{emit_all}
use too_legit_to_jit.Mips.Compose.{emit_all-append}
use too_legit_to_jit.Mips.Jfunc.{mips_ops}

-- the word that stores or loads the register of a slot
abbrev slot_word : Machine → (isstore : Bool) → (p : ℕ) → ℕ
slot_word m isstore p =
    let r = get_or m.reg (m.nr_temp_regs + p) 0 in
    let off = sext16 (slot_offset p) in
    if isstore then mi_sw r m.fp off else gen_mips_opcode_2reg mop_lw m.fp r off

-- the words for a slot, none where it has no register
abbrev pub slot_words : Machine → (isstore : Bool) → (p : ℕ) → List ℕ
slot_words m isstore p = if leb (nr_spare_regs m) p then [] else slot_word m isstore p ∷ []

-- the words for `n` Lua registers from `off` on, the last one first
abbrev pub frame_words : Machine → (isstore : Bool) → (off n : ℕ) → List ℕ
frame_words m isstore off zero = []
frame_words m isstore off (suc n) =
    slot_words m isstore ((off + n) * 2)
    ++ (slot_words m isstore ((off + n) * 2 + 1) ++ frame_words m isstore off n)

vreg_to_operand-place :
    (m : Machine) (v : ℕ) (stackonly : Bool)
    → m.nr_reg ≤ length m.reg
    → vreg_to_operand m v stackonly
      ≡ ok (record { value = place m (v * 2) stackonly; type = place m (v * 2 + 1) stackonly })
unfolding vreg_to_operand
vreg_to_operand-place m v stackonly h =
    rw
      (
        pslot_to_operand-place m (v * 2) stackonly h,
        pslot_to_operand-place m (v * 2 + 1) stackonly h,
      )
      refl

module _ (buffer : Emitter32 → ℕ) (t : JFuncs) where
  -- what a function does that emits the words and returns how many they are
  abbrev pub Counts : Emit ℕ → Machine → List ℕ → Type 0
  Counts f m ws =
      (e : Emitter32)
      → f (record { emitter = e; machine = m })
        ≡ ok (length ws, record { emitter = emit_all ws e; machine = m })

  x_slot-words :
      (m : Machine) (isstore : Bool) (p : ℕ)
      → Counts
          (x_slot (mips_ops buffer t) (place m p isstore) (place m p (not isstore)))
          m
          (slot_words m isstore p)
  unfolding x_slot mips_ops move move_at loadreg iso_reg emit emit_all
  x_slot-words m true p e = elim (Bool-cases (leb (nr_spare_regs m) p)) [
    | inl y ↦ rw y refl
    | inr n ↦ rw n refl
  ]
  x_slot-words m false p e = elim (Bool-cases (leb (nr_spare_regs m) p)) [
    | inl y ↦ rw y refl
    | inr n ↦ rw n refl
  ]

  three-Counts :
      (f₁ f₂ f₃ : Emit ℕ) (m : Machine) (xs bs cs : List ℕ)
      → Counts f₁ m xs
      → Counts f₂ m bs
      → Counts f₃ m cs
      → Counts (f₁ >>= λ a. f₂ >>= λ b. f₃ >>= λ rest. pure (a + b + rest)) m (xs ++ (bs ++ cs))
  three-Counts f₁ f₂ f₃ m xs bs cs h₁ h₂ h₃ e =
      let count : length xs + length bs + length cs ≡ length (xs ++ (bs ++ cs)) =
        omega (arith, length-append xs (bs ++ cs), length-append bs cs) in
      let words : emit_all cs (emit_all bs (emit_all xs e)) ≡ emit_all (xs ++ (bs ++ cs)) e =
        sym (emit_all-append xs (bs ++ cs) e ∙ emit_all-append bs cs (emit_all xs e)) in
      ap (λ r. and_then r λ x. (f₂ >>= λ b. f₃ >>= λ rest. pure (x.0 + b + rest)) x.1) (h₁ e)
      ∙ ap (λ r. and_then r λ x. (f₃ >>= λ rest. pure (length xs + x.0 + rest)) x.1)
          (h₂ (emit_all xs e))
      ∙ ap (λ r. and_then r λ x. pure (length xs + length bs + x.0) x.1)
          (h₃ (emit_all bs (emit_all xs e)))
      ∙ rw (count, words) refl

  -- one round of the outer loop
  frame_step :
      (m : Machine) (isstore : Bool) (i : ℕ) (f : Emit ℕ) (ws : List ℕ)
      → Counts f m ws
      → Counts
          (x_slot (mips_ops buffer t) (place m (i * 2) isstore) (place m (i * 2) (not isstore))
            >>= λ a.
                x_slot
                  (mips_ops buffer t)
                  (place m (i * 2 + 1) isstore)
                  (place m (i * 2 + 1) (not isstore))
                >>= λ b. f >>= λ rest. pure (a + b + rest))
          m
          (slot_words m isstore (i * 2) ++ (slot_words m isstore (i * 2 + 1) ++ ws))
  frame_step m isstore i f ws h =
      three-Counts
        (x_slot (mips_ops buffer t) (place m (i * 2) isstore) (place m (i * 2) (not isstore)))
        (x_slot (mips_ops buffer t) (place m (i * 2 + 1) isstore)
          (place m (i * 2 + 1) (not isstore)))
        f m (slot_words m isstore (i * 2)) (slot_words m isstore (i * 2 + 1)) ws
        (x_slot-words m isstore (i * 2)) (x_slot-words m isstore (i * 2 + 1)) h

  -- `x_frame` on the MIPS machine emits the words of the frame's registers and counts them.
  pub x_frame-Counts :
      (m : Machine) (isstore : Bool) (off n : ℕ)
      → m.nr_reg ≤ length m.reg
      → Counts (x_frame (mips_ops buffer t) isstore off n) m (frame_words m isstore off n)
  unfolding x_frame emit_all
  x_frame-Counts m isstore off zero h e = refl
  x_frame-Counts m true off (suc n) h e =
      rw (vreg_to_operand-place m (off + n) true h, vreg_to_operand-place m (off + n) false h)
        (frame_step m true (off + n) (x_frame (mips_ops buffer t) true off n)
          (frame_words m true off n) (x_frame-Counts m true off n h) e)
  x_frame-Counts m false off (suc n) h e =
      rw (vreg_to_operand-place m (off + n) true h, vreg_to_operand-place m (off + n) false h)
        (frame_step m false (off + n) (x_frame (mips_ops buffer t) false off n)
          (frame_words m false off n) (x_frame-Counts m false off n h) e)
