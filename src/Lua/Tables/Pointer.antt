-- ===== src/Lua/Tables/Pointer.antt =====
-- litabup.c: the code that finds an upvalue, run on the processor.
use too_legit_to_jit.Common.{ℕ, ◌+◌, ◌*◌, ◌^◌, ◌<◌, ◌≡◌, ◌≢◌, ◌∙◌, sym, ap, List, ◌++◌, ok, arith}
use too_legit_to_jit.Word.{add32, sext16, neg32}
use too_legit_to_jit.Operand.{reg, direct_addr, op_target_daddr}
use too_legit_to_jit.Emitter.{Emitter32}
use too_legit_to_jit.Machine.{Machine, Jit, Emit, ◌>>◌}
use too_legit_to_jit.Jitfunc.{JFuncs}
use too_legit_to_jit.Frame.{get_frame_closure}
use too_legit_to_jit.Mips.Isa.{Cpu, read}
use too_legit_to_jit.Mips.Move.{move}
use too_legit_to_jit.Mips.MoveLaws.{emit_all, Emits, Loads, value, move-Loads}
use too_legit_to_jit.Mips.Compose.{Emits-append, Loads-append, >>-assoc}
use too_legit_to_jit.Mips.Jfunc.{mips_ops}
use too_legit_to_jit.Lua.Tables.{getupvalptr, closure_uvs, upval_val}

-- the word at an offset from an address
abbrev pub deref : Cpu → (base offset : ℕ) → ℕ
deref c base offset = c.mem (add32 base (sext16 offset))

sext16-sext16 : (x : ℕ) → sext16 (sext16 x) ≡ sext16 x
sext16-sext16 x = ground arith

module _ (r : ℕ) (small : r < 2 ^ 5) (pos : r ≢ 0) where
  -- A load through the register itself.
  load_through :
      (f : Emit (Unit {0})) (ws : List ℕ) (v : Cpu → ℕ) (offset : ℕ)
      → Emits f ws
      → Loads ws r v
      → (vs : List ℕ) × Emits (f >> move (reg r) (op_target_daddr r offset)) vs
        × Loads vs r (λ c. deref c (v c) offset)
  unfolding op_target_daddr
  load_through f ws v offset emits loads =
      let s = direct_addr r (sext16 offset) in
      let (vs, emits', loads') = move-Loads r small pos s small in
      (
        ws ++ vs,
        Emits-append f (move (reg r) s) ws vs emits emits',
        Loads-append ws vs r v (λ c. value c s) (λ c. deref c (v c) offset) loads loads'
            λ c c' got mem.
              ap (λ x. c'.mem (add32 x (sext16 (sext16 offset)))) got
              ∙ ap (λ x. c'.mem (add32 (v c) x)) (sext16-sext16 offset)
              ∙ mem (add32 (v c) (sext16 offset)),
      )

  load_closure :
      (m : Machine)
      → m.fp < 2 ^ 5
      → (ws : List ℕ) × Emits (move (reg r) (get_frame_closure m)) ws
        × Loads ws r (λ c. deref c (read c m.fp) (neg32 4))
  unfolding get_frame_closure op_target_daddr
  load_closure m h = move-Loads r small pos (direct_addr m.fp (sext16 (neg32 4))) h

  -- The code of `getupvalptr` on the MIPS machine leaves in its register the pointer to the
  -- upvalue's value: it follows the pointer in the frame's closure slot to the slot of the closure,
  -- that one to the closure, takes the pointer to upvalue `i` from there, and from the upvalue the
  -- pointer to its value. It changes no other register and not the memory. The register is no zero
  -- register, and the frame pointer and the register are below 32.
  pub getupvalptr-Loads :
      (buffer : Emitter32 → ℕ) (t : JFuncs) (i : ℕ) (j : Jit)
      → j.machine.fp < 2 ^ 5
      → (ws : List ℕ) × (getupvalptr (mips_ops buffer t) (reg r) i j
          ≡ ok (tt, record j { emitter = emit_all ws (j.emitter) }))
        × Loads ws r λ c.
          deref c
            (deref c (deref c (deref c (read c (j.machine.fp)) (neg32 4)) 0) (closure_uvs + 4 * i))
            upval_val
  unfolding getupvalptr mips_ops
  getupvalptr-Loads buffer t i j fp_small =
      let s = get_frame_closure (j.machine) in
      let first = move (reg r) s in
      let second = move (reg r) (op_target_daddr r 0) in
      let third = move (reg r) (op_target_daddr r (closure_uvs + 4 * i)) in
      let fourth = move (reg r) (op_target_daddr r upval_val) in
      let (ws₁, emits₁, loads₁) = load_closure (j.machine) fp_small in
      let (ws₂, emits₂, loads₂) =
        load_through first ws₁ (λ c. deref c (read c (j.machine.fp)) (neg32 4)) 0 emits₁ loads₁ in
      let (ws₃, emits₃, loads₃) =
        load_through (first >> second) ws₂
          (λ c. deref c (deref c (read c (j.machine.fp)) (neg32 4)) 0) (closure_uvs + 4 * i) emits₂
          loads₂ in
      let (ws₄, emits₄, loads₄) =
        load_through (first >> second >> third) ws₃
          (λ c.
            deref c (deref c (deref c (read c (j.machine.fp)) (neg32 4)) 0) (closure_uvs + 4 * i))
          upval_val emits₃ loads₃ in
      (
        ws₄,
        sym (>>-assoc first second (third >> fourth) j)
            ∙ sym (>>-assoc (first >> second) third fourth j)
            ∙ emits₄ j,
        loads₄,
      )
