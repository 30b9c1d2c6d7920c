-- ===== src/Stack/Sections/Entry.antt =====
-- stack.c on the MIPS machine: a shared section is entered where the words for the wanted registers
-- begin.
use Prim.Native.Nat.{min}
use native.Mathlib.Nat.{mod_self, div_self}
use too_legit_to_jit.Common.{
  ℕ, zero, suc, ◌+◌, ◌-◌, ◌*◌, ◌%◌, ◌≤◌, ◌<◌, ◌≡◌, ◌∙◌, refl, sym, ap, Bool, true, false, List, [],
  ◌∷◌, ◌++◌, length, length-append, drop, leb, ltb, ◌==◌, Bool-cases, inl, inr, ok, arith, tests,
}
use too_legit_to_jit.Emitter.{Emitter32, encode_op, ec, dasm_m_grow}
use too_legit_to_jit.Machine.{Machine, Jit}
use too_legit_to_jit.Frame.{nr_spare_regs}
use too_legit_to_jit.Jitfunc.{JFunc, JFuncs, words_of_one}
use too_legit_to_jit.Stack.{x_frame, max_live_locals, int_ceil_div}
use too_legit_to_jit.Stack.Sections.{jinit_x_access, entry_offset}
use too_legit_to_jit.Stack.Sections.Words.{slot_words, frame_words, x_frame-Counts}
use too_legit_to_jit.Mips.Opcodes.{mi_jr, mi_nop, r_ra}
use too_legit_to_jit.Mips.Move.{emit}
use too_legit_to_jit.Mips.MoveLaws.{emit_all}
use too_legit_to_jit.Mips.Compose.{emit_all-append}
use too_legit_to_jit.Mips.Call.{mips_ret}
use too_legit_to_jit.Mips.Jfunc.{mips_ops}

append_assoc : (xs ys zs : List ℕ) → (xs ++ ys) ++ zs ≡ xs ++ (ys ++ zs)
append_assoc [] ys zs = refl
append_assoc (x ∷ xs) ys zs = ap (λ l. x ∷ l) (append_assoc xs ys zs)

drop-append : (xs ys : List ℕ) → drop (length xs) (xs ++ ys) ≡ ys
drop-append [] ys = refl
drop-append (x ∷ xs) ys = drop-append xs ys

length-slot_words :
    (m : Machine) (isstore : Bool) (p : ℕ)
    → (p < nr_spare_regs m → length (slot_words m isstore p) ≡ 1)
      × (nr_spare_regs m ≤ p → length (slot_words m isstore p) ≡ 0)
length-slot_words m isstore p = (
  (λ h. let e : leb (nr_spare_regs m) p ≡ false = ground arith in rw e refl),
  (λ h. let e : leb (nr_spare_regs m) p ≡ true = ground arith in rw e refl),
)

length-frame_words :
    (m : Machine) (isstore : Bool) (n : ℕ)
    → length (frame_words m isstore 0 n) ≡ min (n * 2) (nr_spare_regs m)
length-frame_words m isstore zero = omega arith
length-frame_words m isstore (suc n) =
    let p = (0 + n) * 2 in
    let (one, none) = length-slot_words m isstore p in
    let (one', none') = length-slot_words m isstore (p + 1) in
    let rest = length-frame_words m isstore n in
    let sum =
      length-append (slot_words m isstore p)
        (slot_words m isstore (p + 1) ++ frame_words m isstore 0 n) in
    let sum' = length-append (slot_words m isstore (p + 1)) (frame_words m isstore 0 n) in
    ground (arith, sum, sum', rest, one, none, one', none')

-- the words for more registers end with those for fewer
frame_words-split :
    (m : Machine) (isstore : Bool) (k n : ℕ)
    → n ≤ k
    → (first : List ℕ) × (frame_words m isstore 0 k ≡ first ++ frame_words m isstore 0 n)
frame_words-split m isstore zero n h = let e : n ≡ 0 = omega arith in ([], rw e refl)
frame_words-split m isstore (suc k) n h = elim (Bool-cases (n == suc k)) [
  | inl y ↦ let e : n ≡ suc k = omega tests in ([], rw e refl)
  | inr no_same ↦
      let (first, e) = frame_words-split m isstore k n (omega tests) in
      let a = slot_words m isstore ((0 + k) * 2) in
      let b = slot_words m isstore ((0 + k) * 2 + 1) in
      (
        a ++ (b ++ first),
        ap (λ l. a ++ (b ++ l)) e
            ∙ sym (
                append_assoc a (b ++ first) (frame_words m isstore 0 n)
                ∙ ap (λ l. a ++ l) (append_assoc b first (frame_words m isstore 0 n))),
      )
]

drop-frame_words :
    (m : Machine) (isstore : Bool) (n : ℕ)
    → n ≤ max_live_locals m
    → drop (entry_offset m n 1) (frame_words m isstore 0 (max_live_locals m))
      ≡ frame_words m isstore 0 n
unfolding max_live_locals int_ceil_div nr_spare_regs
drop-frame_words m isstore n h =
    let ws = frame_words m isstore 0 n in
    let (first, e) = frame_words-split m isstore (max_live_locals m) n h in
    let whole = length-frame_words m isstore (max_live_locals m) in
    let part = length-frame_words m isstore n in
    let sum : length (frame_words m isstore 0 (max_live_locals m)) ≡ length first + length ws =
      ap (λ l. length l) e ∙ length-append first ws in
    let skipped : entry_offset m n 1 ≡ length first = omega (arith, whole, part, sum) in
    rw (e, skipped) (drop-append first ws)

size-encode_op : (e : Emitter32) (w : ℕ) → (encode_op e w).size ≡ e.size + 4
unfolding encode_op dasm_m_grow
size-encode_op e w = elim (Bool-cases (ltb e.bufsize (e.size + 4))) [
  | inl y ↦ rw y refl
  | inr n ↦ rw n refl
]

size-emit_all : (ws : List ℕ) (e : Emitter32) → (emit_all ws e).size ≡ e.size + 4 * length ws
unfolding emit_all
size-emit_all [] e = omega arith
size-emit_all (w ∷ ws) e = omega (arith, size-emit_all ws (encode_op e w), size-encode_op e w)

ec-emit_all : (ws : List ℕ) (e : Emitter32) → ec (emit_all ws e) - ec e ≡ length ws
unfolding ec
ec-emit_all ws e = omega (arith, size-emit_all ws e)

one_word_each : (n : ℕ) (j : Jit) → 0 < n → words_of_one n n j ≡ ok (1, j)
unfolding words_of_one
one_word_each n j h =
    let some_spill : (n == 0) ≡ false = ground arith in
    let no_rest : (n % n == 0) ≡ true = omega (tests, mod_self n) in
    rw (some_spill, no_rest, div_self h) refl

some_words :
    (m : Machine) (isstore : Bool)
    → m.nr_temp_regs < m.nr_reg
    → 0 < length (frame_words m isstore 0 (max_live_locals m))
unfolding max_live_locals int_ceil_div nr_spare_regs
some_words m isstore h = omega (arith, length-frame_words m isstore (max_live_locals m))

-- On the MIPS machine the shared section that stores or loads the Lua registers has one word for
-- each register, which `func_data` says, and returns behind them. Enter it `entry_offset` words
-- behind its beginning, and what is left before the return is just the code that stores or loads
-- `n` registers. The table of registers is complete and has at least one behind the temporaries,
-- and `n` is at most `max_live_locals`.
pub jinit_x_access-entry :
    (buffer : Emitter32 → ℕ) (t : JFuncs) (isstore : Bool) (jf : JFunc) (m : Machine)
    → m.nr_reg ≤ length m.reg
    → m.nr_temp_regs < m.nr_reg
    → (all : List ℕ) × ((e : Emitter32)
        → jinit_x_access (mips_ops buffer t) isstore jf (record { emitter = e; machine = m })
          ≡ ok (
            record jf { func_data = 1 },
            record { emitter = emit_all (all ++ mi_jr r_ra ∷ mi_nop ∷ []) e; machine = m },
          ))
      × ((n : ℕ)
          → n ≤ max_live_locals m
          → (e : Emitter32)
          → x_frame (mips_ops buffer t) isstore 0 n (record { emitter = e; machine = m })
            ≡ ok (
              length (drop (entry_offset m n 1) all),
              record { emitter = emit_all (drop (entry_offset m n 1) all) e; machine = m },
            ))
unfolding jinit_x_access mips_ops mips_ret emit emit_all
jinit_x_access-entry buffer t isstore jf m h some_reg =
    let all = frame_words m isstore 0 (max_live_locals m) in
    (
      all,
      (λ e. rw (x_frame-Counts buffer t m isstore 0 (max_live_locals m) h e) (
          rw (ec-emit_all all e) (
            rw
              (one_word_each (length all) (record { emitter = emit_all all e; machine = m })
                (some_words m isstore some_reg))
              (rw (emit_all-append all (mi_jr r_ra ∷ mi_nop ∷ []) e) refl)))),
      λ n le e. rw (drop-frame_words m isstore n le) (x_frame-Counts buffer t m isstore 0 n h e),
    )
