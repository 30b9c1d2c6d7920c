-- ===== src/Emitter/Grow.antt =====
-- The buffer of emitter32.c: `DASM_M_GROW` and `ENCODE_OP`.
use too_legit_to_jit.Common.{
  ℕ, zero, suc, ◌+◌, ◌*◌, ◌/◌, ◌%◌, ◌≤◌, ◌<◌, ◌≡◌, refl, ◌⊎◌, inl, inr, Bool-cases, List, [], ◌∷◌,
  ◌++◌, ltb, length, length-append, tests, arith, ap, sym,
}
use mathlib.Core.Path.{subst}
use too_legit_to_jit.Emitter.{
  Emitter32, emitter32_create, grow_loop, grown, dasm_m_grow, store_word, encode_op,
}

-- The calls of the reallocator, the last first: each passes as the old size what the call before
-- it asked for, and the last one asked for `b`. The first call has a null pointer and no old size.
abbrev pub Chain : List (ℕ × ℕ) → ℕ → Type 0
Chain [] b = b ≡ 0
Chain ((old, new) ∷ []) b = (new ≡ b) × (0 < b)
Chain ((old, new) ∷ (old', new') ∷ rest) b = (new ≡ b) × (0 < b) × Chain ((old', new') ∷ rest) old

pub record IsBuffer (e : Emitter32) : Type 0 where
  pub words : 4 * length e.mcode ≡ e.size
  pub fits : e.size ≤ e.bufsize
  pub aligned : e.bufsize % 4 ≡ 0
  pub floor : (e.bufsize ≡ 0) ⊎ (16 ≤ e.bufsize)
  pub calls : Chain e.reallocs e.bufsize

pub grow_loop-le : (fuel sz need : ℕ) → 0 < sz → need ≤ sz + fuel → need ≤ grow_loop fuel sz need
unfolding grow_loop
grow_loop-le zero sz need pos h = omega arith
grow_loop-le (suc fuel) sz need pos h = ground (arith, grow_loop-le fuel (sz + sz) need)

-- The loop of `DASM_M_GROW` ends with a size that covers the need, from any old size.
need-le-grown : (sz need : ℕ) → need ≤ grown sz need
unfolding grown
need-le-grown sz need =
    ground (arith, grow_loop-le need 16 need (omega arith) (omega arith), grow_loop-le need sz need)

grown_first : (need : ℕ) → need ≤ 16 → grown 0 need ≡ 16
unfolding grown grow_loop
grown_first zero h = refl
grown_first (suc n) h = ground arith

grown_double : (b need : ℕ) → 16 ≤ b → b < need → need ≤ b + b → grown b need ≡ b + b
unfolding grown grow_loop
grown_double b zero h h' h'' = absurd (omega arith)
grown_double b (suc zero) h h' h'' = absurd (omega arith)
grown_double b (suc (suc n)) h h' h'' = ground arith

pub store_word-length : (xs : List ℕ) (i v : ℕ) → i ≡ length xs → store_word xs i v ≡ xs ++ v ∷ []
unfolding store_word
store_word-length [] i v h = refl
store_word-length (x ∷ xs) zero v h = absurd (omega arith)
store_word-length (x ∷ xs) (suc i) v h = ap (λ l. x ∷ l) (store_word-length xs i v (omega arith))

Chain-first :
    (calls : List (ℕ × ℕ)) (old new : ℕ) → Chain calls 0 → 0 < new → Chain ((old, new) ∷ calls) new
Chain-first [] old new h pos = (refl, pos)
Chain-first ((o, n) ∷ []) old new h pos = absurd (omega arith)
Chain-first ((o, n) ∷ (o', n') ∷ rest) old new h pos = absurd (omega arith)

Chain-again :
    (calls : List (ℕ × ℕ)) (b old new : ℕ)
    → Chain calls b
    → old ≡ b
    → 0 < b
    → 0 < new
    → Chain ((old, new) ∷ calls) new
Chain-again [] b old new h same pos pos' = absurd (omega arith)
Chain-again (c ∷ calls) b old new h same pos pos' =
    (refl, pos', subst (Chain (c ∷ calls)) (sym same) h)

pub mcode-dasm_m_grow : (e : Emitter32) (need : ℕ) → (dasm_m_grow e need).mcode ≡ e.mcode
unfolding dasm_m_grow
mcode-dasm_m_grow e need = ground arith

-- What holds of the buffer `g` that `e` is given before a word is written.
record HasRoom (e g : Emitter32) : Type 0 where
  valid : IsBuffer g
  same_size : g.size ≡ e.size
  room : e.size + 4 ≤ g.bufsize

-- Both rounds of growth end in a size of this kind.
resized-HasRoom :
    (e : Emitter32) (b : ℕ)
    → IsBuffer e
    → e.size + 4 ≤ b
    → b % 4 ≡ 0
    → 16 ≤ b
    → Chain ((b / 2, b) ∷ e.reallocs) b
    → HasRoom e (record e { bufsize = b; reallocs = (b / 2, b) ∷ e.reallocs })
resized-HasRoom e b w room aligned floor calls = record {
  valid = record {
    words = w.words;
    fits = omega arith;
    aligned = aligned;
    floor = inr floor;
    calls = calls;
  };
  same_size = refl;
  room = room;
}

dasm_m_grow-HasRoom : (e : Emitter32) → IsBuffer e → HasRoom e (dasm_m_grow e (e.size + 4))
unfolding dasm_m_grow
dasm_m_grow-HasRoom e w = elim (Bool-cases (ltb e.bufsize (e.size + 4))) [
  | inr enough ↦ rw enough (record { valid = w; same_size = refl; room = omega tests })
  | inl more ↦ rw more (elim w.floor [
    | inl empty ↦
        let calls : Chain e.reallocs 0 = rw empty at w.calls in
        let first : grown e.bufsize (e.size + 4) ≡ 16 =
          rw empty (grown_first (e.size + 4) (omega arith)) in
        rw first (
          resized-HasRoom e 16 w (omega arith) refl (omega arith)
            (Chain-first e.reallocs 8 16 calls (omega arith)))
    | inr big ↦
        let twice = grown_double e.bufsize (e.size + 4) big (omega tests) (omega arith) in
        rw twice (
          resized-HasRoom e (e.bufsize + e.bufsize) w (omega arith) (omega arith) (omega arith) (
            Chain-again e.reallocs e.bufsize ((e.bufsize + e.bufsize) / 2) (e.bufsize + e.bufsize)
              w.calls (omega arith) (omega arith) (omega arith)))
  ])
]

-- A new emitter has an empty buffer, and no call of the reallocator behind it.
pub emitter32_create-IsBuffer : (vmlines : ℕ) → IsBuffer (emitter32_create vmlines)
unfolding emitter32_create
emitter32_create-IsBuffer vmlines = record {
  words = refl;
  fits = omega arith;
  aligned = refl;
  floor = inl refl;
  calls = refl;
}

-- On a valid buffer `ENCODE_OP` appends its word and changes no word before it, also when the
-- buffer grows.
mcode-encode_op : (e : Emitter32) (w : ℕ) → IsBuffer e → (encode_op e w).mcode ≡ e.mcode ++ w ∷ []
unfolding encode_op
mcode-encode_op e w v =
    let g = dasm_m_grow e (e.size + 4) in
    let r = dasm_m_grow-HasRoom e v in
    rw (mcode-dasm_m_grow e (e.size + 4))
      (store_word-length e.mcode (g.size / 4) w (omega (arith, r.same_size)))

-- `ENCODE_OP` keeps the buffer valid: the words written stay within the buffer's size, and each
-- call of the reallocator passes the size that the buffer has.
pub encode_op-IsBuffer : (e : Emitter32) (w : ℕ) → IsBuffer e → IsBuffer (encode_op e w)
unfolding encode_op
encode_op-IsBuffer e w v =
    let r = dasm_m_grow-HasRoom e v in
    record {
      words = omega (
        arith,
        ap (λ (l : List ℕ). length l) (mcode-encode_op e w v),
        length-append {0} e.mcode (w ∷ []),
        v.words,
      );
      fits = omega (arith, r.same_size, r.room);
      aligned = r.valid.aligned;
      floor = r.valid.floor;
      calls = r.valid.calls;
    }
