-- ===== src/Mips/Compose.antt =====
-- Code put together: the words of one piece behind those of another.
use too_legit_to_jit.Common.{
  ℕ, ◌≡◌, ◌∙◌, sym, refl, ap, Option, none, some, List, [], ◌∷◌, ◌++◌, Result, ok, fail, and_then,
}
use too_legit_to_jit.Emitter.{Emitter32, encode_op}
use too_legit_to_jit.Machine.{Jit, Emit, ◌>>◌}
use too_legit_to_jit.Mips.Isa.{Cpu, Insn, read, run, decode, step}
use too_legit_to_jit.Mips.MoveLaws.{emit_all, Emits, Loads}

abbrev after : Option Cpu → List ℕ → Option Cpu
after none vs = none
after (some c) vs = run vs c

abbrev run_insn : Option Insn → List ℕ → Cpu → Option Cpu
run_insn none ws c = none
run_insn (some i) ws c = run ws (step i c)

run-cons :
    (w : ℕ) (ws : List ℕ) (c : Cpu) (d : Option Insn)
    → decode w ≡ d
    → run (w ∷ ws) c ≡ run_insn d ws c
unfolding run
run-cons w ws c none h = rw (h, run)
run-cons w ws c (some i) h = rw (h, run)

pub run-append : (ws vs : List ℕ) (c : Cpu) → run (ws ++ vs) c ≡ after (run ws c) vs
unfolding run
run-append [] vs c = refl
run-append (w ∷ ws) vs c =
    run-cons w (ws ++ vs) c (decode w) refl
    ∙ next (decode w) (λ i. run-append ws vs (step i c))
    ∙ ap (λ o. after o vs) (sym (run-cons w ws c (decode w) refl))
  where
    next :
        (d : Option Insn)
        → ((i : Insn) → run (ws ++ vs) (step i c) ≡ after (run ws (step i c)) vs)
        → run_insn d (ws ++ vs) c ≡ after (run_insn d ws c) vs
    next none h = refl
    next (some i) h = h i

pub emit_all-append :
    (ws vs : List ℕ) (e : Emitter32) → emit_all (ws ++ vs) e ≡ emit_all vs (emit_all ws e)
unfolding emit_all
emit_all-append [] vs e = refl
emit_all-append (w ∷ ws) vs e = emit_all-append ws vs (encode_op e w)

-- a second load of the same register, from what the first one left there
pub Loads-append :
    (ws vs : List ℕ) (r : ℕ) (v w g : Cpu → ℕ)
    → Loads ws r v
    → Loads vs r w
    → ((c c' : Cpu) → read c' r ≡ v c → ((a : ℕ) → c'.mem a ≡ c.mem a) → w c' ≡ g c)
    → Loads (ws ++ vs) r g
Loads-append ws vs r v w g first second same c =
    let (c₁, ran, got, others, mem) = first c in
    let (c₂, ran', got', others', mem') = second c₁ in
    (
      c₂,
      run-append ws vs c ∙ rw ran ran',
      got' ∙ same c c₁ got mem,
      (λ x ne. others' x ne ∙ others x ne),
      λ a. mem' a ∙ mem a,
    )

pub Emits-append :
    (f g : Emit (Unit {0})) (ws vs : List ℕ) → Emits f ws → Emits g vs → Emits (f >> g) (ws ++ vs)
Emits-append f g ws vs h h' j =
    ap (λ r. and_then r λ x. g x.1) (h j)
    ∙ h' (record j { emitter = emit_all ws (j.emitter) })
    ∙ ap (λ e. ok (tt, record j { emitter = e })) (sym (emit_all-append ws vs (j.emitter)))

then_assoc :
    (r : Result (Unit {0} × Jit)) (g h : Emit (Unit {0}))
    → and_then (and_then r λ x. g x.1) (λ x. h x.1) ≡ and_then r λ x. (g >> h) x.1
then_assoc (ok x) g h = refl
then_assoc (fail e) g h = refl

pub >>-assoc : (f g h : Emit (Unit {0})) (j : Jit) → ((f >> g) >> h) j ≡ (f >> (g >> h)) j
>>-assoc f g h j = then_assoc (f j) g h
