-- ===== src/Mips/Arguments.antt =====
-- What the processor does with the moves into the argument registers of arch/mips/call.c.
use too_legit_to_jit.Common.{
  ℕ, zero, suc, ◌+◌, ◌<◌, ◌≡◌, ◌≢◌, ◌∙◌, sym, refl, true, false, ◌&&◌, some, List, [], ◌∷◌, ◌++◌,
  ◌==◌, get_or, set, length, length-set, get_or-set_self, get_or-set_ne, ok, arith, tests,
  Bool-cases, inl, inr, ap,
}
use too_legit_to_jit.Operand.{Operand, reg, direct_addr, immed}
use too_legit_to_jit.Machine.{Emit, Jit}
use too_legit_to_jit.Mips.Isa.{Cpu, read, run}
use too_legit_to_jit.Mips.Move.{move}
use too_legit_to_jit.Mips.MoveLaws.{emit_all, Emits, Loads, move-Loads}
use too_legit_to_jit.Mips.Compose.{run-append, Emits-append}
use too_legit_to_jit.Mips.Calling.{
  Matrix, assign_moves, Moves, mipsreg_isarg, mipsreg_argidx, each_move, assign_arg_regs, dep_graph,
}
use too_legit_to_jit.Mips.Assign.{
  perform, sources, is_acyclic, nr_sources, wanted, all_wanted, IsServed, assign_moves-dep_graph,
}

each_move-Emits :
    (d s : Operand) (ms : Moves) (ws vs : List ℕ)
    → Emits (move d s) ws
    → Emits (each_move move ms) vs
    → Emits (each_move move ((d, s) ∷ ms)) (ws ++ vs)
unfolding each_move
each_move-Emits d s ms ws vs h h' = Emits-append (move d s) (each_move move ms) ws vs h h'

-- every argument register holds what `held` says of the registers of `first`
abbrev Holds : Cpu → List ℕ → Cpu → Type 0
Holds first held c = (i : ℕ) → i < 4 → read c (4 + i) ≡ read first (4 + get_or held i 0)

-- what is no argument register, and the memory
abbrev pub Keeps : Cpu → Cpu → Type 0
Keeps c c' =
    ((x : ℕ) → mipsreg_isarg x ≡ false → read c' x ≡ read c x) × ((a : ℕ) → c'.mem a ≡ c.mem a)

-- the words `ws` do what the moves `ms` do to `held`
abbrev Performs : List ℕ → (held held' : List ℕ) → Type 0
Performs ws held held' =
    (first c : Cpu)
    → Holds first held c
    → (c' : Cpu) × (run ws c ≡ some c') × Holds first held' c' × Keeps c c'

arg_regs :
    (d s : ℕ)
    → (mipsreg_isarg d && mipsreg_isarg s) ≡ true
    → (mipsreg_isarg d ≡ true) × (mipsreg_isarg s ≡ true)
arg_regs d s h = elim (Bool-cases (mipsreg_isarg d)) [
  | inl y ↦ (y, let e = rw y at h in e)
  | inr n ↦ let e = rw n at h in cc
]

arg_reg-bounds :
    (r : ℕ) → mipsreg_isarg r ≡ true → (4 + mipsreg_argidx r ≡ r) × (mipsreg_argidx r < 4) × (r < 8)
unfolding mipsreg_isarg mipsreg_argidx
arg_reg-bounds r h = (ground arith, ground arith, ground arith)

not_arg : (x d : ℕ) → mipsreg_isarg x ≡ false → mipsreg_isarg d ≡ true → x ≢ d
not_arg x d h h' e = cc

one_move :
    (d s : ℕ) (ws : List ℕ) (held : List ℕ)
    → length held ≡ 4
    → (mipsreg_isarg d && mipsreg_isarg s) ≡ true
    → Loads ws d (λ c. read c s)
    → Performs ws held (set held (mipsreg_argidx d) (get_or held (mipsreg_argidx s) 0))
one_move d s ws held l h loads first c holds =
    let (c', ran, loaded, others, mem) = loads c in
    let (hd, hs) = arg_regs d s h in
    let (d_back, d_small, _) = arg_reg-bounds d hd in
    let (s_back, s_small, _) = arg_reg-bounds s hs in
    let v = get_or held (mipsreg_argidx s) 0 in
    let held' = set held (mipsreg_argidx d) v in
    let moved : read c' (4 + mipsreg_argidx d) ≡ read first (4 + v) =
      rw d_back (loaded ∙ ap (λ r. read c r) (sym s_back) ∙ holds (mipsreg_argidx s) s_small) in
    let got : get_or held' (mipsreg_argidx d) 0 ≡ v =
      get_or-set_self held (mipsreg_argidx d) v 0 (omega (arith, l)) in
    (
      c',
      ran,
      (λ i lt. elim (Bool-cases (mipsreg_argidx d == i)) [
        | inl y ↦
            let e : mipsreg_argidx d ≡ i = omega tests in
            rw (sym e) (moved ∙ ap (λ k. read first (4 + k)) (sym got))
        | inr no_same ↦
            let ne : mipsreg_argidx d ≢ i = λ e. omega tests in
            others (4 + i) (λ e. ne (omega arith))
            ∙ holds i lt
            ∙ ap (λ k. read first (4 + k)) (sym (get_or-set_ne held (mipsreg_argidx d) i v 0 ne))
      ]),
      ((λ x no_arg. others x (not_arg x d no_arg hd)), mem),
    )

one_load :
    (d s : ℕ)
    → mipsreg_isarg d ≡ true
    → mipsreg_isarg s ≡ true
    → (ws : List ℕ) × Emits (move (reg d) (reg s)) ws × Loads ws d (λ c. read c s)
one_load d s hd hs =
    let (d_back, d_small, _) = arg_reg-bounds d hd in
    let (s_back, s_small, _) = arg_reg-bounds s hs in
    move-Loads d (omega arith) (λ e. omega arith) (reg s) (omega arith)

two_parts :
    (ws vs held held₁ held₂ : List ℕ)
    → Performs ws held held₁
    → Performs vs held₁ held₂
    → Performs (ws ++ vs) held held₂
two_parts ws vs held held₁ held₂ p p' first c holds =
    let (c₁, ran, holds₁, (kept, mem)) = p first c holds in
    let (c₂, ran', holds₂, (kept', mem')) = p' first c₁ holds₁ in
    (
      c₂,
      run-append ws vs c ∙ rw ran ran',
      holds₂,
      ((λ x h. kept' x h ∙ kept x h), λ a. mem' a ∙ mem a),
    )

perform-Performs :
    (ms : Moves) (held held' : List ℕ)
    → length held ≡ 4
    → perform ms held ≡ some held'
    → (ws : List ℕ) × Emits (each_move move ms) ws × Performs ws held held'
unfolding each_move emit_all run
perform-Performs [] held held' l h =
    let same : held ≡ held' = cc in
    ([], (λ j. refl), λ first c holds. (c, refl, (rw (sym same) holds), ((λ x _. refl), λ a. refl)))
perform-Performs ((reg d, reg s) ∷ ms) held held' l h =
    elim (Bool-cases (mipsreg_isarg d && mipsreg_isarg s)) [
      | inl y ↦
          let (hd, hs) = arg_regs d s y in
          let v = get_or held (mipsreg_argidx s) 0 in
          let held₁ = set held (mipsreg_argidx d) v in
          let (ws, emits, loads) = one_load d s hd hs in
          let (vs, emits', performs) =
            perform-Performs ms held₁ held' (length-set held (mipsreg_argidx d) v ∙ l)
              (rw y at h) in
          (
            ws ++ vs,
            each_move-Emits (reg d) (reg s) ms ws vs emits emits',
            two_parts ws vs held held₁ held' (one_move d s ws held l y loads) performs,
          )
      | inr no_args ↦ let e = rw no_args at h in cc
    ]
perform-Performs ((reg d, direct_addr b o) ∷ ms) held held' l h = cc
perform-Performs ((reg d, immed k) ∷ ms) held held' l h = cc
perform-Performs ((direct_addr b o, s) ∷ ms) held held' l h = cc
perform-Performs ((immed k, s) ∷ ms) held held' l h = cc

get_or-all_wanted : (cs : List ℕ) (i : ℕ) → i < 4 → get_or (all_wanted cs) i 0 ≡ wanted cs i
get_or-all_wanted cs zero h = refl
get_or-all_wanted cs (suc zero) h = refl
get_or-all_wanted cs (suc (suc zero)) h = refl
get_or-all_wanted cs (suc (suc (suc zero))) h = refl
get_or-all_wanted cs (suc (suc (suc (suc i)))) h = absurd (omega arith)

Holds-self : (c : Cpu) → Holds c (0 ∷ 1 ∷ 2 ∷ 3 ∷ []) c
Holds-self c zero h = refl
Holds-self c (suc zero) h = refl
Holds-self c (suc (suc zero)) h = refl
Holds-self c (suc (suc (suc zero))) h = refl
Holds-self c (suc (suc (suc (suc i)))) h = absurd (omega arith)

each_move-moves :
    (move : Operand → Operand → Emit (Unit {0})) (g : Matrix) (j : Jit) (ms : Moves)
    → assign_moves 4 (j.machine.sp) g ≡ ok ms
    → assign_arg_regs move 4 g j ≡ each_move move ms j
unfolding assign_arg_regs
each_move-moves move g j ms h = rw h

-- Whatever the arguments are, also where they come round to their own registers, `assign_arg_regs`
-- ends: it makes one move to the register of each of the first four arguments that comes from an
-- argument register, and no other move. In the order of the moves, each argument register from
-- which following the arguments comes to an end gets the value that its argument had at first, or
-- keeps its own if the argument comes from no argument register.
pub assign_arg_regs-IsServed :
    (move : Operand → Operand → Emit (Unit {0})) (args : List Operand) (j : Jit)
    → (ms : Moves) × (assign_arg_regs move 4 (dep_graph 4 args) j ≡ each_move move ms j)
      × (length ms ≡ nr_sources (sources 4 args))
      × ((i : ℕ) → i < 4 → IsServed (sources 4 args) ms i)
assign_arg_regs-IsServed move args j =
    let (ms, moves, (counted, served, _)) = assign_moves-dep_graph (j.machine.sp) args in
    (ms, each_move-moves move (dep_graph 4 args) j ms moves, counted, served)

-- If following the arguments from register to register comes to an end for each of the first four,
-- the code of `assign_arg_regs` puts into each argument register the value that its argument had at
-- first, or leaves it as it is if the argument comes from no argument register; it changes no other
-- register and not the memory.
pub assign_arg_regs-Performs :
    (args : List Operand) (j : Jit)
    → is_acyclic (sources 4 args) ≡ true
    → (ws : List ℕ) × (assign_arg_regs move 4 (dep_graph 4 args) j
        ≡ ok (tt, record j { emitter = emit_all ws (j.emitter) }))
      × ((c : Cpu)
          → (c' : Cpu) × (run ws c ≡ some c')
            × ((i : ℕ) → i < 4 → read c' (4 + i) ≡ read c (4 + wanted (sources 4 args) i))
            × Keeps c c')
assign_arg_regs-Performs args j h =
    let (ms, moves, (_, _, right)) = assign_moves-dep_graph (j.machine.sp) args in
    let cs = sources 4 args in
    let (ws, emits, performs) =
      perform-Performs ms (0 ∷ 1 ∷ 2 ∷ 3 ∷ []) (all_wanted cs) refl (right h) in
    (
      ws,
      each_move-moves move (dep_graph 4 args) j ms moves ∙ emits j,
      λ c.
          (let (c', ran, holds, keeps) = performs c c (Holds-self c) in
            (
              c',
              ran,
              (λ i lt. holds i lt ∙ ap (λ k. read c (4 + k)) (get_or-all_wanted cs i lt)),
              keeps,
            )),
    )
