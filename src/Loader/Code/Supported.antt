-- ===== src/Loader/Code/Supported.antt =====
-- main.c: which instructions the translator accepts.
use too_legit_to_jit.Common.{
  ℕ, ◌+◌, ◌≡◌, refl, Bool, true, false, ◌||◌, List, [], ◌∷◌, ◌==◌, Bool-cases, inl, inr, All, ok,
  fail, assertion, and_then-eq-ok, ◌++◌, length, arith,
}
use too_legit_to_jit.Emitter.{Emitter32, label_pc}
use too_legit_to_jit.Machine.{Frame, MachineOps, Jit, lift_emitter, ◌>>◌}
use too_legit_to_jit.Jitfunc.{JFuncs}
use too_legit_to_jit.Lua.Opcodes.{
  get_opcode, op_move, op_loadk, op_loadnil, op_getupval, op_gettabup, op_gettable, op_settabup,
  op_setupval, op_settable, op_newtable, op_self, op_add, op_sub, op_mul, op_div, op_mod, op_jmp,
  op_eq, op_lt, op_le, op_call, op_return, op_forloop, op_forprep, op_setlist, op_closure,
}
use too_legit_to_jit.Loader.Code.{Runtime, translate, translate_all}

-- the operation codes of Lua 5.2 for which `load_code` has a case, in their order; the case of
-- OP_LOADNIL emits nothing
abbrev pub accepted : List ℕ
accepted =
    op_move ∷ op_loadk ∷ op_loadnil ∷ op_getupval ∷ op_gettabup ∷ op_gettable ∷ op_settabup
    ∷ op_setupval ∷ op_settable ∷ op_newtable ∷ op_self ∷ op_add ∷ op_sub ∷ op_mul ∷ op_div ∷ op_mod
    ∷ op_jmp ∷ op_eq ∷ op_lt ∷ op_le ∷ op_call ∷ op_return ∷ op_forloop ∷ op_forprep ∷ op_setlist
    ∷ op_closure ∷ []

abbrev pub is_member : ℕ → List ℕ → Bool
is_member x [] = false
is_member x (y ∷ ys) = (x == y) || is_member x ys

neither : (p q : Bool) → (p || q) ≡ false → (p ≡ false) × (q ≡ false)
neither true q h = cc
neither false q h = (refl, h)

All-not_member : (x : ℕ) (ys : List ℕ) → is_member x ys ≡ false → All (λ y. (x == y) ≡ false) ys
All-not_member x [] h = tt
All-not_member x (y ∷ ys) h =
    let (this, others) = neither (x == y) (is_member x ys) h in (this, All-not_member x ys others)

module _ (mop : MachineOps) (buffer : Emitter32 → ℕ) (t : JFuncs) (rt : Runtime) (f : Frame)
    (subp : ℕ → ℕ) (nrprotos : ℕ) where
  translate-assertion :
      (pc ins : ℕ) (j : Jit)
      → is_member (get_opcode ins) accepted ≡ false
      → translate mop buffer t rt f subp nrprotos pc ins j ≡ fail assertion
  unfolding translate
  translate-assertion pc ins j h =
      let (
        a,
        (
          b,
          (
            c,
            (
              d,
              (
                e,
                (
                  f,
                  (
                    g,
                    (
                      h,
                      (
                        i,
                        (
                          j,
                          (
                            k,
                            (
                              l,
                              (
                                m,
                                (n, (o, (p, (q, (r, (s, (t, (u, (v, (w, (x, (y, (z, _))))))))))))),
                              ),
                            ),
                          ),
                        ),
                      ),
                    ),
                  ),
                ),
              ),
            ),
          ),
        ),
      ) =
        All-not_member (get_opcode ins) accepted h in
      rw (b, l, m, o, n, p, a, x, w, j, y, f, i, c, z, u, v, d, h, g, e, k, q, r, s, t) refl

  -- what code was generated for has a case
  translate_all-supported :
      (inss : List ℕ) (pc : ℕ) (j j' : Jit)
      → translate_all mop buffer t rt f subp nrprotos pc inss j ≡ ok (tt, j')
      → All (λ ins. is_member (get_opcode ins) accepted ≡ true) inss
  unfolding translate_all
  translate_all-supported [] pc j j' h = tt
  translate_all-supported (ins ∷ inss) pc j j' h =
      let (labelled, _, rest) =
        and_then-eq-ok (lift_emitter (λ e. label_pc e pc) j)
          (λ x.
            (translate mop buffer t rt f subp nrprotos pc ins
                >> translate_all mop buffer t rt f subp nrprotos (pc + 1) inss)
              x.1)
          h in
      let (done, one, others) =
        and_then-eq-ok (translate mop buffer t rt f subp nrprotos pc ins labelled.1)
          (λ x. translate_all mop buffer t rt f subp nrprotos (pc + 1) inss x.1) rest in
      (
        elim (Bool-cases (is_member (get_opcode ins) accepted)) [
          | inl y ↦ y
          | inr n ↦ let e = translate-assertion pc ins labelled.1 n in cc
        ],
        translate_all-supported inss (pc + 1) done.1 j' others,
      )

  translate_all-one :
      (before after : List ℕ) (ins pc here : ℕ) (j j' : Jit) (e : Emitter32)
      → pc + length before ≡ here
      → translate_all mop buffer t rt f subp nrprotos pc before j ≡ ok (tt, j')
      → label_pc (j'.emitter) here ≡ ok e
      → is_member (get_opcode ins) accepted ≡ false
      → translate_all mop buffer t rt f subp nrprotos pc (before ++ (ins ∷ after)) j
        ≡ fail assertion
  unfolding translate_all
  translate_all-one [] after ins pc here j j' e place h labelled n =
      let same : j ≡ j' = cc in
      let there : pc ≡ here = omega (arith, place) in
      rw (same, there, labelled)
        (rw (translate-assertion here ins (record j' { emitter = e }) n) refl)
  translate_all-one (b ∷ before) after ins pc here j j' e place h labelled n =
      let (first, one, rest) =
        and_then-eq-ok (lift_emitter (λ e. label_pc e pc) j)
          (λ x.
            (translate mop buffer t rt f subp nrprotos pc b
                >> translate_all mop buffer t rt f subp nrprotos (pc + 1) before)
              x.1)
          h in
      let (done, two, others) =
        and_then-eq-ok (translate mop buffer t rt f subp nrprotos pc b first.1)
          (λ x. translate_all mop buffer t rt f subp nrprotos (pc + 1) before x.1) rest in
      rw (one, two)
        (translate_all-one before after ins (pc + 1) here done.1 j' e (omega (arith, place)) others
          labelled n)

  -- The translation stops with a failed assertion at the first instruction that `load_code` has no
  -- case for, such as OP_LOADBOOL: if the instructions before it are translated, and its label can
  -- be set, then the translation of all fails, whatever comes behind; and each instruction before
  -- it has a case.
  pub translate_all-stops :
      (before after : List ℕ) (ins pc : ℕ) (j j' : Jit) (e : Emitter32)
      → translate_all mop buffer t rt f subp nrprotos pc before j ≡ ok (tt, j')
      → label_pc (j'.emitter) (pc + length before) ≡ ok e
      → is_member (get_opcode ins) accepted ≡ false
      → (translate_all mop buffer t rt f subp nrprotos pc (before ++ (ins ∷ after)) j
          ≡ fail assertion)
        × All (λ ins. is_member (get_opcode ins) accepted ≡ true) before
  translate_all-stops before after ins pc j j' e h labelled n = (
    translate_all-one before after ins pc (pc + length before) j j' e refl h labelled n,
    translate_all-supported before pc j j' h,
  )
