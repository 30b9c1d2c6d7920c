-- ===== src/Xlogue/Returns.antt =====
-- xlogue.c: what a C function finds on its stack, and what its caller gets back.
use mathlib.Core.Path.{subst}
use too_legit_to_jit.Common.{
  ℕ, zero, suc, ◌+◌, ◌-◌, ◌≤◌, ◌<◌, ◌≡◌, ◌∙◌, refl, true, List, [], ◌∷◌, length, length-set, leb,
  ltb, get_or, get_or-set_self, get_or-set_ne, assertion, Result, ok, fail, and_then, set, arith,
  tests,
}
use too_legit_to_jit.Object.{TValue, tvalue}
use too_legit_to_jit.Api.{LuaState, index2addr, initstack, lua_safepush}
use too_legit_to_jit.Api.Laws.{IsStack, element}
use too_legit_to_jit.Api.Call.{push_values}
use too_legit_to_jit.Xlogue.Invoke.{negative, ljc_invokec}

-- `l'` is `l` with the values on top
abbrev IsPushed : List TValue → LuaState → LuaState → Type 0
IsPushed vs l l' =
    IsStack l'
    × (l'.top ≡ l.top + length vs)
    × (l'.genv ≡ l.genv)
    × ((i : ℕ) → i < l.top → element l' i ≡ element l i)
    × ((i : ℕ) → i < length vs → element l' (l.top + i) ≡ get_or vs i (tvalue 0 0))

-- one more value on top of the others
above-cons :
    (v : TValue) (vs : List TValue) (l l' : LuaState)
    → length l.cells ≡ 20
    → l.top < 20
    → ((i : ℕ) → i < l.top + 1 → element l' i ≡ get_or (set l.cells l.top v) i (tvalue 0 0))
    → ((i : ℕ) → i < length vs → element l' (l.top + 1 + i) ≡ get_or vs i (tvalue 0 0))
    → (i : ℕ) → i < length (v ∷ vs)
    → element l' (l.top + i) ≡ get_or (v ∷ vs) i (tvalue 0 0)
above-cons v vs l l' full room below above zero h =
    let here : l.top + 0 ≡ l.top = omega arith in
    rw here (
      below l.top (omega arith)
      ∙ get_or-set_self l.cells l.top v (tvalue 0 0) (omega (arith, full)))
above-cons v vs l l' full room below above (suc i) h =
    let next : l.top + suc i ≡ l.top + 1 + i = omega arith in rw next (above i (omega arith))

push_values-IsPushed :
    (vs : List TValue) (l : LuaState)
    → IsStack l
    → l.top + length vs ≤ 20
    → (l' : LuaState) × (push_values vs l ≡ ok l') × IsPushed vs l l'
unfolding push_values lua_safepush
push_values-IsPushed [] l w h =
    (l, refl, (w, omega arith, refl, (λ i lt. refl), λ i lt. absurd (omega arith)))
push_values-IsPushed (v ∷ vs) l w h =
    let l₁ : LuaState = record l { cells = set l.cells l.top v; top = l.top + 1 } in
    let room : ltb l.top 20 ≡ true = omega (tests, h) in
    let w₁ : IsStack l₁ = record {
      cells = omega (arith, length-set l.cells l.top v, w.cells);
      inside = omega (arith, h);
    } in
    let (l', pushed, (w', top', genv', below, above)) =
      push_values-IsPushed vs l₁ w₁ (omega (arith, h)) in
    (
      l',
      rw room pushed,
      (
        w',
        omega (arith, top'),
        genv',
        (λ i lt.
            below i (omega arith)
            ∙ get_or-set_ne l.cells l.top i v (tvalue 0 0) (λ e. omega arith)),
        above-cons v vs l l' w.cells (omega (arith, h)) below above,
      ),
    )

initstack-IsStack : (l : LuaState) → IsStack (initstack l)
unfolding initstack
initstack-IsStack l = record { cells = refl; inside = omega arith }

index2addr-results :
    (l : LuaState) (n : ℕ)
    → l.top ≤ 20
    → suc n ≤ l.top
    → index2addr l (negative (suc n)) ≡ ok (l.top - n)
unfolding index2addr negative
index2addr-results l n h h' =
    let small : ltb (n + 1) 1001000 ≡ true = ground arith in
    let inside : leb (n + 1) (l.top + 1) ≡ true = ground arith in rw (small, inside) refl

-- the call's stack and global variables
abbrev pub IsCalled : List TValue → LuaState → LuaState → Type 0
IsCalled args l called =
    (called.top ≡ length args)
    × (called.genv ≡ l.genv)
    × ((i : ℕ) → i < length args → element called i ≡ get_or args i (tvalue 0 0))

push_values-IsCalled :
    (args : List TValue) (l : LuaState)
    → length args ≤ 20
    → (called : LuaState) × (push_values args (initstack l) ≡ ok called) × IsCalled args l called
unfolding initstack
push_values-IsCalled args l h =
    let (called, pushed, (w, top, genv, _, above)) =
      push_values-IsPushed args (initstack l) (initstack-IsStack l) (omega arith) in
    (
      called,
      pushed,
      (
        omega (arith, top),
        genv,
        λ i lt.
            subst (λ j. element called j ≡ get_or args i (tvalue 0 0)) (omega arith) (above i lt),
      ),
    )

-- what the caller gets back
abbrev pub returned : ℕ → (l left : LuaState) → Result ((ℕ × (ℕ × List TValue)) × LuaState)
returned zero l left = fail assertion
returned (suc n) l left = ok ((suc n, (left.top - n, left.cells)), record l { genv = left.genv })

returned_lem :
    (n : ℕ) (l left : LuaState)
    → left.top ≤ 20
    → n ≤ left.top
    → and_then
        (index2addr left (negative n))
        (λ ret. ok ((n, (ret, left.cells)), record l { genv = left.genv }))
      ≡ returned n l left
unfolding negative index2addr
returned_lem zero l left small enough = refl
returned_lem (suc n) l left small enough = rw (index2addr-results left n small enough) refl

-- Emitted code calls a C function with at most 20 arguments. The function ends, whenever it is
-- called on a stack that has these arguments, the first one at the bottom, and nothing else, with
-- the global variables of the caller; it then leaves at most 20 values on its stack, and at least
-- as many as it says it returns. Then it is called on such a stack. If it returns one value at
-- least, then the caller gets their number, the place of the first one and the stack with it, and
-- keeps its own stack but has the global variables that the function leaves. If it returns no
-- value, the call fails an assertion.
pub ljc_invokec-returns :
    (f : LuaState → Result (ℕ × LuaState)) (args : List TValue) (l : LuaState) (n : ℕ)
    → length args ≤ 20
    → (ends : (called : LuaState)
        → IsCalled args l called
        → (left : LuaState) × (f called ≡ ok (n, left)) × (left.top ≤ 20) × (n ≤ left.top))
    → (called : LuaState) × IsCalled args l called
      × ((left : LuaState) × (f called ≡ ok (n, left)) × (ljc_invokec f args l ≡ returned n l left))
unfolding ljc_invokec
ljc_invokec-returns f args l n h ends =
    let (called, pushed, is) = push_values-IsCalled args l h in
    let (left, e, small, enough) = ends called is in
    (called, is, (left, e, rw (pushed, e) (returned_lem n l left small enough)))
