-- ===== src/Api/Laws.antt =====
-- The stack of a C function as a sequence, and global variables.
use too_legit_to_jit.Common.{
  ℕ, zero, suc, ◌+◌, ◌-◌, ◌≤◌, ◌<◌, ◌≡◌, refl, ◌≢◌, inl, inr, true, false, Bool-cases, ◌==◌, ltb,
  leb, length, get_or, get_elem?-get_or, set, get_or-set_self, set-get_or, get_or-set_ne,
  length-set, some, ok, and_then, tests, arith, ap, sym, ◌∙◌,
}
use too_legit_to_jit.Object.{TValue, tvalue, lua_tnil, lua_tstring}
use too_legit_to_jit.Dictionary.{Dictionary, table_set, table_get, search_key}
use too_legit_to_jit.Dictionary.Laws.{IsStrcmp, Keyed, same_key, lookup, same_key_self}
use too_legit_to_jit.Dictionary.Map.{dictionary_insert-lookup, dictionary_search-lookup}
use too_legit_to_jit.Api.{
  pos, LuaState, index2addr, entry, lua_safepush, lua_safepop, clear_entry, clear_loop, lua_settop,
  lua_setglobal, lua_getglobal,
}

pub record IsStack (l : LuaState) : Type 0 where
  pub cells : length l.cells ≡ 20
  pub inside : l.top ≤ 20

-- the element `i` of the stack, from the bottom
abbrev pub element : LuaState → ℕ → TValue
element l i = get_or l.cells i (tvalue 0 0)

index2addr-positive : (l : LuaState) (i : ℕ) → 0 < i → i ≤ 20 → index2addr l (pos i) ≡ ok i
unfolding index2addr
index2addr-positive l zero h h' = absurd (omega arith)
index2addr-positive l (suc i) h h' = ground arith

entry-element :
    (l : LuaState) (i : ℕ) → 0 < i → i ≤ length l.cells → entry l i ≡ ok (element l (i - 1))
unfolding entry
entry-element l i h h' =
    let away : (i == 0) ≡ false = omega tests in
    rw (away, get_elem?-get_or l.cells (i - 1) (tvalue 0 0) (omega arith))

-- On a stack of 20 cells with room, a push puts the value on top and keeps the elements below, and
-- a pop gives it back and leaves the stack as high as it was.
lua_safepop-lua_safepush :
    (l : LuaState) (v : TValue)
    → IsStack l
    → l.top < 20
    → (l' : LuaState) × (lua_safepush l v ≡ ok l')
      × IsStack l'
      × ((i : ℕ) → i < l.top → element l' i ≡ element l i)
      × (lua_safepop l' ≡ ok (v, record l' { top = l.top }))
unfolding lua_safepush lua_safepop
lua_safepop-lua_safepush l v w h =
    let l' : LuaState = record l { cells = set l.cells l.top v; top = l.top + 1 } in
    let room : ltb l.top 20 ≡ true = omega tests in
    (
      l',
      rw room,
      record { cells = omega (arith, length-set l.cells l.top v, w.cells); inside = omega arith },
      (λ i p. get_or-set_ne l.cells l.top i v (tvalue 0 0) (omega arith)),
      rw (
        entry-element l' (l.top + 1) (omega arith)
            (omega (arith, length-set l.cells l.top v, w.cells)),
        back l.top,
        get_or-set_self l.cells l.top v (tvalue 0 0) (omega (arith, w.cells)),
      ),
    )
  where
    back : (n : ℕ) → n + 1 - 1 ≡ n
    back n = omega arith

clear_entry-cleared :
    (l : LuaState) (at : ℕ)
    → length l.cells ≡ 20
    → at < 20
    → (l' : LuaState) × (clear_entry l (at + 1) ≡ ok l')
      × (length l'.cells ≡ 20)
      × (l'.top ≡ l.top)
      × (l'.genv ≡ l.genv)
      × ((i : ℕ) → i ≢ at → element l' i ≡ element l i)
      × ((element l' at).t ≡ lua_tnil)
unfolding clear_entry
clear_entry-cleared l at w h =
    let nil = record (element l at) { t = lua_tnil } in
    let l' : LuaState = record l { cells = set l.cells at nil } in
    (
      l',
      rw (index2addr-positive l (at + 1) (omega arith) (omega arith), back at),
      omega (arith, length-set l.cells at nil),
      refl,
      refl,
      (λ i ne. get_or-set_ne l.cells at i nil (tvalue 0 0) (λ e. ne (sym e))),
      ap (λ (v : TValue). v.t) (get_or-set_self l.cells at nil (tvalue 0 0) (omega arith)),
    )
  where
    back : (n : ℕ) → n + 1 - 1 ≡ n
    back n = omega arith

-- the entries that `lua_settop` clears
clear_loop-cleared :
    (n at : ℕ) (l : LuaState)
    → length l.cells ≡ 20
    → at + n ≤ 20
    → (l' : LuaState) × (clear_loop n at l ≡ ok l')
      × (length l'.cells ≡ 20)
      × (l'.top ≡ l.top)
      × (l'.genv ≡ l.genv)
      × ((i : ℕ) → i < at → element l' i ≡ element l i)
      × ((i : ℕ) → at ≤ i → i < at + n → (element l' i).t ≡ lua_tnil)
unfolding clear_loop
clear_loop-cleared zero at l w h =
    (l, refl, w, refl, refl, (λ i p. refl), λ i p q. absurd (omega arith))
clear_loop-cleared (suc n) at l w h =
    let (l₁, one, w₁, top₁, genv₁, keep₁, nil₁) = clear_entry-cleared l at w (omega arith) in
    let (l', rest, w', top', genv', keep', nil') =
      clear_loop-cleared n (at + 1) l₁ w₁ (omega arith) in
    (
      l',
      rw one rest,
      w',
      top' ∙ top₁,
      genv' ∙ genv₁,
      (λ i p. keep' i (omega arith) ∙ keep₁ i (omega arith)),
      λ i p q. elim (Bool-cases (i == at)) [
        | inl y ↦ let e : i ≡ at = omega tests in rw (keep' i (omega arith), e) nil₁
        | inr other ↦ nil' i (omega tests) (omega arith)
      ],
    )

clear_none : (at : ℕ) (l : LuaState) → clear_loop 0 at l ≡ ok l
unfolding clear_loop
clear_none at l = refl

-- On a stack of 20 cells, `lua_settop` to a height from 0 to 20 gives a stack of that height: the
-- elements that it had below that height stay, those that are new are nil, and the global variables
-- stay.
pub lua_settop-element :
    (l : LuaState) (n : ℕ)
    → IsStack l
    → n ≤ 20
    → (l' : LuaState) × (lua_settop l (pos n) ≡ ok l')
      × IsStack l'
      × (l'.top ≡ n)
      × (l'.genv ≡ l.genv)
      × ((i : ℕ) → i < l.top → i < n → element l' i ≡ element l i)
      × ((i : ℕ) → l.top ≤ i → i < n → (element l' i).t ≡ lua_tnil)
unfolding lua_settop
lua_settop-element l zero w h = (
  record l { top = 0 },
  refl,
  record { cells = w.cells; inside = omega arith },
  refl,
  refl,
  (λ i p q. refl),
  λ i p q. absurd (omega arith),
)
lua_settop-element l (suc n) w h = elim (Bool-cases (leb (suc n) l.top)) [
  | inl shorter ↦
      let zero_rounds : suc n - l.top ≡ 0 = ground arith in
      (
        record l { top = suc n },
        rw (zero_rounds, clear_none l.top l, index2addr-positive l (suc n) (omega arith) h),
        record { cells = w.cells; inside = h },
        refl,
        refl,
        (λ i p q. refl),
        λ i p q. absurd (ground arith),
      )
  | inr longer ↦
      let up : l.top + (suc n - l.top) ≡ suc n = ground arith in
      let (l', cleared, w', _, genv', keep, nil) =
        clear_loop-cleared (suc n - l.top) l.top l w.cells (omega arith) in
      (
        record l' { top = suc n },
        rw (cleared, index2addr-positive l' (suc n) (omega arith) h),
        record { cells = w'; inside = h },
        refl,
        genv',
        (λ i p q. keep i p),
        λ i p q. nil i p (omega arith),
      )
]

module _ (strcmp : ℕ → ℕ → ℕ) where
  lua_setglobal-ok :
      (l : LuaState) (var : ℕ) (v : TValue) (g : Dictionary)
      → entry l l.top ≡ ok v
      → table_set strcmp l.genv (tvalue lua_tstring var) v ≡ ok g
      → lua_setglobal strcmp l var ≡ ok (record l { top = l.top - 1; genv = g })
  unfolding lua_setglobal lua_safepop
  lua_setglobal-ok l var v g e t = rw (e, t)

  lua_getglobal-ok :
      (l : LuaState) (var : ℕ) (v : TValue)
      → table_get strcmp l.genv (tvalue lua_tstring var) ≡ ok v
      → l.top < 20
      → lua_getglobal strcmp l var ≡ ok (record l { cells = set l.cells l.top v; top = l.top + 1 })
  unfolding lua_getglobal lua_safepush
  lua_getglobal-ok l var v e h = let room : ltb l.top 20 ≡ true = omega tests in rw (e, room)

module _ (strcmp : ℕ → ℕ → ℕ) (law : IsStrcmp strcmp) where
  -- Where `strcmp` gives 0 for an equivalence of addresses, the names of the global variables are
  -- strings and the stack is not empty: `lua_setglobal` and then `lua_getglobal` of one name leave
  -- the stack as it was, with its top element under that name and every other name unchanged.
  pub lua_getglobal-lua_setglobal :
      (l : LuaState) (var : ℕ)
      → IsStack l
      → 0 < l.top
      → Keyed lua_tstring l.genv
      → (g : Dictionary) × (and_then
            (lua_setglobal strcmp l var)
            (λ l'. lua_getglobal strcmp l' var)
          ≡ ok (record l { genv = g }))
        × Keyed lua_tstring g
        × (lookup strcmp lua_tstring g var ≡ some (element l (l.top - 1)))
        × ((other : ℕ)
            → same_key strcmp lua_tstring var other ≡ false
            → lookup strcmp lua_tstring g other ≡ lookup strcmp lua_tstring l.genv other)
  unfolding table_set table_get search_key
  lua_getglobal-lua_setglobal l var w h keyed =
      let v = element l (l.top - 1) in
      let key = tvalue lua_tstring var in
      let (g, inserted, keyed', found, _) =
        dictionary_insert-lookup strcmp law lua_tstring (inl refl) l.genv key v keyed refl in
      let taken =
        lua_setglobal-ok strcmp l var v g
          (entry-element l l.top h (omega (arith, w.cells, w.inside))) (rw inserted) in
      let named : lookup strcmp lua_tstring g var ≡ some v =
        found var ∙ rw (same_key_self strcmp law lua_tstring (inl refl) var) in
      let pushed =
        lua_getglobal-ok strcmp (record l { top = l.top - 1; genv = g }) var v
          (dictionary_search-lookup strcmp law lua_tstring (inl refl) g key keyed' refl ∙ rw named)
          (omega (arith, w.inside)) in
      (
        g,
        rw taken (rw (pushed, set-get_or l.cells (l.top - 1) (tvalue 0 0), back l.top h)),
        keyed',
        named,
        λ other ne. found other ∙ rw ne,
      )
    where
      back : (n : ℕ) → 0 < n → n - 1 + 1 ≡ n
      back n p = omega arith
