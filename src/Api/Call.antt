-- ===== src/Api/Call.antt =====
-- lapi.c: calls of Lua functions from C. The code that `jbs` enters is a parameter: it gets the
-- number of arguments and the place of the function, and gives the number of results and their
-- values, the first one first, with the state that it leaves.
use too_legit_to_jit.Common.{
  ℕ, zero, suc, ◌+◌, ◌-◌, ◌==◌, ltb, if◌then◌else◌, List, [], ◌∷◌, length, set, assertion,
  out_of_bounds, Result, ok, fail, and_then,
}
use too_legit_to_jit.Object.{TValue, tvalue, tag_gentype, lua_tnil, lua_tfunction}
use too_legit_to_jit.Api.{
  ℤ, pos, negsuc, LuaState, lua_gettop, index2addr, lua_safepush, lua_safepop, lua_settop,
}

infixl 20 ◌-ℤ◌ ◌+ℤ◌
-- `a - b` and `x + n` on `int`
unfoldable pub ◌-ℤ◌ : ℕ → ℕ → ℤ
a -ℤ b = if ltb a b then negsuc (b - a - 1) else pos (a - b)

unfoldable pub ◌+ℤ◌ : ℤ → ℕ → ℤ
unfolding ◌-ℤ◌
pos a +ℤ n = pos (a + n)
negsuc k +ℤ n = n -ℤ (k + 1)

-- `x - 1`
unfoldable pub pred : ℤ → ℤ
pred (pos zero) = negsuc 0
pred (pos (suc n)) = pos n
pred (negsuc k) = negsuc (k + 1)

-- a write through the result of `index2addr`
unfoldable pub write_entry : LuaState → (a : ℕ) → TValue → Result LuaState
write_entry l a v =
    if a == 0
    then fail out_of_bounds
    else if ltb (a - 1) (length l.cells)
    then ok (record l { cells = set l.cells (a - 1) v })
    else fail out_of_bounds

-- `results`, from number `i` on: those that are missing are nil, with a value that is not set
unfoldable pub call_results : (left i n : ℕ) → (src : ℕ → TValue) → List TValue
call_results zero i n src = []
call_results (suc left) i n src =
    (if ltb i n then src i else tvalue lua_tnil 0) ∷ call_results left (i + 1) n src

unfoldable pub store_results : (base : ℤ) (i : ℕ) → List TValue → LuaState → Result LuaState
store_results base i [] l = ok l
store_results base i (v ∷ vs) l =
    and_then (index2addr l (base +ℤ i))
      λ a. and_then (write_entry l a v) (store_results base (i + 1) vs)

abbrev pub Bootstrap : Type 0
Bootstrap = (nargs closure : ℕ) → LuaState → Result ((ℕ × (ℕ → TValue)) × LuaState)

unfoldable pub lua_call : Bootstrap → LuaState → (nargs nresults : ℕ) → Result LuaState
lua_call jbs l nargs nresults =
    let base = lua_gettop l -ℤ nargs in
    and_then (index2addr l base) λ closure. and_then (jbs nargs closure l) λ (r, left).
      and_then (store_results base 0 (call_results nresults 0 r.0 r.1) left)
        λ stored. lua_settop stored (pred (base +ℤ nresults))

unfoldable pub lua_pcall : LuaState → (nargs nresults msgh : ℕ) → ℕ
lua_pcall l nargs nresults msgh = 0

unfoldable pub push_values : List TValue → LuaState → Result LuaState
push_values [] l = ok l
push_values (v ∷ vs) l = and_then (lua_safepush l v) (push_values vs)

-- the values that come off the stack, the first one first
unfoldable pub pop_values : (n : ℕ) → LuaState → Result (List TValue × LuaState)
pop_values zero l = ok ([], l)
pop_values (suc n) l =
    and_then (lua_safepop l) λ (v, l'). and_then (pop_values n l') λ (vs, l''). ok (v ∷ vs, l'')

unfoldable pub lua_call_wrap :
    Bootstrap
    → LuaState
    → (f : TValue) → (args : List TValue) → (nres : ℕ) → Result (List TValue × LuaState)
lua_call_wrap jbs l f args nres =
    if tag_gentype f == lua_tfunction
    then (and_then (lua_safepush l f) λ l₁.
        and_then (push_values args l₁)
          λ l₂. and_then (lua_call jbs l₂ (length args) nres) (pop_values nres))
    else fail assertion
