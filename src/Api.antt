-- ===== src/Api.antt =====
-- lapi.c: the stack of a C function and the global variables. The stack grows downwards from its
-- base; the entry `idx` lies `idx` cells below the base, and is the element `idx - 1` of `cells`.
-- The pointer `L->top` is kept as its distance from the base.
pub mod Laws
pub mod Call
use too_legit_to_jit.Common.{
  ℕ, zero, suc, ◌+◌, ◌-◌, Bool, ◌==◌, ltb, leb, if◌then◌else◌, List, get_elem?, get_or, set,
  replicate, [], some, none, assertion, out_of_bounds, Result, ok, fail, and_then,
}
use too_legit_to_jit.Object.{TValue, tvalue, lua_tnil, lua_tnumber, lua_tstring, lua_tlcf}
use too_legit_to_jit.Dictionary.{Dictionary, dictionary_create, table_set, table_get}

pub data ℤ : Type 0 where
  pos : ℕ → ℤ
  -- `negsuc n` is -(n + 1)
  negsuc : ℕ → ℤ

-- `LUA_MINSTACK`, and the negative of `LUA_REGISTRYINDEX`
abbrev pub lua_minstack : ℕ
lua_minstack = 20

abbrev pub registry_depth : ℕ
registry_depth = 1001000

pub record LuaState : Type 0 where
  pub cells : List TValue
  pub top : ℕ
  pub genv : Dictionary

-- `initstack`, with `LUA_MINSTACK` cells; what they hold at first is not set
unfoldable pub initstack : LuaState → LuaState
initstack l = record l { cells = replicate lua_minstack (tvalue 0 0); top = 0 }

-- `lstate_preinit`, without the fields that other modules keep
unfoldable pub lstate_preinit : LuaState
unfolding initstack
lstate_preinit = initstack (record { cells = []; top = 0; genv = dictionary_create 0 })

unfoldable pub lua_gettop : LuaState → ℕ
lua_gettop l = l.top

-- The distance of the entry from the base.
unfoldable pub index2addr : LuaState → ℤ → Result ℕ
index2addr l (pos zero) = fail assertion
index2addr l (pos (suc n)) = if leb (suc n) lua_minstack then ok (suc n) else fail assertion
index2addr l (negsuc k) =
    if ltb (k + 1) registry_depth
    then (if leb (k + 1) (l.top + 1) then ok (l.top - k) else fail assertion)
    else fail assertion

-- the entry at a distance from the base
unfoldable pub entry : LuaState → ℕ → Result TValue
entry l i =
    if i == 0
    then fail out_of_bounds
    else elim (get_elem? l.cells (i - 1)) [ none ↦ fail out_of_bounds | some v ↦ ok v ]

unfoldable pub lua_safepush : LuaState → TValue → Result LuaState
lua_safepush l v =
    if ltb l.top lua_minstack
    then ok (record l { cells = set l.cells l.top v; top = l.top + 1 })
    else fail assertion

unfoldable pub lua_safepop : LuaState → Result (TValue × LuaState)
lua_safepop l = and_then (entry l l.top) λ v. ok (v, record l { top = l.top - 1 })

-- `index2addr( L, top )->t = LUA_TNIL`, which keeps the value
unfoldable pub clear_entry : LuaState → ℕ → Result LuaState
clear_entry l i = and_then (index2addr l (pos i)) λ a. ok (record l {
  cells = set l.cells (a - 1) (record (get_or l.cells (a - 1) (tvalue 0 0)) { t = lua_tnil });
})

-- the entries behind `at`, `n` of them
unfoldable pub clear_loop : (n at : ℕ) → LuaState → Result LuaState
clear_loop zero at l = ok l
clear_loop (suc n) at l = and_then (clear_entry l (at + 1)) (clear_loop n (at + 1))

unfoldable pub lua_settop : LuaState → ℤ → Result LuaState
lua_settop l (pos zero) = ok (record l { top = 0 })
lua_settop l (pos (suc n)) =
    and_then (clear_loop (suc n - l.top) l.top l)
      λ l'. and_then (index2addr l' (pos (suc n))) λ a. ok (record l' { top = a })
lua_settop l (negsuc k) = and_then (index2addr l (negsuc k)) λ a. ok (record l { top = a })

unfoldable pub lua_pushnumber : LuaState → ℕ → Result LuaState
lua_pushnumber l n = lua_safepush l (tvalue lua_tnumber n)

unfoldable pub lua_pushcclosure : LuaState → (fn n : ℕ) → Result LuaState
lua_pushcclosure l fn n = if n == 0 then lua_safepush l (tvalue lua_tlcf fn) else fail assertion

-- `strcmp` of the C library is a parameter, as in the dictionary.
module _ (strcmp : ℕ → ℕ → ℕ) where
  unfoldable pub lua_setglobal : LuaState → (var : ℕ) → Result LuaState
  lua_setglobal l var = and_then (lua_safepop l) λ (v, l').
      and_then (table_set strcmp l'.genv (tvalue lua_tstring var) v)
        λ g. ok (record l' { genv = g })

  unfoldable pub lua_getglobal : LuaState → (var : ℕ) → Result LuaState
  lua_getglobal l var =
      and_then (table_get strcmp l.genv (tvalue lua_tstring var)) λ v. lua_safepush l v
