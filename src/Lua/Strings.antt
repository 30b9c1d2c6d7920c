-- ===== src/Lua/Strings.antt =====
-- lstring.c and lmetaevent.c. The functions of the C library on strings are parameters: `strcmp`
-- returns an `int`, `has` says whether a string contains one of two characters (`strpbrk`), and
-- `strtol` gives the number and whether any character was read.
use too_legit_to_jit.Common.{
  ℕ, Bool, ◌&&◌, Option, none, some, ◌==◌, if◌then◌else◌, assertion, Result, ok, fail,
}
use too_legit_to_jit.Object.{TValue, lua_tstring}

pub record Strings : Type 0 where
  pub strcmp : ℕ → ℕ → ℕ
  pub has_n : ℕ → Bool
  pub has_x : ℕ → Bool
  pub strtol : (str base : ℕ) → Option ℕ

unfoldable pub lstrcmp : Strings → (s t : TValue) → Result ℕ
lstrcmp c s t =
    if s.t == lua_tstring && t.t == lua_tstring then ok (c.strcmp s.v t.v) else fail assertion

unfoldable pub lstrtonum : Strings → TValue → Result (Option ℕ)
lstrtonum c s =
    if s.t == lua_tstring
    then ok (if c.has_n s.v then none else if c.has_x s.v then c.strtol s.v 16 else c.strtol s.v 10)
    else fail assertion

-- There are no metatables yet: `getmt` is a null pointer.
unfoldable pub getmt : TValue → Option ℕ
getmt t = none

unfoldable pub gettm : TValue → Option TValue
gettm t = none

unfoldable pub mt_call_bintm : (tm s t : TValue) → Option TValue
mt_call_bintm tm s t = none

unfoldable pub mt_call_binmevent : (mt : ℕ) → (s t : TValue) → (event : ℕ) → Option TValue
mt_call_binmevent mt s t event = none

-- The result of the handler, if there is one.
unfoldable pub call_binmevent : (s t : TValue) → (event : ℕ) → Option TValue
unfolding getmt mt_call_binmevent
call_binmevent s t event = elim (getmt s) [ none ↦ none | some mt ↦ mt_call_binmevent mt s t event ]
