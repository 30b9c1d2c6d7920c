-- ===== src/Driver.antt =====
-- main.c: the C function `ctest` that Lua programs can call, and the freeing of the translated
-- code. The result of `printf`, the number of bytes that it prints, is a parameter.
use too_legit_to_jit.Common.{ℕ, zero, suc, ◌+◌, List, [], ◌∷◌, ◌++◌, Result, ok, and_then}
use too_legit_to_jit.Object.{TValue}
use too_legit_to_jit.Api.{LuaState, pos, index2addr, entry, lua_gettop, lua_pushnumber}
use too_legit_to_jit.Loader.Code.{Proto, Protos, proto, no_protos, and_proto}

module _ (printf : TValue → ℕ) where
  -- the arguments from number `i` on, `left` of them; `n` is `ret.v.n`
  unfoldable pub print_args : (left i n : ℕ) → LuaState → Result ℕ
  print_args zero i n l = ok n
  print_args (suc left) i n l =
      and_then (index2addr l (pos i))
        λ a. and_then (entry l a) λ x. print_args left (i + 1) (printf x) l

  unfoldable pub ctest : LuaState → Result (ℕ × LuaState)
  unfolding print_args
  ctest l =
      and_then (print_args (lua_gettop l) 1 0 l)
        λ n. and_then (lua_pushnumber l n) λ l'. and_then (lua_pushnumber l' 77) λ l''. ok (2, l'')

-- The machine code of the functions, in the order in which its memory is freed.
unfoldable mutual
  pub cleanup : Proto → List (List ℕ)
  cleanup (proto numparams maxstacksize code code_start subp uvd) =
      cleanup_children subp ++ code ∷ []

  pub cleanup_children : Protos → List (List ℕ)
  cleanup_children no_protos = []
  cleanup_children (and_proto p ps) = cleanup p ++ cleanup_children ps
