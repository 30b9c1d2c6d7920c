-- ===== src/Xlogue/Invoke.antt =====
-- xlogue.c: the call of a C function by emitted code. The C function is a parameter, which gets the
-- state of the API and gives the number of its results and the state that it leaves.
use too_legit_to_jit.Common.{ℕ, zero, suc, List, Result, ok, and_then}
use too_legit_to_jit.Object.{TValue}
use too_legit_to_jit.Api.Call.{push_values}
use too_legit_to_jit.Api.{ℤ, pos, negsuc, LuaState, initstack, index2addr}

-- `-n`
unfoldable pub negative : ℕ → ℤ
negative zero = pos 0
negative (suc k) = negsuc k

-- The number of the results, the distance of the first one from the base of the call's stack, that
-- stack, and the state with its old stack. The source returns a pointer to the first result, into
-- an array of its own frame, which has ended by then; here the cells are what was in that array
-- when it ended. The cells of the new stack are not set at first.
unfoldable pub ljc_invokec :
    (f : LuaState → Result (ℕ × LuaState))
    → (args : List TValue) → LuaState
    → Result ((ℕ × (ℕ × List TValue)) × LuaState)
unfolding push_values negative initstack
ljc_invokec f args l = and_then (push_values args (initstack l)) λ called.
    and_then (f called) λ (nres, left).
      and_then (index2addr left (negative nres))
        λ ret. ok ((nres, (ret, left.cells)), record l { genv = left.genv })
