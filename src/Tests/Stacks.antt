-- ===== src/Tests/Stacks.antt =====
-- The stack of lapi.c and the slots of frame.c at concrete inputs.
use too_legit_to_jit.Common.{
  ℕ, ◌≤◌, ◌<◌, ◌≡◌, refl, false, [], ◌∷◌, replicate, some, ok, and_then, arith,
}
use too_legit_to_jit.Object.{tvalue, lua_tnumber, lua_tnil, lua_tstring}
use too_legit_to_jit.Operand.{Operand}
use too_legit_to_jit.Mips.Move.{mips_mach}
use too_legit_to_jit.Frame.{vreg_to_physical_reg, pslot_to_operand}
use too_legit_to_jit.Frame.Sharing.{AreShared, pslot_to_operand-AreShared}
use too_legit_to_jit.Dictionary.{Dictionary}
use too_legit_to_jit.Dictionary.Laws.{Keyed, same_key, lookup}
use too_legit_to_jit.Api.{pos, LuaState, lua_settop, lua_setglobal, lua_getglobal}
use too_legit_to_jit.Api.Laws.{IsStack, element, lua_settop-element, lua_getglobal-lua_setglobal}
use too_legit_to_jit.Tests.Tables.{strcmp, strcmp-IsStrcmp}

pslot_to_operand-AreShared_example :
    (o : Operand) × (pslot_to_operand mips_mach 13 false ≡ ok o)
    × (pslot_to_operand mips_mach 14 false ≡ ok o → AreShared false 13 14)
pslot_to_operand-AreShared_example =
    pslot_to_operand-AreShared 13 14 false (omega arith) (omega arith)

-- The table of the MIPS machine names one register twice: the type of Lua register 6 and the value
-- of Lua register 7 share it.
mips_mach-shared : pslot_to_operand mips_mach 13 false ≡ pslot_to_operand mips_mach 14 false
unfolding pslot_to_operand vreg_to_physical_reg
mips_mach-shared = refl

-- one number on the stack, no global variable
abbrev one_number : LuaState
one_number = record {
  cells = tvalue lua_tnumber 7 ∷ replicate 19 (tvalue lua_tnil 0);
  top = 1;
  genv = [];
}

one_number-IsStack : IsStack one_number
one_number-IsStack = record { cells = refl; inside = omega arith }

lua_settop-element_example :
    (l' : LuaState) × (lua_settop one_number (pos 3) ≡ ok l')
    × IsStack l'
    × (l'.top ≡ 3)
    × (l'.genv ≡ [])
    × ((i : ℕ) → i < 1 → i < 3 → element l' i ≡ element one_number i)
    × ((i : ℕ) → 1 ≤ i → i < 3 → (element l' i).t ≡ lua_tnil)
lua_settop-element_example = lua_settop-element one_number 3 one_number-IsStack (omega arith)

lua_getglobal-lua_setglobal_example :
    (g : Dictionary) × (and_then
        (lua_setglobal strcmp one_number 5)
        (λ l'. lua_getglobal strcmp l' 5)
      ≡ ok (record one_number { genv = g }))
    × Keyed lua_tstring g
    × (lookup strcmp lua_tstring g 5 ≡ some (element one_number 0))
    × ((other : ℕ)
        → same_key strcmp lua_tstring 5 other ≡ false
        → lookup strcmp lua_tstring g other ≡ lookup strcmp lua_tstring [] other)
lua_getglobal-lua_setglobal_example =
    lua_getglobal-lua_setglobal strcmp strcmp-IsStrcmp one_number 5 one_number-IsStack (omega arith)
      tt
