-- ===== src/Tests/Closures.antt =====
-- The upvalues of func.c at concrete inputs.
use too_legit_to_jit.Common.{ℕ, ◌≡◌, refl, [], ◌∷◌, All, ok, arith}
use too_legit_to_jit.Object.{tvalue, lua_tnumber}
use too_legit_to_jit.Upvalues.{
  opened, Upvalues, upval_at, vreg_tvalue_offset, find_stackupval, close_loop, closure_close,
}
use too_legit_to_jit.Upvalues.Closing.{upval_value, AreOpen, Ascend, Above, closure_close-value}
use too_legit_to_jit.Upvalues.Sharing.{find_stackupval-again}

-- upvalue 1 at address 90 is newer than upvalue 0 at address 100
abbrev two_open : Upvalues
two_open = record {
  upvals = opened 100 ∷ opened 90 ∷ [];
  openuvs = 1 ∷ 0 ∷ [];
  stack = λ a. tvalue lua_tnumber a;
}

closure_close-value_example :
    (s' : Upvalues) × (closure_close two_open 95 ≡ ok s')
    × ((w : ℕ) → upval_value s' w ≡ upval_value two_open w)
    × AreOpen s' s'.openuvs
    × (Ascend two_open 0 (1 ∷ 0 ∷ []) → All (Above s' 95) s'.openuvs)
closure_close-value_example =
    closure_close-value two_open 95
      ((omega arith, (90, refl)), ((λ e. omega arith), tt), ((omega arith, (100, refl)), tt, tt))

-- the same upvalues, found in the other order
abbrev other_order : Upvalues
other_order = record two_open { openuvs = 0 ∷ 1 ∷ [] }

-- The loop stops at address 100, so that address 90 stays open below the base 95.
closure_close-stops : closure_close other_order 95 ≡ ok other_order
unfolding closure_close close_loop
closure_close-stops = refl

find_stackupval-again_example :
    (u : ℕ) × (s' : Upvalues) × (find_stackupval two_open 102 2 ≡ (u, s'))
    × (upval_at s' u ≡ opened (vreg_tvalue_offset 102 2))
    × (find_stackupval s' 102 2 ≡ (u, s'))
find_stackupval-again_example = find_stackupval-again two_open 102 2
