-- ===== src/Tests/Comparisons.antt =====
-- The comparisons of libranch.c at concrete inputs, where each string is one byte, its address.
use too_legit_to_jit.Common.{
  ℕ, ◌-◌, ◌^◌, ◌≡◌, refl, false, none, List, [], ◌∷◌, ◌==◌, ltb, not, if◌then◌else◌, ok, arith,
}
use too_legit_to_jit.Object.{tvalue, lua_tstring}
use too_legit_to_jit.Lua.Strings.{Strings}
use too_legit_to_jit.Lua.Relational.{do_lt, do_leq, do_eq}
use too_legit_to_jit.Lua.Order.{IsStandard, precedes, same_text, do_leq-precedes}

abbrev by_address : ℕ → ℕ → ℕ
by_address a b = if a == b then 0 else if ltb a b then 2 ^ 32 - 1 else 1

abbrev addresses : Strings
addresses = record {
  strcmp = by_address;
  has_n = λ a. false;
  has_x = λ a. false;
  strtol = λ a b. none;
}

abbrev one_byte : ℕ → List ℕ
one_byte a = a ∷ []

addresses-IsStandard : IsStandard addresses one_byte
unfolding precedes same_text
addresses-IsStandard = record { below = λ a b. ground arith; equal = λ a b. ground arith }

do_leq-precedes_example :
    (do_lt addresses (tvalue lua_tstring 3) (tvalue lua_tstring 4)
      ≡ ok (precedes (one_byte 3) (one_byte 4)))
    × (do_leq addresses (tvalue lua_tstring 3) (tvalue lua_tstring 4)
        ≡ ok (not (precedes (one_byte 4) (one_byte 3))))
    × (do_eq addresses (tvalue lua_tstring 3) (tvalue lua_tstring 4)
        ≡ ok (same_text (one_byte 3) (one_byte 4)))
do_leq-precedes_example =
    do_leq-precedes addresses one_byte addresses-IsStandard (tvalue lua_tstring 3)
      (tvalue lua_tstring 4) refl refl
