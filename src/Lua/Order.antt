-- ===== src/Lua/Order.antt =====
-- The comparisons of libranch.c on strings, against the lexicographic order of their bytes.
use too_legit_to_jit.Common.{
  ℕ, ◌≡◌, refl, Bool, true, false, not, ◌||◌, ◌&&◌, List, [], ◌∷◌, ◌==◌, ltb, if◌then◌else◌, ok,
  arith,
}
use too_legit_to_jit.Word.{is_negative}
use too_legit_to_jit.Object.{TValue, lua_tstring}
use too_legit_to_jit.Lua.Strings.{Strings, lstrcmp}
use too_legit_to_jit.Lua.Relational.{do_lt, do_leq, do_eq}

-- whether a text comes before another one in the order of its first byte that differs; a text comes
-- before those that it begins
unfoldable pub precedes : (xs ys : List ℕ) → Bool
precedes [] [] = false
precedes [] (y ∷ ys) = true
precedes (x ∷ xs) [] = false
precedes (x ∷ xs) (y ∷ ys) = let rest = precedes xs ys in if x == y then rest else ltb x y

unfoldable pub same_text : (xs ys : List ℕ) → Bool
same_text [] [] = true
same_text [] (y ∷ ys) = false
same_text (x ∷ xs) [] = false
same_text (x ∷ xs) (y ∷ ys) = (x == y) && same_text xs ys

-- `strcmp` as the C standard has it: `bytes a` are the bytes, as unsigned characters, of the string
-- at the address `a` up to its end.
pub record IsStandard (c : Strings) (bytes : ℕ → List ℕ) : Type 0 where
  pub below : (a b : ℕ) → is_negative (c.strcmp a b) ≡ precedes (bytes a) (bytes b)
  pub equal : (a b : ℕ) → (c.strcmp a b == 0) ≡ same_text (bytes a) (bytes b)

-- of two texts the one precedes the other, or the other way round, or they are the same
precedes_total : (xs ys : List ℕ) → (precedes xs ys || same_text xs ys) ≡ not (precedes ys xs)
unfolding precedes same_text
precedes_total [] [] = refl
precedes_total [] (y ∷ ys) = refl
precedes_total (x ∷ xs) [] = refl
precedes_total (x ∷ xs) (y ∷ ys) = ground (arith, precedes_total xs ys)

-- Where `strcmp` is the one of the C standard, the three relations of Lua on two strings are those
-- of the lexicographic order of their bytes: `do_lt` says whether the first precedes the second,
-- `do_leq` whether the second does not precede the first, and `do_eq` whether they have the same
-- bytes.
pub do_leq-precedes :
    (c : Strings) (bytes : ℕ → List ℕ)
    → IsStandard c bytes
    → (s t : TValue) → s.t ≡ lua_tstring
    → t.t ≡ lua_tstring
    → (do_lt c s t ≡ ok (precedes (bytes s.v) (bytes t.v)))
      × (do_leq c s t ≡ ok (not (precedes (bytes t.v) (bytes s.v))))
      × (do_eq c s t ≡ ok (same_text (bytes s.v) (bytes t.v)))
unfolding do_lt do_leq do_eq lstrcmp
do_leq-precedes c bytes v s t hs ht = (
  rw (hs, ht, v.below s.v t.v),
  rw (hs, ht, v.below s.v t.v, v.equal s.v t.v, precedes_total (bytes s.v) (bytes t.v)),
  rw (hs, ht, v.equal s.v t.v),
)
