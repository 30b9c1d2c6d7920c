-- ===== src/Tests/Tables.antt =====
-- The dictionary of listdict.c at concrete inputs, where two strings are equal at one address only.
use too_legit_to_jit.Dictionary.{table_setlist, search_key}
use too_legit_to_jit.Dictionary.Setlist.{table_setlist-lookup}
use too_legit_to_jit.Common.{
  List, ◌+◌, ◌≤◌, ◌<◌, get_elem?, ℕ, ◌≡◌, refl, inr, none, some, [], ◌∷◌, ◌==◌, if◌then◌else◌, ok,
  arith,
}
use too_legit_to_jit.Object.{TValue, tvalue, lua_tnumber}
use too_legit_to_jit.Dictionary.{
  Dictionary, dictionary_delete, dictionary_search, dictionary_insert,
}
use too_legit_to_jit.Dictionary.Laws.{IsStrcmp, Keyed, is_some, same_key, lookup, IsDistinct}
use too_legit_to_jit.Dictionary.Map.{
  or_nil, dictionary_search-lookup, dictionary_insert-lookup, dictionary_delete-lookup,
}

abbrev pub strcmp : ℕ → ℕ → ℕ
strcmp a b = if a == b then 0 else 1

pub strcmp-IsStrcmp : IsStrcmp strcmp
strcmp-IsStrcmp = record {
  same_self = λ a. ground arith;
  same_sym = λ a b h. ground arith;
  same_trans = λ a b c h h'. ground arith;
}

-- 20 under the key 1 and 30 under the key 2
abbrev two_keys : Dictionary
two_keys =
    record { k = tvalue lua_tnumber 1; v = tvalue lua_tnumber 20 }
    ∷ record { k = tvalue lua_tnumber 2; v = tvalue lua_tnumber 30 }
    ∷ []

two_keys-IsDistinct : IsDistinct strcmp lua_tnumber two_keys
unfolding lookup same_key
two_keys-IsDistinct = (refl, (refl, tt))

dictionary_search-lookup_example :
    dictionary_search strcmp two_keys (tvalue lua_tnumber 2)
    ≡ ok (or_nil (lookup strcmp lua_tnumber two_keys 2))
unfolding search_key
dictionary_search-lookup_example =
    dictionary_search-lookup strcmp strcmp-IsStrcmp lua_tnumber (inr refl) two_keys
      (tvalue lua_tnumber 2) (refl, (refl, tt)) refl

dictionary_insert-lookup_example :
    (d' : Dictionary) × (dictionary_insert strcmp two_keys
        (tvalue lua_tnumber 2)
        (tvalue lua_tnumber 40)
      ≡ ok (d', is_some (lookup strcmp lua_tnumber two_keys 2)))
    × Keyed lua_tnumber d'
    × ((b : ℕ)
        → lookup strcmp lua_tnumber d' b ≡ (
            if same_key strcmp lua_tnumber 2 b
            then some (tvalue lua_tnumber 40)
            else lookup strcmp lua_tnumber two_keys b))
    × (IsDistinct strcmp lua_tnumber two_keys → IsDistinct strcmp lua_tnumber d')
dictionary_insert-lookup_example =
    dictionary_insert-lookup strcmp strcmp-IsStrcmp lua_tnumber (inr refl) two_keys
      (tvalue lua_tnumber 2) (tvalue lua_tnumber 40) (refl, (refl, tt)) refl

dictionary_delete-lookup_example :
    (d' : Dictionary) × (dictionary_delete strcmp two_keys (tvalue lua_tnumber 1)
      ≡ ok (d', is_some (lookup strcmp lua_tnumber two_keys 1)))
    × Keyed lua_tnumber d'
    × IsDistinct strcmp lua_tnumber d'
    × ((b : ℕ)
        → lookup strcmp lua_tnumber d' b ≡ (
            if same_key strcmp lua_tnumber 1 b then none else lookup strcmp lua_tnumber two_keys b))
dictionary_delete-lookup_example =
    dictionary_delete-lookup strcmp strcmp-IsStrcmp lua_tnumber (inr refl) two_keys
      (tvalue lua_tnumber 1) (refl, (refl, tt)) refl two_keys-IsDistinct

abbrev two_values : List TValue
two_values = tvalue lua_tnumber 50 ∷ tvalue lua_tnumber 60 ∷ []

table_setlist-lookup_example :
    (d' : Dictionary) × (table_setlist strcmp two_keys two_values 2 ≡ ok d')
    × Keyed lua_tnumber d'
    × ((b : ℕ) → b < 3 → lookup strcmp lua_tnumber d' b ≡ lookup strcmp lua_tnumber two_keys b)
    × ((b : ℕ) → 5 ≤ b → lookup strcmp lua_tnumber d' b ≡ lookup strcmp lua_tnumber two_keys b)
    × ((i : ℕ) → i < 2 → lookup strcmp lua_tnumber d' (3 + i) ≡ get_elem? two_values i)
table_setlist-lookup_example =
    table_setlist-lookup strcmp strcmp-IsStrcmp two_keys two_values 2 (refl, (refl, tt))
      (omega arith)
