-- ===== src/Dictionary/Setlist.antt =====
-- `table_setlist` of table.c stores a sequence under consecutive numbers.
use too_legit_to_jit.Common.{
  ℕ, zero, suc, ◌+◌, ◌^◌, ◌≤◌, ◌<◌, ◌≡◌, ◌≢◌, refl, inr, true, false, ◌==◌, some, List, [], ◌∷◌,
  length, get_elem?, ok, tests, arith, ◌∙◌,
}
use too_legit_to_jit.Word.{add32}
use too_legit_to_jit.Object.{TValue, tvalue, lua_tnumber}
use too_legit_to_jit.Dictionary.{Dictionary, table_set, setlist_loop, table_setlist}
use too_legit_to_jit.Dictionary.Laws.{IsStrcmp, Keyed, same_key, lookup}
use too_legit_to_jit.Dictionary.Map.{dictionary_insert-lookup}

module _ (strcmp : ℕ → ℕ → ℕ) (law : IsStrcmp strcmp) where
  -- one round: the value stands under its key, and every other key keeps its own
  table_set-lookup :
      (d : Dictionary) (key : ℕ) (v : TValue)
      → Keyed lua_tnumber d
      → (d' : Dictionary) × (table_set strcmp d (tvalue lua_tnumber key) v ≡ ok d')
        × Keyed lua_tnumber d'
        × (lookup strcmp lua_tnumber d' key ≡ some v)
        × ((b : ℕ) → b ≢ key → lookup strcmp lua_tnumber d' b ≡ lookup strcmp lua_tnumber d b)
  unfolding table_set same_key
  table_set-lookup d key v keyed =
      let (d', inserted, keyed', found, _) =
        dictionary_insert-lookup strcmp law lua_tnumber (inr refl) d (tvalue lua_tnumber key) v
          keyed refl in
      let self : (key == key) ≡ true = omega tests in
      (
        d',
        rw inserted,
        keyed',
        found key ∙ rw self,
        λ b ne. let other : (key == b) ≡ false = omega tests in found b ∙ rw other,
      )

  setlist_loop-cons :
      (d d₁ : Dictionary) (key : ℕ) (v : TValue) (vs : List TValue)
      → table_set strcmp d (tvalue lua_tnumber key) v ≡ ok d₁
      → key + 1 < 2 ^ 32
      → setlist_loop strcmp d key (v ∷ vs) ≡ setlist_loop strcmp d₁ (key + 1) vs
  unfolding setlist_loop
  setlist_loop-cons d d₁ key v vs one h =
      let next : add32 key 1 ≡ key + 1 = omega arith in rw (one, next)

  setlist_loop-nil : (d : Dictionary) (key : ℕ) → setlist_loop strcmp d key [] ≡ ok d
  unfolding setlist_loop
  setlist_loop-nil d key = refl

  setlist_loop-lookup :
      (vs : List TValue) (d : Dictionary) (key : ℕ)
      → Keyed lua_tnumber d
      → key + length vs < 2 ^ 32
      → (d' : Dictionary) × (setlist_loop strcmp d key vs ≡ ok d')
        × Keyed lua_tnumber d'
        × ((b : ℕ) → b < key → lookup strcmp lua_tnumber d' b ≡ lookup strcmp lua_tnumber d b)
        × ((b : ℕ)
            → key + length vs ≤ b
            → lookup strcmp lua_tnumber d' b ≡ lookup strcmp lua_tnumber d b)
        × ((i : ℕ) → i < length vs → lookup strcmp lua_tnumber d' (key + i) ≡ get_elem? vs i)
  setlist_loop-lookup [] d key keyed h =
      (d, setlist_loop-nil d key, keyed, (λ b p. refl), (λ b p. refl), λ i p. absurd (omega arith))
  setlist_loop-lookup (v ∷ vs) d key keyed h =
      let (d₁, one, keyed₁, here, there) = table_set-lookup d key v keyed in
      let (d', rest, keyed', low, high, at) =
        setlist_loop-lookup vs d₁ (key + 1) keyed₁ (omega arith) in
      (
        d',
        setlist_loop-cons d d₁ key v vs one (omega arith) ∙ rest,
        keyed',
        (λ b p. low b (omega arith) ∙ there b (omega arith)),
        (λ b p. high b (omega arith) ∙ there b (omega arith)),
        stored d' (low key (omega arith) ∙ here) at,
      )
    where
      stored :
          (d' : Dictionary)
          → lookup strcmp lua_tnumber d' key ≡ some v
          → ((i : ℕ) → i < length vs → lookup strcmp lua_tnumber d' (key + 1 + i) ≡ get_elem? vs i)
          → (i : ℕ) → i < length (v ∷ vs)
          → lookup strcmp lua_tnumber d' (key + i) ≡ get_elem? (v ∷ vs) i
      stored d' first at zero p = let e : key + 0 ≡ key = omega arith in rw e first
      stored d' first at (suc i) p =
          let e : key + suc i ≡ key + 1 + i = omega arith in rw e (at i (omega arith))

  table_setlist-loop :
      (d : Dictionary) (vs : List TValue) (idx : ℕ)
      → idx + 1 < 2 ^ 32
      → table_setlist strcmp d vs idx ≡ setlist_loop strcmp d (idx + 1) vs
  unfolding table_setlist
  table_setlist-loop d vs idx h = let first : add32 idx 1 ≡ idx + 1 = omega arith in rw first

  -- Where `strcmp` gives 0 for an equivalence of addresses, the keys of the table are numbers and
  -- those of the list stay below 2 ^ 32: `table_setlist` succeeds, puts the value `i` of the list
  -- under the key `idx + 1 + i`, and leaves the keys before and behind the list as they were.
  pub table_setlist-lookup :
      (d : Dictionary) (vs : List TValue) (idx : ℕ)
      → Keyed lua_tnumber d
      → idx + 1 + length vs < 2 ^ 32
      → (d' : Dictionary) × (table_setlist strcmp d vs idx ≡ ok d')
        × Keyed lua_tnumber d'
        × ((b : ℕ) → b < idx + 1 → lookup strcmp lua_tnumber d' b ≡ lookup strcmp lua_tnumber d b)
        × ((b : ℕ)
            → idx + 1 + length vs ≤ b
            → lookup strcmp lua_tnumber d' b ≡ lookup strcmp lua_tnumber d b)
        × ((i : ℕ) → i < length vs → lookup strcmp lua_tnumber d' (idx + 1 + i) ≡ get_elem? vs i)
  table_setlist-lookup d vs idx keyed h =
      let (d', ran, keyed', low, high, at) = setlist_loop-lookup vs d (idx + 1) keyed h in
      (d', table_setlist-loop d vs idx (omega arith) ∙ ran, keyed', low, high, at)
