-- ===== src/Dictionary/Map.antt =====
-- What the dictionary's operations do to the map that it stands for.
use too_legit_to_jit.Common.{
  ℕ, ◌≡◌, refl, sym, inl, inr, Option, none, some, ◌∷◌, if◌then◌else◌, arith, ok, fail, Bool-cases,
  out_of_bounds, ap, ◌∙◌,
}
use too_legit_to_jit.Object.{TValue, tvalue, lua_tnil}
use too_legit_to_jit.Dictionary.{
  Node, Dictionary, list_del, dictionary_delete, search_key, dictionary_search, assign_node,
  dictionary_insert,
}
use too_legit_to_jit.Dictionary.Laws.{
  IsStrcmp, IsKeyType, Keyed, is_some, same_key, lookup, IsDistinct, find-position,
}
use too_legit_to_jit.Dictionary.Updates.{
  lookup-cong, position-lookup, lookup-assign_node, lookup-list_del, assign_node-Keyed,
  list_del-Keyed, IsDistinct-assign_node, IsDistinct-list_del,
}

-- what a search returns for a value or for none
abbrev pub or_nil : Option TValue → TValue
or_nil none = tvalue lua_tnil 0
or_nil (some v) = v

module _ (strcmp : ℕ → ℕ → ℕ) (law : IsStrcmp strcmp) (t : ℕ) (known : IsKeyType t) where
  -- Where `strcmp` gives 0 for an equivalence of addresses: in a dictionary whose keys have one
  -- type, strings or numbers, `dictionary_search` of a key of that type, where a key that is no
  -- string counts as a number, returns the value that the dictionary maps the key's value to, and
  -- nil if there is none.
  pub dictionary_search-lookup :
      (d : Dictionary) (k : TValue)
      → Keyed t d
      → (search_key k).t ≡ t
      → dictionary_search strcmp d k ≡ ok (or_nil (lookup strcmp t d k.v))
  unfolding dictionary_search
  dictionary_search-lookup d k h same = elim (position-lookup strcmp law t known d k.v) [
    | inl (p, l) ↦
        rw (find-position strcmp law t known d (search_key k) h same, search_key-v k, p, l)
    | inr (i, n, p, g, l) ↦
        rw (find-position strcmp law t known d (search_key k) h same, search_key-v k, p, l)
          (ap (λ (o : Option Node). elim o [ none ↦ fail out_of_bounds | some m ↦ ok m.v ]) g)
  ]
    where
      search_key-v : (k : TValue) → (search_key k).v ≡ k.v
      search_key-v k = ground arith

  -- Where `strcmp` gives 0 for an equivalence of addresses: in a dictionary whose keys have one
  -- type, strings or numbers, `dictionary_insert` of a key of that type succeeds: it says whether
  -- the key was there, the key then has the new value, every other key keeps its own, and neither
  -- the type of the keys nor their distinctness is lost.
  pub dictionary_insert-lookup :
      (d : Dictionary) (k v : TValue)
      → Keyed t d
      → k.t ≡ t
      → (d' : Dictionary) × (dictionary_insert strcmp d k v
          ≡ ok (d', is_some (lookup strcmp t d k.v)))
        × Keyed t d'
        × ((b : ℕ)
            → lookup strcmp t d' b
              ≡ (if same_key strcmp t k.v b then some v else lookup strcmp t d b))
        × (IsDistinct strcmp t d → IsDistinct strcmp t d')
  unfolding dictionary_insert lookup
  dictionary_insert-lookup d k v h same = elim (position-lookup strcmp law t known d k.v) [
    | inl (p, l) ↦ (
      record { k = k; v = v } ∷ d,
      rw (find-position strcmp law t known d k h same, p, l),
      (same, h),
      (λ b. refl),
      λ distinct. (l, distinct),
    )
    | inr (i, n, p, g, l) ↦ (
      assign_node i v d,
      rw (find-position strcmp law t known d k h same, p, l),
      assign_node-Keyed strcmp law t known d i v h,
      (λ b. lookup-assign_node strcmp law t known d k.v b i v p),
      λ distinct. IsDistinct-assign_node strcmp law t known d k.v i v p distinct,
    )
  ]

  -- Where `strcmp` gives 0 for an equivalence of addresses: in a dictionary whose keys are distinct
  -- and have one type, strings or numbers, `dictionary_delete` of a key of that type says whether
  -- the key was there, the key then has no value, every other key keeps its own, and the keys stay
  -- distinct and of one type.
  pub dictionary_delete-lookup :
      (d : Dictionary) (k : TValue)
      → Keyed t d
      → k.t ≡ t
      → IsDistinct strcmp t d
      → (d' : Dictionary) × (dictionary_delete strcmp d k
          ≡ ok (d', is_some (lookup strcmp t d k.v)))
        × Keyed t d'
        × IsDistinct strcmp t d'
        × ((b : ℕ)
            → lookup strcmp t d' b
              ≡ (if same_key strcmp t k.v b then none else lookup strcmp t d b))
  unfolding dictionary_delete
  dictionary_delete-lookup d k h same distinct = elim (position-lookup strcmp law t known d k.v) [
    | inl (p, l) ↦ (
      d,
      rw (find-position strcmp law t known d k h same, p, l),
      h,
      distinct,
      λ b. elim (Bool-cases (same_key strcmp t k.v b)) [
        | inl y ↦ rw y (sym (lookup-cong strcmp law t known d k.v b y) ∙ l)
        | inr no_match ↦ rw no_match
      ],
    )
    | inr (i, n, p, g, l) ↦ (
      list_del i d,
      rw (find-position strcmp law t known d k h same, p, l),
      list_del-Keyed strcmp law t known d i h,
      IsDistinct-list_del strcmp law t known d k.v i p distinct,
      λ b. lookup-list_del strcmp law t known d k.v b i distinct p,
    )
  ]
