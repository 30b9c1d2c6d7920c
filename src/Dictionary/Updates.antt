-- ===== src/Dictionary/Updates.antt =====
-- How positions, assignments and deletions of listdict.c act on the map of a dictionary.
use too_legit_to_jit.Common.{
  ℕ, zero, suc, ◌≡◌, refl, sym, ◌⊎◌, inl, inr, true, false, Option, none, some, [], ◌∷◌,
  if◌then◌else◌, get_elem?, Bool-cases, ◌∙◌,
}
use too_legit_to_jit.Object.{TValue}
use too_legit_to_jit.Dictionary.{Node, Dictionary, list_del, assign_node}
use too_legit_to_jit.Dictionary.Laws.{
  IsStrcmp, IsKeyType, Keyed, same_key, lookup, position, IsDistinct, same_key_sym, same_key_trans,
}

module _ (strcmp : ℕ → ℕ → ℕ) (law : IsStrcmp strcmp) (t : ℕ) (known : IsKeyType t) where
  -- equal keys match the same keys
  same_key-cong :
      (a b c : ℕ) → same_key strcmp t a b ≡ true → same_key strcmp t a c ≡ same_key strcmp t b c
  same_key-cong a b c h = elim (Bool-cases (same_key strcmp t b c)) [
    | inl y ↦ same_key_trans strcmp law t known a b c h y ∙ sym y
    | inr n ↦ elim (Bool-cases (same_key strcmp t a c)) [
      | inl y ↦
          let z =
            same_key_trans strcmp law t known b a c (same_key_sym strcmp law t known a b h) y in
          cc
      | inr n' ↦ n' ∙ sym n
    ]
  ]

  same_key-flip : (a b : ℕ) → same_key strcmp t a b ≡ false → same_key strcmp t b a ≡ false
  same_key-flip a b n = elim (Bool-cases (same_key strcmp t b a)) [
    | inl y ↦ let z = same_key_sym strcmp law t known b a y in cc
    | inr n' ↦ n'
  ]

  -- two equal keys match the same stored keys
  same_key-right :
      (a b c : ℕ) → same_key strcmp t a b ≡ true → same_key strcmp t c a ≡ same_key strcmp t c b
  same_key-right a b c h = elim (Bool-cases (same_key strcmp t c a)) [
    | inl y ↦ y ∙ sym (same_key_trans strcmp law t known c a b y h)
    | inr n ↦ n ∙ sym (same_key-flip b c (sym (same_key-cong a b c h) ∙ same_key-flip c a n))
  ]

  pub lookup-cong :
      (d : Dictionary) (a b : ℕ)
      → same_key strcmp t a b ≡ true
      → lookup strcmp t d a ≡ lookup strcmp t d b
  unfolding lookup
  lookup-cong [] a b h = refl
  lookup-cong (n ∷ ns) a b h = elim (Bool-cases (same_key strcmp t n.k.v b)) [
    | inl y ↦ rw (same_key-right a b n.k.v h, y)
    | inr no_match ↦ rw (same_key-right a b n.k.v h, no_match) (lookup-cong ns a b h)
  ]

  -- a position behind the first node
  position-later :
      (n : Node) (ns : Dictionary) (a i : ℕ)
      → same_key strcmp t n.k.v a ≡ false
      → position strcmp t (n ∷ ns) a ≡ some i
      → (j : ℕ) × (position strcmp t ns a ≡ some j) × (i ≡ suc j)
  unfolding position
  position-later n ns a i miss h = split (position strcmp t ns a) refl
    where
      split :
          (o : Option ℕ)
          → position strcmp t ns a ≡ o
          → (j : ℕ) × (position strcmp t ns a ≡ some j) × (i ≡ suc j)
      split none e = let h' = rw (miss, e) at h in cc
      split (some j) e = (j, e, let h' = rw (miss, e) at h in cc)

  -- A search without a position finds nothing; at the position stands the value of the key.
  pub position-lookup :
      (d : Dictionary) (a : ℕ)
      → ((position strcmp t d a ≡ none) × (lookup strcmp t d a ≡ none))
        ⊎ ((i : ℕ) × (n : Node) × (position strcmp t d a ≡ some i)
            × (get_elem? d i ≡ some n)
            × (lookup strcmp t d a ≡ some n.v))
  unfolding position lookup
  position-lookup [] a = inl (refl, refl)
  position-lookup (n ∷ ns) a = elim (Bool-cases (same_key strcmp t n.k.v a)) [
    | inl y ↦ inr (0, n, rw y, refl, rw y)
    | inr no_match ↦ elim (position-lookup ns a) [
      | inl (p, l) ↦ inl (rw (no_match, p), rw (no_match, l))
      | inr (i, m, p, g, l) ↦ inr (suc i, m, rw (no_match, p), g, rw (no_match, l))
    ]
  ]

  position-nil : (a : ℕ) → position strcmp t [] a ≡ none
  unfolding position
  position-nil a = refl

  -- the first node holds the key
  position-first :
      (n : Node) (ns : Dictionary) (a i : ℕ)
      → same_key strcmp t n.k.v a ≡ true
      → position strcmp t (n ∷ ns) a ≡ some i
      → i ≡ 0
  unfolding position
  position-first n ns a i hit h = let h' : some 0 ≡ some i = rw hit at h in cc

  pub lookup-assign_node :
      (d : Dictionary) (a b i : ℕ) (v : TValue)
      → position strcmp t d a ≡ some i
      → lookup strcmp t (assign_node i v d) b
        ≡ (if same_key strcmp t a b then some v else lookup strcmp t d b)
  unfolding lookup assign_node
  lookup-assign_node [] a b i v h = let e = position-nil a in cc
  lookup-assign_node (n ∷ ns) a b i v h = elim (Bool-cases (same_key strcmp t n.k.v a)) [
    | inl hit ↦
        rw (position-first n ns a i hit h, same_key-cong n.k.v a b hit)
          (elim (Bool-cases (same_key strcmp t a b)) [ inl y ↦ rw y | inr no_match ↦ rw no_match ])
    | inr miss ↦
        let (j, p, e) = position-later n ns a i miss h in
        rw e (elim (Bool-cases (same_key strcmp t n.k.v b)) [
          | inl y ↦
              let away = same_key-flip b a (sym (same_key-cong n.k.v b a y) ∙ miss) in rw (y, away)
          | inr no_match ↦ rw no_match (lookup-assign_node ns a b j v p)
        ])
  ]

  pub lookup-list_del :
      (d : Dictionary) (a b i : ℕ)
      → IsDistinct strcmp t d
      → position strcmp t d a ≡ some i
      → lookup strcmp t (list_del i d) b
        ≡ (if same_key strcmp t a b then none else lookup strcmp t d b)
  unfolding lookup list_del
  lookup-list_del [] a b i distinct h = let e = position-nil a in cc
  lookup-list_del (n ∷ ns) a b i (fresh, distinct) h =
      elim (Bool-cases (same_key strcmp t n.k.v a)) [
        | inl hit ↦
            rw (position-first n ns a i hit h, same_key-cong n.k.v a b hit)
              (elim (Bool-cases (same_key strcmp t a b)) [
                | inl y ↦
                    rw y (sym (lookup-cong ns n.k.v b (same_key-cong n.k.v a b hit ∙ y)) ∙ fresh)
                | inr no_match ↦ rw no_match
              ])
        | inr miss ↦
            let (j, p, e) = position-later n ns a i miss h in
            rw e (elim (Bool-cases (same_key strcmp t n.k.v b)) [
              | inl y ↦
                  let away = same_key-flip b a (sym (same_key-cong n.k.v b a y) ∙ miss) in
                  rw (y, away)
              | inr no_match ↦ rw no_match (lookup-list_del ns a b j distinct p)
            ])
      ]

  pub assign_node-Keyed :
      (d : Dictionary) (i : ℕ) (v : TValue) → Keyed t d → Keyed t (assign_node i v d)
  unfolding assign_node
  assign_node-Keyed [] i v h = tt
  assign_node-Keyed (n ∷ ns) zero v h = h
  assign_node-Keyed (n ∷ ns) (suc i) v (h, hs) = (h, assign_node-Keyed ns i v hs)

  pub list_del-Keyed : (d : Dictionary) (i : ℕ) → Keyed t d → Keyed t (list_del i d)
  unfolding list_del
  list_del-Keyed [] i h = tt
  list_del-Keyed (n ∷ ns) zero h = h.1
  list_del-Keyed (n ∷ ns) (suc i) (h, hs) = (h, list_del-Keyed ns i hs)

  pub IsDistinct-assign_node :
      (d : Dictionary) (a i : ℕ) (v : TValue)
      → position strcmp t d a ≡ some i
      → IsDistinct strcmp t d
      → IsDistinct strcmp t (assign_node i v d)
  unfolding assign_node
  IsDistinct-assign_node [] a i v h distinct = tt
  IsDistinct-assign_node (n ∷ ns) a i v h (fresh, distinct) =
      elim (Bool-cases (same_key strcmp t n.k.v a)) [
        | inl hit ↦ rw (position-first n ns a i hit h) (fresh, distinct)
        | inr miss ↦
            let (j, p, e) = position-later n ns a i miss h in
            rw e (
              rw (lookup-assign_node ns a n.k.v j v p, same_key-flip n.k.v a miss) fresh,
              IsDistinct-assign_node ns a j v p distinct,
            )
      ]

  pub IsDistinct-list_del :
      (d : Dictionary) (a i : ℕ)
      → position strcmp t d a ≡ some i
      → IsDistinct strcmp t d
      → IsDistinct strcmp t (list_del i d)
  unfolding list_del
  IsDistinct-list_del [] a i h distinct = tt
  IsDistinct-list_del (n ∷ ns) a i h (fresh, distinct) =
      elim (Bool-cases (same_key strcmp t n.k.v a)) [
        | inl hit ↦ rw (position-first n ns a i hit h) distinct
        | inr miss ↦
            let (j, p, e) = position-later n ns a i miss h in
            rw e (
              rw (lookup-list_del ns a n.k.v j distinct p, same_key-flip n.k.v a miss) fresh,
              IsDistinct-list_del ns a j p distinct,
            )
      ]
