-- ===== src/Dictionary/Laws.antt =====
-- The dictionary as a finite map, where its keys have one type.
use too_legit_to_jit.Common.{
  ℕ, suc, ◌≡◌, refl, ◌⊎◌, inl, inr, Bool, true, false, Option, none, some, [], ◌∷◌, ◌==◌,
  if◌then◌else◌, ok, All, Bool-cases, arith,
}
use too_legit_to_jit.Object.{TValue, lua_tnumber, lua_tstring}
use too_legit_to_jit.Dictionary.{Dictionary, key_matches, find}

-- What the dictionary relies on: `strcmp` gives 0 for an equivalence of addresses.
pub record IsStrcmp (strcmp : ℕ → ℕ → ℕ) : Type 0 where
  pub same_self : (a : ℕ) → strcmp a a ≡ 0
  pub same_sym : (a b : ℕ) → strcmp a b ≡ 0 → strcmp b a ≡ 0
  pub same_trans : (a b c : ℕ) → strcmp a b ≡ 0 → strcmp b c ≡ 0 → strcmp a c ≡ 0

-- strings or numbers
abbrev pub IsKeyType : ℕ → Type 0
IsKeyType t = (t ≡ lua_tstring) ⊎ (t ≡ lua_tnumber)

abbrev pub Keyed : ℕ → Dictionary → Type 0
Keyed t = All (λ n. n.k.t ≡ t)

abbrev pub is_some : Option TValue → Bool
is_some none = false
is_some (some v) = true

module _ (strcmp : ℕ → ℕ → ℕ) (t : ℕ) where
  -- equality of two keys of the type `t`
  unfoldable pub same_key : ℕ → ℕ → Bool
  same_key a b = if t == lua_tstring then strcmp a b == 0 else a == b

  -- the map that a dictionary stands for
  unfoldable pub lookup : Dictionary → ℕ → Option TValue
  unfolding same_key
  lookup [] a = none
  lookup (n ∷ ns) a = if same_key n.k.v a then some n.v else lookup ns a

  -- where `find` finds a key
  unfoldable pub position : Dictionary → ℕ → Option ℕ
  unfolding same_key
  position [] a = none
  position (n ∷ ns) a =
      if same_key n.k.v a
      then some 0
      else elim (position ns a) [ none ↦ none | some i ↦ some (suc i) ]

  -- no key stands in two nodes
  abbrev pub IsDistinct : Dictionary → Type 0
  IsDistinct [] = Unit
  IsDistinct (n ∷ ns) = (lookup ns n.k.v ≡ none) × IsDistinct ns

module _ (strcmp : ℕ → ℕ → ℕ) (law : IsStrcmp strcmp) (t : ℕ) (known : IsKeyType t) where
  pub same_key_self : (a : ℕ) → same_key strcmp t a a ≡ true
  unfolding same_key
  same_key_self a = ground (arith, law.same_self a)

  pub same_key_sym : (a b : ℕ) → same_key strcmp t a b ≡ true → same_key strcmp t b a ≡ true
  unfolding same_key
  same_key_sym a b h = ground (arith, law.same_sym a b)

  pub same_key_trans :
      (a b c : ℕ)
      → same_key strcmp t a b ≡ true
      → same_key strcmp t b c ≡ true
      → same_key strcmp t a c ≡ true
  unfolding same_key
  same_key_trans a b c h h' = ground (arith, law.same_trans a b c)

  key_matches-same_key :
      (s k : TValue) → s.t ≡ t → k.t ≡ t → key_matches strcmp s k ≡ ok (same_key strcmp t s.v k.v)
  unfolding key_matches same_key
  key_matches-same_key s k h h' = ground arith

  pub find-position :
      (d : Dictionary) (k : TValue)
      → Keyed t d
      → k.t ≡ t
      → find strcmp d k ≡ ok (position strcmp t d k.v)
  unfolding find position
  find-position [] k h same = refl
  find-position (n ∷ ns) k (h, hs) same = elim (Bool-cases (same_key strcmp t n.k.v k.v)) [
    | inl y ↦ rw (key_matches-same_key n.k k h same, y)
    | inr no_match ↦
        rw (key_matches-same_key n.k k h same, no_match, find-position ns k hs same)
          (lifted (position strcmp t ns k.v))
  ]
    where
      lifted :
          (o : Option ℕ)
          → (elim o [ none ↦ ok none | some i ↦ ok (some (suc i)) ])
            ≡ ok (elim o [ none ↦ none | some i ↦ some (suc i) ])
      lifted none = refl
      lifted (some i) = refl
