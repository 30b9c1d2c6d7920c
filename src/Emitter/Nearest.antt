-- ===== src/Emitter/Nearest.antt =====
-- Lists of labels in order, and the searches of `find_local_label` in emitter32.c on them.
use mathlib.Core.List.{reverse, reverse-append}
use too_legit_to_jit.Common.{
  ℕ, ◌≤◌, ◌<◌, ◌≡◌, refl, ◌⊎◌, inl, inr, false, Bool-cases, List, [], ◌∷◌, ◌++◌, ltb, ok, tests,
  arith,
}
use too_legit_to_jit.Emitter.{first_above, first_below}

-- ascending, from `lo` on
abbrev pub IsAscending : ℕ → List ℕ → Type 0
IsAscending lo [] = Unit
IsAscending lo (x ∷ xs) = (lo ≤ x) × IsAscending x xs

abbrev pub IsDescending : ℕ → List ℕ → Type 0
IsDescending hi [] = Unit
IsDescending hi (x ∷ xs) = (x ≤ hi) × IsDescending x xs

abbrev pub Has : ℕ → List ℕ → Type 0
Has l [] = ⊥
Has l (x ∷ xs) = (l ≡ x) ⊎ Has l xs

-- `l` is the least of `ls` above `pc`; `l` is the greatest of `ls` below `pc`.
abbrev pub IsNext : ℕ → List ℕ → ℕ → Type 0
IsNext pc ls l = Has l ls × (pc < l) × ((k : ℕ) → Has k ls → pc < k → l ≤ k)

abbrev pub IsPrevious : ℕ → List ℕ → ℕ → Type 0
IsPrevious pc ls l = Has l ls × (l < pc) × ((k : ℕ) → Has k ls → k < pc → k ≤ l)

IsAscending-le : (lo k : ℕ) (xs : List ℕ) → IsAscending lo xs → Has k xs → lo ≤ k
IsAscending-le lo k [] a m = elim m [ ]
IsAscending-le lo k (x ∷ xs) (h, t) (inl e) = omega arith
IsAscending-le lo k (x ∷ xs) (h, t) (inr m) = omega (arith, IsAscending-le x k xs t m)

IsDescending-le : (hi k : ℕ) (xs : List ℕ) → IsDescending hi xs → Has k xs → k ≤ hi
IsDescending-le hi k [] a m = elim m [ ]
IsDescending-le hi k (x ∷ xs) (h, t) (inl e) = omega arith
IsDescending-le hi k (x ∷ xs) (h, t) (inr m) = omega (arith, IsDescending-le x k xs t m)

pub IsAscending-append :
    (lo v : ℕ) (xs : List ℕ)
    → IsAscending lo xs
    → lo ≤ v
    → ((k : ℕ) → Has k xs → k ≤ v)
    → IsAscending lo (xs ++ v ∷ [])
IsAscending-append lo v [] a h below = (h, tt)
IsAscending-append lo v (x ∷ xs) (a, t) h below =
    (a, IsAscending-append x v xs t (below x (inl refl)) (λ k m. below k (inr m)))

IsDescending-append :
    (hi v : ℕ) (xs : List ℕ)
    → IsDescending hi xs
    → v ≤ hi
    → ((k : ℕ) → Has k xs → v ≤ k)
    → IsDescending hi (xs ++ v ∷ [])
IsDescending-append hi v [] a h above = (h, tt)
IsDescending-append hi v (x ∷ xs) (a, t) h above =
    (a, IsDescending-append x v xs t (above x (inl refl)) (λ k m. above k (inr m)))

pub Has-append : (k v : ℕ) (xs : List ℕ) → Has k (xs ++ v ∷ []) → Has k xs ⊎ (k ≡ v)
Has-append k v [] (inl e) = inr e
Has-append k v [] (inr m) = absurd m
Has-append k v (x ∷ xs) (inl e) = inl (inl e)
Has-append k v (x ∷ xs) (inr m) = elim (Has-append k v xs m) [ inl h ↦ inl (inr h) | inr e ↦ inr e ]

Has-append_left : (k v : ℕ) (xs : List ℕ) → Has k xs → Has k (xs ++ v ∷ [])
Has-append_left k v [] m = elim m [ ]
Has-append_left k v (x ∷ xs) (inl e) = inl e
Has-append_left k v (x ∷ xs) (inr m) = inr (Has-append_left k v xs m)

Has-append_last : (v : ℕ) (xs : List ℕ) → Has v (xs ++ v ∷ [])
Has-append_last v [] = inl refl
Has-append_last v (x ∷ xs) = inr (Has-append_last v xs)

pub Has-reverse : (k : ℕ) (xs : List ℕ) → Has k (reverse xs) → Has k xs
Has-reverse k [] m = m
Has-reverse k (x ∷ xs) m =
    elim (Has-append k x (reverse xs) (rw (reverse-append (x ∷ []) xs) at m)) [
      | inl h ↦ inr (Has-reverse k xs h)
      | inr e ↦ inl e
    ]

pub Has-reverse_back : (k : ℕ) (xs : List ℕ) → Has k xs → Has k (reverse xs)
Has-reverse_back k [] m = elim m [ ]
Has-reverse_back k (x ∷ xs) (inl e) =
    rw (reverse-append (x ∷ []) xs, e) (Has-append_last x (reverse xs))
Has-reverse_back k (x ∷ xs) (inr m) =
    rw (reverse-append (x ∷ []) xs) (Has-append_left k x (reverse xs) (Has-reverse_back k xs m))

-- a bound on the labels, as a bound on the first of the reversed list
pub reverse-IsDescending :
    (hi lo : ℕ) (xs : List ℕ)
    → IsAscending lo xs
    → ((k : ℕ) → Has k xs → k ≤ hi)
    → IsDescending hi (reverse xs)
reverse-IsDescending hi lo [] a below = tt
reverse-IsDescending hi lo (x ∷ xs) (a, t) below = rw (reverse-append (x ∷ []) xs) (
    IsDescending-append hi x (reverse xs) (reverse-IsDescending hi x xs t (λ k m. below k (inr m)))
      (below x (inl refl)) (λ k m. IsAscending-le x k xs t (Has-reverse k xs m)))

pub first_above-IsNext :
    (pc lo : ℕ) (ls : List ℕ)
    → IsAscending lo ls
    → (k : ℕ) → Has k ls
    → pc < k
    → (l : ℕ) × (first_above pc ls ≡ ok l) × IsNext pc ls l
unfolding first_above
first_above-IsNext pc lo [] a k m h = elim m [ ]
first_above-IsNext pc lo (x ∷ xs) (a, t) k m h = elim (Bool-cases (ltb pc x)) [
  | inl hit ↦ (x, rw hit, (inl refl, omega tests, least))
  | inr miss ↦
      let (l, found, near) = first_above-IsNext pc x xs t k (later miss) h in
      (l, rw miss found, (inr near.0, near.1, skip miss l near.2))
]
  where
    least : (j : ℕ) → Has j (x ∷ xs) → pc < j → x ≤ j
    least j (inl e) p = omega arith
    least j (inr n) p = IsAscending-le x j xs t n

    later : ltb pc x ≡ false → Has k xs
    later miss = elim m [ inl e ↦ absurd (omega tests) | inr n ↦ n ]

    skip :
        ltb pc x ≡ false
        → (l : ℕ) → ((j : ℕ) → Has j xs → pc < j → l ≤ j)
        → (j : ℕ) → Has j (x ∷ xs)
        → pc < j
        → l ≤ j
    skip miss l low j (inl e) p = absurd (omega tests)
    skip miss l low j (inr n) p = low j n p

pub first_below-IsPrevious :
    (pc hi : ℕ) (ls : List ℕ)
    → IsDescending hi ls
    → (k : ℕ) → Has k ls
    → k < pc
    → (l : ℕ) × (first_below pc ls ≡ ok l) × IsPrevious pc ls l
unfolding first_below
first_below-IsPrevious pc hi [] a k m h = elim m [ ]
first_below-IsPrevious pc hi (x ∷ xs) (a, t) k m h = elim (Bool-cases (ltb x pc)) [
  | inl hit ↦ (x, rw hit, (inl refl, omega tests, greatest))
  | inr miss ↦
      let (l, found, near) = first_below-IsPrevious pc x xs t k (later miss) h in
      (l, rw miss found, (inr near.0, near.1, skip miss l near.2))
]
  where
    greatest : (j : ℕ) → Has j (x ∷ xs) → j < pc → j ≤ x
    greatest j (inl e) p = omega arith
    greatest j (inr n) p = IsDescending-le x j xs t n

    later : ltb x pc ≡ false → Has k xs
    later miss = elim m [ inl e ↦ absurd (omega tests) | inr n ↦ n ]

    skip :
        ltb x pc ≡ false
        → (l : ℕ) → ((j : ℕ) → Has j xs → j < pc → j ≤ l)
        → (j : ℕ) → Has j (x ∷ xs)
        → j < pc
        → j ≤ l
    skip miss l high j (inl e) p = absurd (omega tests)
    skip miss l high j (inr n) p = high j n p
