-- ===== src/Emitter/Labels.antt =====
-- Local labels of emitter32.c: `label_local` keeps each list in order, and `find_local_label`
-- returns the nearest label on the side that is asked for.
use mathlib.Core.List.{reverse}
use too_legit_to_jit.Common.{
  ℕ, zero, suc, ◌≤◌, ◌<◌, ◌≡◌, refl, ◌⊎◌, inl, inr, true, false, Bool-cases, List, [], ◌∷◌, ◌++◌,
  ◌==◌, length, get_or, set, replicate, get_or-set_self, get_or-set_ne, ok, tests, arith, lt→ltb,
  length-set,
}
use too_legit_to_jit.Emitter.{Emitter32, nr_local_labels, ec, label_local, find_local_label}
use too_legit_to_jit.Emitter.Nearest.{
  IsAscending, Has, IsNext, IsPrevious, IsAscending-append, Has-append, Has-reverse,
  Has-reverse_back, reverse-IsDescending, first_above-IsNext, first_below-IsPrevious,
}

abbrev pub labels : Emitter32 → ℕ → List ℕ
labels e i = get_or e.local i []

-- Each list of labels is in order, and no label lies beyond the next instruction.
pub record IsLabelled (e : Emitter32) : Type 0 where
  pub slots : length e.local ≡ nr_local_labels
  pub ordered : (i : ℕ) → IsAscending 0 (labels e i)
  pub written : (i k : ℕ) → Has k (labels e i) → k ≤ ec e

get_or-empty : (i n : ℕ) → get_or {A = List ℕ} (replicate n []) i [] ≡ []
get_or-empty i zero = refl
get_or-empty zero (suc n) = refl
get_or-empty (suc i) (suc n) = get_or-empty i n

-- An emitter without a label.
pub unlabelled-IsLabelled : (e : Emitter32) → e.local ≡ replicate nr_local_labels [] → IsLabelled e
unlabelled-IsLabelled e h = record {
  slots = rw h;
  ordered = λ i. rw (h, get_or-empty i 10) tt;
  written = λ i k m. absurd (rw (h, get_or-empty i 10) at m);
}

module _ (e : Emitter32) (valid : IsLabelled e) (pc local k : ℕ)
    (has : Has k (labels e local)) where
  -- In an emitter whose lists of labels are in order, where a label stands beyond the branch, the
  -- search for the next one finds the nearest label beyond the branch.
  pub find_local_label-IsNext :
      pc < k → (l : ℕ) × (find_local_label e pc local true ≡ ok l) × IsNext pc (labels e local) l
  unfolding find_local_label
  find_local_label-IsNext h = first_above-IsNext pc 0 (labels e local) (valid.ordered local) k has h

  -- In an emitter whose lists of labels are in order, where a label stands before the branch, the
  -- search for the previous one finds the nearest label before the branch.
  pub find_local_label-IsPrevious :
      k < pc
      → (l : ℕ) × (find_local_label e pc local false ≡ ok l) × IsPrevious pc (labels e local) l
  unfolding find_local_label
  find_local_label-IsPrevious h =
      let down =
        reverse-IsDescending (ec e) 0 (labels e local) (valid.ordered local)
          (valid.written local) in
      let (l, found, near) =
        first_below-IsPrevious pc (ec e) (reverse (labels e local)) down k
          (Has-reverse_back k (labels e local) has) h in
      (
        l,
        found,
        (
          Has-reverse l (labels e local) near.0,
          near.1,
          λ j n. near.2 j (Has-reverse_back j (labels e local) n),
        ),
      )

-- In an emitter whose lists of labels are in order and end before the next instruction, for a local
-- label in range, `label_local` succeeds, puts the next instruction behind the other labels of its
-- list, and keeps every list in order, although it adds at the tail whatever place its loop finds.
pub label_local-IsLabelled :
    (e : Emitter32) (local : ℕ)
    → IsLabelled e
    → local < nr_local_labels
    → (e' : Emitter32) × (label_local e local ≡ ok e')
      × IsLabelled e'
      × (labels e' local ≡ labels e local ++ ec e ∷ [])
unfolding label_local ec
label_local-IsLabelled e local v h = (e', rw (lt→ltb local 10 h), valid, added)
  where
    new : List ℕ
    new = labels e local ++ ec e ∷ []

    e' : Emitter32
    e' = record e { local = set e.local local new }

    added : labels e' local ≡ new
    added = get_or-set_self e.local local new [] (omega (arith, v.slots))

    same : (i : ℕ) → (local ≡ i → ⊥) → labels e' i ≡ labels e i
    same i ne = get_or-set_ne e.local local i new [] ne

    split : (i : ℕ) → (local ≡ i) ⊎ (local ≡ i → ⊥)
    split i = elim (Bool-cases (local == i)) [
      | inl y ↦ inl (omega tests)
      | inr n ↦ inr (omega tests)
    ]

    ordered : (i : ℕ) → IsAscending 0 (labels e' i)
    ordered i = elim (split i) [
      | inl eq ↦
          rw (← eq, added)
            (IsAscending-append 0 (ec e) (labels e local) (v.ordered local) (omega arith)
              (v.written local))
      | inr ne ↦ rw (same i ne) (v.ordered i)
    ]

    written : (i k : ℕ) → Has k (labels e' i) → k ≤ ec e'
    written i k m = elim (split i) [
      | inl eq ↦ elim (Has-append k (ec e) (labels e local) (rw (← eq, added) at m)) [
        | inl old ↦ v.written local k old
        | inr last ↦ omega arith
      ]
      | inr ne ↦ v.written i k (rw (same i ne) at m)
    ]

    valid : IsLabelled e'
    valid = record {
      slots = omega (arith, length-set e.local local new, v.slots);
      ordered = ordered;
      written = written;
    }
