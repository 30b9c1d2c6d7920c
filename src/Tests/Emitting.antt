-- ===== src/Tests/Emitting.antt =====
-- The emitter of emitter32.c at concrete inputs.
use too_legit_to_jit.Common.{
  ℕ, ◌≡◌, refl, inl, true, false, [], ◌∷◌, ◌++◌, length, get_or, replicate, All, ok, arith,
}
use mathlib.Core.Path.{subst}
use too_legit_to_jit.Emitter.{
  vline, local_label, Emitter32, emitter32_create, ec, label_local, find_local_label, link,
}
use too_legit_to_jit.Emitter.Nearest.{IsNext, IsPrevious}
use too_legit_to_jit.Emitter.Labels.{
  labels, IsLabelled, unlabelled-IsLabelled, find_local_label-IsNext, find_local_label-IsPrevious,
  label_local-IsLabelled,
}
use too_legit_to_jit.Emitter.Link.{Patched, Elsewhere, link-Patched}

-- a branch forward to line 1 of the virtual machine, and one back to a local label
abbrev two_branches : Emitter32
two_branches = record {
  mcode = 0x10000000 ∷ 0 ∷ 0x10000000 ∷ 0 ∷ [];
  jt = 0 ∷ 3 ∷ [];
  size = 16;
  bufsize = 16;
  pc = 1;
  head =
      record { mline = 0; target = vline 1 }
      ∷ record { mline = 2; target = local_label 0 false }
      ∷ [];
  local = (1 ∷ []) ∷ replicate 9 [];
  reallocs = (8, 16) ∷ [];
}

link-Patched_example :
    (e' : Emitter32) × (link two_branches ≡ ok e')
    × All (Patched two_branches e'.mcode) (two_branches.head)
    × ((i : ℕ)
        → All (Elsewhere i) (two_branches.head)
        → get_or e'.mcode i 0 ≡ get_or (two_branches.mcode) i 0)
    × (length e'.mcode ≡ 4)
    × (e'.head ≡ [])
unfolding find_local_label
link-Patched_example =
    link-Patched two_branches
      (
        (omega arith, (3, refl, (omega arith, omega arith, omega arith))),
        ((omega arith, (1, refl, (omega arith, omega arith, omega arith))), tt),
      )
      (((λ e. omega arith), tt), (tt, tt))

abbrev two_words : Emitter32
two_words = record (emitter32_create 4) { size = 8 }

two_words-IsLabelled : IsLabelled two_words
unfolding emitter32_create
two_words-IsLabelled = unlabelled-IsLabelled two_words refl

label_local-IsLabelled_example :
    (e' : Emitter32) × (label_local two_words 3 ≡ ok e')
    × IsLabelled e'
    × (labels e' 3 ≡ labels two_words 3 ++ ec two_words ∷ [])
label_local-IsLabelled_example =
    label_local-IsLabelled two_words 3 two_words-IsLabelled (omega arith)

-- the same emitter with local label 3 at word 2
abbrev labelled : Emitter32
labelled = record two_words { local = replicate 3 [] ++ (2 ∷ []) ∷ replicate 6 [] }

labelled-IsLabelled : IsLabelled labelled
unfolding label_local emitter32_create ec
labelled-IsLabelled =
    let (e', eq, valid, _) =
      label_local-IsLabelled two_words 3 two_words-IsLabelled (omega arith) in
    let same : e' ≡ labelled = cc in subst IsLabelled same valid

find_local_label-IsNext_example :
    (l : ℕ) × (find_local_label labelled 0 3 true ≡ ok l) × IsNext 0 (labels labelled 3) l
find_local_label-IsNext_example =
    find_local_label-IsNext labelled labelled-IsLabelled 0 3 2 (inl refl) (omega arith)

find_local_label-IsPrevious_example :
    (l : ℕ) × (find_local_label labelled 5 3 false ≡ ok l) × IsPrevious 5 (labels labelled 3) l
find_local_label-IsPrevious_example =
    find_local_label-IsPrevious labelled labelled-IsLabelled 5 3 2 (inl refl) (omega arith)
