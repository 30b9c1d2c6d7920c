-- ===== src/Upvalues/Sharing.antt =====
-- `find_stackupval` gives one upvalue for one stack slot.
use too_legit_to_jit.Common.{
  ℕ, ◌≡◌, refl, ◌⊎◌, inl, inr, true, Bool-cases, ◌==◌, if◌then◌else◌, Option, some, none, List, [],
  ◌∷◌, ◌++◌, get_or, length, tests, ap, ◌∙◌, sym,
}
use too_legit_to_jit.Upvalues.{
  UpVal, opened, closed, Upvalues, upval_at, vreg_tvalue_offset, seek_upval, find_stackupval,
}

get_or-append_last : (xs : List UpVal) (v d : UpVal) → get_or (xs ++ v ∷ []) (length xs) d ≡ v
get_or-append_last [] v d = refl
get_or-append_last (x ∷ xs) v d = get_or-append_last xs v d

some-or-none : (o : Option ℕ) → (o ≡ none) ⊎ ((u : ℕ) × (o ≡ some u))
some-or-none none = inl refl
some-or-none (some u) = inr (u, refl)

abbrev seek_step : Upvalues → ℕ → ℕ → List ℕ → UpVal → Option ℕ
seek_step s dst u us p = elim p [
  | opened val ↦ if val == dst then some u else seek_upval s dst us
  | closed v ↦ seek_upval s dst us
]

seek_upval-step :
    (s : Upvalues) (dst u : ℕ) (us : List ℕ) (p : UpVal)
    → upval_at s u ≡ p
    → seek_upval s dst (u ∷ us) ≡ seek_step s dst u us p
unfolding seek_upval
seek_upval-step s dst u us p e = ap (seek_step s dst u us) e

seek_upval-nil : (s : Upvalues) (dst : ℕ) → seek_upval s dst [] ≡ none
unfolding seek_upval
seek_upval-nil s dst = refl

seek_upval-first :
    (s : Upvalues) (dst u : ℕ) (us : List ℕ)
    → upval_at s u ≡ opened dst
    → seek_upval s dst (u ∷ us) ≡ some u
seek_upval-first s dst u us e = seek_upval-step s dst u us (opened dst) e ∙ same dst
  where
    same : (n : ℕ) → (if n == n then some u else seek_upval s n us) ≡ some u
    same n = let y : (n == n) ≡ true = omega tests in rw y

seek_upval-opened :
    (s : Upvalues) (dst u : ℕ) (us : List ℕ)
    → seek_upval s dst us ≡ some u
    → upval_at s u ≡ opened dst
seek_upval-opened s dst u [] h = let e = seek_upval-nil s dst in cc
seek_upval-opened s dst u (w ∷ us) h = split (seek_upval-opened s dst u us) (upval_at s w) refl
  where
    split :
        (seek_upval s dst us ≡ some u → upval_at s u ≡ opened dst)
        → (p : UpVal) → upval_at s w ≡ p
        → upval_at s u ≡ opened dst
    split later (closed v) e = later (sym (seek_upval-step s dst w us (closed v) e) ∙ h)
    split later (opened val) e = elim (Bool-cases (val == dst)) [
      | inl y ↦
          let found : some w ≡ some u =
            sym (seek_upval-step s dst w us (opened val) e ∙ rw y) ∙ h in
          let at : w ≡ u = cc in
          let same : val ≡ dst = omega tests in ap (upval_at s) (sym at) ∙ e ∙ ap opened same
      | inr n ↦ later (sym (seek_upval-step s dst w us (opened val) e ∙ rw n) ∙ h)
    ]

-- `find_stackupval` returns an open upvalue that refers to the stack slot, and a second search for
-- the slot returns the same upvalue and changes nothing.
pub find_stackupval-again :
    (s : Upvalues) (stackbase idx : ℕ)
    → (u : ℕ) × (s' : Upvalues) × (find_stackupval s stackbase idx ≡ (u, s'))
      × (upval_at s' u ≡ opened (vreg_tvalue_offset stackbase idx))
      × (find_stackupval s' stackbase idx ≡ (u, s'))
unfolding find_stackupval
find_stackupval-again s stackbase idx =
    let dst = vreg_tvalue_offset stackbase idx in
    elim (some-or-none (seek_upval s dst s.openuvs)) [
      | inr (u, e) ↦ (
        u,
        s,
        rw (e, find_stackupval),
        seek_upval-opened s dst u s.openuvs e,
        rw (e, find_stackupval),
      )
      | inl e ↦
          let u = length s.upvals in
          let s' : Upvalues = record s {
            upvals = s.upvals ++ opened dst ∷ [];
            openuvs = u ∷ s.openuvs;
          } in
          let there = get_or-append_last s.upvals (opened dst) (closed (record { t = 0; v = 0 })) in
          (
            u,
            s',
            rw (e, find_stackupval),
            there,
            rw (seek_upval-first s' dst u s.openuvs there, find_stackupval),
          )
    ]
