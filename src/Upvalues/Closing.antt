-- ===== src/Upvalues/Closing.antt =====
-- What `closure_close` does to the values of upvalues, and which ones it leaves open.
use too_legit_to_jit.Common.{
  ℕ, ◌≤◌, ◌<◌, ◌≡◌, ◌≢◌, refl, inl, inr, Bool-cases, ◌==◌, ltb, List, [], ◌∷◌, set, get_or-set_self,
  get_or-set_ne, length, length-set, All, ok, fail, assertion, if◌then◌else◌, tests, arith, sym, ap,
  ◌∙◌,
}
use too_legit_to_jit.Object.{TValue, tvalue}
use too_legit_to_jit.Upvalues.{UpVal, opened, closed, Upvalues, upval_at, close_loop, closure_close}

abbrev pub peek : (ℕ → TValue) → UpVal → TValue
peek stack (opened val) = stack val
peek stack (closed v) = v

-- the value of an upvalue
abbrev pub upval_value : Upvalues → ℕ → TValue
upval_value s u = peek s.stack (upval_at s u)

abbrev pub Refers : Upvalues → ℕ → Type 0
Refers s u = (u < length s.upvals) × ((val : ℕ) × (upval_at s u ≡ opened val))

-- The list has open upvalues only, and none twice.
abbrev pub AreOpen : Upvalues → List ℕ → Type 0
AreOpen s [] = Unit
AreOpen s (u ∷ us) = Refers s u × All (λ w. w ≢ u) us × AreOpen s us

-- The addresses ascend: what is above `low` is so for every later one too.
abbrev pub Ascend : Upvalues → ℕ → List ℕ → Type 0
Ascend s low [] = Unit
Ascend s low (u ∷ us) =
    ((val : ℕ) → upval_at s u ≡ opened val → low ≤ val)
    × ((val : ℕ) → upval_at s u ≡ opened val → Ascend s val us)

abbrev pub Above : Upvalues → ℕ → ℕ → Type 0
Above s base u = (val : ℕ) → upval_at s u ≡ opened val → base < val

-- what closing one upvalue leaves
abbrev close_one : Upvalues → ℕ → ℕ → Upvalues
close_one s u val = record s { upvals = set s.upvals u (closed (s.stack val)) }

upval_at-close_one_ne :
    (s : Upvalues) (u val w : ℕ) → w ≢ u → upval_at (close_one s u val) w ≡ upval_at s w
upval_at-close_one_ne s u val w ne =
    get_or-set_ne s.upvals u w (closed (s.stack val)) (closed (tvalue 0 0)) (λ e. ne (sym e))

upval_value-close_one :
    (s : Upvalues) (u val w : ℕ)
    → u < length s.upvals
    → upval_at s u ≡ opened val
    → upval_value (close_one s u val) w ≡ upval_value s w
upval_value-close_one s u val w inside e = elim (Bool-cases (w == u)) [
  | inl y ↦
      let same : w ≡ u = omega tests in
      let there = get_or-set_self s.upvals u (closed (s.stack val)) (closed (tvalue 0 0)) inside in
      rw same (ap (peek s.stack) there ∙ sym (ap (peek s.stack) e))
  | inr n ↦ rw (upval_at-close_one_ne s u val w (omega tests))
]

AreOpen-close_one :
    (s : Upvalues) (u val : ℕ) (us : List ℕ)
    → All (λ w. w ≢ u) us
    → AreOpen s us
    → AreOpen (close_one s u val) us
AreOpen-close_one s u val [] ne o = tt
AreOpen-close_one s u val (w ∷ us) (n, ne) ((inside, (at, e)), apart, o) = (
  (
    omega (arith, length-set s.upvals u (closed (s.stack val))),
    (at, upval_at-close_one_ne s u val w n ∙ e),
  ),
  apart,
  AreOpen-close_one s u val us ne o,
)

Ascend-close_one :
    (s : Upvalues) (u val low : ℕ) (us : List ℕ)
    → All (λ w. w ≢ u) us
    → Ascend s low us
    → Ascend (close_one s u val) low us
Ascend-close_one s u val low [] ne a = tt
Ascend-close_one s u val low (w ∷ us) (n, ne) (a, rest) = (
  (λ at e. a at (sym (upval_at-close_one_ne s u val w n) ∙ e)),
  λ at e. Ascend-close_one s u val at us ne (rest at (sym (upval_at-close_one_ne s u val w n) ∙ e)),
)

Ascend-Above :
    (s : Upvalues) (base low : ℕ) (us : List ℕ)
    → AreOpen s us
    → Ascend s low us
    → base < low
    → All (Above s base) us
Ascend-Above s base low [] o a h = tt
Ascend-Above s base low (u ∷ us) ((inside, (at, e)), apart, o) (a, rest) h = (
  (λ val e'. omega (arith, a val e')),
  Ascend-Above s base at us o (rest at e) (omega (arith, a at e)),
)

-- What a run over the list `us` leaves.
abbrev Closes : Upvalues → ℕ → List ℕ → Upvalues → Type 0
Closes s base us s' =
    (close_loop base us s ≡ ok s')
    × ((w : ℕ) → upval_value s' w ≡ upval_value s w)
    × AreOpen s' s'.openuvs
    × (Ascend s 0 us → All (Above s' base) s'.openuvs)

close_loop-opened :
    (s : Upvalues) (base u val : ℕ) (us : List ℕ)
    → upval_at s u ≡ opened val
    → close_loop base (u ∷ us) s ≡ (
        if ltb base val
        then ok (record s { openuvs = u ∷ us })
        else close_loop base us (close_one s u val))
unfolding close_loop
close_loop-opened s base u val us e =
    ap
      (λ p. elim p [
        | closed v ↦ fail assertion
        | opened at ↦
            if ltb base at
            then ok (record s { openuvs = u ∷ us })
            else close_loop base us (close_one s u at)
      ])
      e

close_loop-nil : (s : Upvalues) (base : ℕ) → close_loop base [] s ≡ ok (record s { openuvs = [] })
unfolding close_loop
close_loop-nil s base = refl

close_loop-Closes :
    (us : List ℕ) (s : Upvalues) (base : ℕ) → AreOpen s us → (s' : Upvalues) × Closes s base us s'
close_loop-Closes [] s base o =
    (record s { openuvs = [] }, (close_loop-nil s base, (λ w. refl), tt, λ a. tt))
close_loop-Closes (u ∷ us) s base ((inside, (at, e)), apart, o) = elim (Bool-cases (ltb base at)) [
  | inl above ↦ (
    record s { openuvs = u ∷ us },
    (
      rw (close_loop-opened s base u at us e, above),
      (λ w. refl),
      ((inside, (at, e)), apart, o),
      λ a. (
        (λ val e'. let same : at ≡ val = opened-eq at val (sym e ∙ e') in omega tests),
        Ascend-Above s base at us o (a.1 at e) (omega tests),
      ),
    ),
  )
  | inr below ↦
      let (s', (ran, values, open', up)) =
        close_loop-Closes us (close_one s u at) base (AreOpen-close_one s u at us apart o) in
      (
        s',
        (
          rw (close_loop-opened s base u at us e, below) ran,
          (λ w. values w ∙ upval_value-close_one s u at w inside e),
          open',
          λ a. up (Ascend-close_one s u at 0 us apart (Ascend-low s at us o (a.1 at e))),
        ),
      )
]
  where
    opened-eq : (a b : ℕ) → opened a ≡ opened b → a ≡ b
    opened-eq a b h = cc

    Ascend-low :
        (s : Upvalues) (low : ℕ) (us : List ℕ) → AreOpen s us → Ascend s low us → Ascend s 0 us
    Ascend-low s low [] o a = tt
    Ascend-low s low (u ∷ us) o (a, rest) = ((λ val e. omega arith), rest)

-- Where the list has open upvalues only and none twice, `closure_close` succeeds and keeps so:
-- every upvalue, open or closed, has the value that it had, and if the addresses of the list
-- ascend, those that stay open lie above the base.
pub closure_close-value :
    (s : Upvalues) (base : ℕ)
    → AreOpen s s.openuvs
    → (s' : Upvalues) × (closure_close s base ≡ ok s')
      × ((w : ℕ) → upval_value s' w ≡ upval_value s w)
      × AreOpen s' s'.openuvs
      × (Ascend s 0 s.openuvs → All (Above s' base) s'.openuvs)
unfolding closure_close
closure_close-value s base o =
    let (s', (ran, values, open', up)) = close_loop-Closes s.openuvs s base o in
    (s', ran, values, open', up)
