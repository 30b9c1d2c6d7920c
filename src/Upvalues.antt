-- ===== src/Upvalues.antt =====
-- func.c: upvalues and closures. The stack is addressed by values, and grows downwards. An upvalue
-- is a number, its place in `upvals`; it refers to the stack while it is open, and holds its value
-- when it is closed. `openuvs` has the open ones, the newest first.
pub mod Closing
pub mod Sharing
use too_legit_to_jit.Common.{
  ℕ, zero, suc, ◌+◌, ◌-◌, Bool, ◌==◌, ltb, if◌then◌else◌, Option, none, some, List, [], ◌∷◌, ◌++◌,
  length, get_elem?, get_or, set, assertion, out_of_bounds, Result, ok, fail, and_then,
}
use too_legit_to_jit.Object.{TValue, tvalue}

pub data UpVal : Type 0 where
  opened : (val : ℕ) → UpVal
  closed : (v : TValue) → UpVal

pub record Upvalues : Type 0 where
  pub upvals : List UpVal
  pub openuvs : List ℕ
  pub stack : ℕ → TValue

abbrev pub upval_at : Upvalues → ℕ → UpVal
upval_at s u = get_or s.upvals u (closed (tvalue 0 0))

unfoldable pub vreg_tvalue_offset : (base idx : ℕ) → ℕ
vreg_tvalue_offset base idx = base - idx

-- the first open upvalue that refers to the address
unfoldable pub seek_upval : Upvalues → (dst : ℕ) → List ℕ → Option ℕ
seek_upval s dst [] = none
seek_upval s dst (u ∷ us) =
    let rest = seek_upval s dst us in
    elim (upval_at s u) [ opened val ↦ if val == dst then some u else rest | closed v ↦ rest ]

unfoldable pub find_stackupval : Upvalues → (stackbase idx : ℕ) → ℕ × Upvalues
find_stackupval s stackbase idx =
    let dst = vreg_tvalue_offset stackbase idx in
    elim (seek_upval s dst s.openuvs) [
      | some u ↦ (u, s)
      | none ↦ (
        length s.upvals,
        record s { upvals = s.upvals ++ opened dst ∷ []; openuvs = length s.upvals ∷ s.openuvs },
      )
    ]

-- The loop over the open upvalues, up to its `break`.
unfoldable pub close_loop : (stackbase : ℕ) → List ℕ → Upvalues → Result Upvalues
close_loop stackbase [] s = ok (record s { openuvs = [] })
close_loop stackbase (u ∷ us) s = elim (upval_at s u) [
  | closed v ↦ fail assertion
  | opened val ↦
      if ltb stackbase val
      then ok (record s { openuvs = u ∷ us })
      else close_loop stackbase us (record s { upvals = set s.upvals u (closed (s.stack val)) })
]

unfoldable pub closure_close : Upvalues → (stackbase : ℕ) → Result Upvalues
closure_close s stackbase = close_loop stackbase s.openuvs s

-- `struct upval_desc`
pub record UpvalDesc : Type 0 where
  pub instack : Bool
  pub idx : ℕ

-- The upvalues of the new closure; `parent` has those of the closure around it.
unfoldable pub closure_create :
    Upvalues
    → (uvd : List UpvalDesc) → (parent : List ℕ) → (stackbase : ℕ) → Result (List ℕ × Upvalues)
closure_create s [] parent stackbase = ok ([], s)
closure_create s (d ∷ ds) parent stackbase =
    if d.instack
    then (let (u, s') = find_stackupval s stackbase d.idx in
        and_then (closure_create s' ds parent stackbase) λ (us, s''). ok (u ∷ us, s''))
    else elim (get_elem? parent d.idx) [
      | none ↦ fail out_of_bounds
      | some u ↦ and_then (closure_create s ds parent stackbase) λ (us, s''). ok (u ∷ us, s'')
    ]
