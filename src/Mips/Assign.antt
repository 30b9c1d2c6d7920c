-- ===== src/Mips/Assign.antt =====
-- The argument registers of arch/mips/call.c: the moves into them end, and they do what they should
-- where no argument comes round to its own register.
use too_legit_to_jit.Common.{
  ℕ, zero, suc, ◌<◌, ◌≡◌, refl, Bool, true, false, ◌&&◌, ◌||◌, not, Option, none, some, List, [],
  ◌∷◌, leb, ◌==◌, if◌then◌else◌, get_or, set, replicate, Result, ok, fail, arith, tests, ap, All,
  length, Bool-cases, inl, inr,
}
use too_legit_to_jit.Operand.{Operand, reg, direct_addr, immed, op_target_reg}
use too_legit_to_jit.Mips.Arithmetic.{reg_of}
use too_legit_to_jit.Mips.Calling.{
  Matrix, Moves, mipsreg_isarg, mipsreg_argidx, is_arg_reg, zerorow, zerorow_from, zerocol,
  zerocol_from, set_entry, resolv_rows, resolv_cycle, assign_rows, assign_passes, assign_moves,
  dep_row, dep_graph,
}

-- A source is 0 for an argument that comes from no argument register, or one more than the number
-- of the register.
abbrev pub arg_source : Operand → ℕ
arg_source o = if is_arg_reg o then suc (mipsreg_argidx (reg_of o)) else 0

abbrev pub sources : (n : ℕ) → List Operand → List ℕ
sources zero os = []
sources (suc n) [] = 0 ∷ sources n []
sources (suc n) (o ∷ os) = arg_source o ∷ sources n os

-- whether following the sources from register `i` ends within `n` steps
abbrev pub ends : (n : ℕ) → List ℕ → (i : ℕ) → Bool
ends zero cs i = false
ends (suc n) cs i = elim (get_or cs i 0) [ zero ↦ true | suc k ↦ ends n cs k ]

abbrev pub is_acyclic : List ℕ → Bool
is_acyclic cs = ends 4 cs 0 && ends 4 cs 1 && ends 4 cs 2 && ends 4 cs 3

-- the register whose value register `i` is to have
abbrev pub wanted : List ℕ → (i : ℕ) → ℕ
wanted cs i = elim (get_or cs i 0) [ zero ↦ i | suc k ↦ k ]

abbrev pub all_wanted : List ℕ → List ℕ
all_wanted cs = wanted cs 0 ∷ wanted cs 1 ∷ wanted cs 2 ∷ wanted cs 3 ∷ []

-- how many arguments come from argument registers
abbrev pub nr_sources : List ℕ → ℕ
nr_sources [] = 0
nr_sources (zero ∷ cs) = nr_sources cs
nr_sources (suc k ∷ cs) = suc (nr_sources cs)

-- Which register's first value each argument register has behind some moves between them.
abbrev pub perform : Moves → List ℕ → Option (List ℕ)
perform [] held = some held
perform ((reg d, reg s) ∷ ms) held =
    if mipsreg_isarg d && mipsreg_isarg s
    then perform ms (set held (mipsreg_argidx d) (get_or held (mipsreg_argidx s) 0))
    else none
perform (m ∷ ms) held = none

-- The same where moves from the stack take part: what comes from there is 9.
abbrev pub transfer : Moves → List ℕ → List ℕ
transfer [] held = held
transfer ((d, s) ∷ ms) held = transfer ms (
    set held (mipsreg_argidx (reg_of d))
      (if is_arg_reg s then get_or held (mipsreg_argidx (reg_of s)) 0 else 9))

-- how many of the moves go to argument register `i`
abbrev pub nr_moves_to : (i : ℕ) → Moves → ℕ
nr_moves_to i [] = 0
nr_moves_to i ((d, s) ∷ ms) =
    if is_arg_reg d && (mipsreg_argidx (reg_of d) == i)
    then suc (nr_moves_to i ms)
    else nr_moves_to i ms

abbrev pub needs_move : List ℕ → (i : ℕ) → ℕ
needs_move cs i = elim (get_or cs i 0) [ zero ↦ 0 | suc k ↦ 1 ]

-- Register `i` has as many moves as it needs, and its value is right if its sources have an end.
abbrev is_served : List ℕ → Moves → (i : ℕ) → Bool
is_served cs ms i =
    (nr_moves_to i ms == needs_move cs i)
    && (not (ends 4 cs i) || (get_or (transfer ms (0 ∷ 1 ∷ 2 ∷ 3 ∷ [])) i 0 == wanted cs i))

abbrev same : List ℕ → List ℕ → Bool
same [] [] = true
same (x ∷ xs) (y ∷ ys) = (x == y) && same xs ys
same xs ys = false

abbrev same_some : Option (List ℕ) → List ℕ → Bool
same_some none ys = false
same_some (some xs) ys = same xs ys

abbrev source_row : ℕ → List ℕ
source_row zero = replicate 4 0
source_row (suc k) = set (replicate 4 0) k 1

abbrev source_matrix : List ℕ → Matrix
source_matrix [] = []
source_matrix (c ∷ cs) = source_row c ∷ source_matrix cs

abbrev pub all_below : ℕ → (ℕ → Bool) → Bool
all_below zero P = true
all_below (suc n) P = P n && all_below n P

-- whether the moves for the sources end, and do what they should if the sources have no cycle
abbrev is_right : List ℕ → Result Moves → Bool
is_right cs (fail x) = false
is_right cs (ok ms) =
    ((length ms == nr_sources cs) && all_below 4 (is_served cs ms))
    && (not (is_acyclic cs) || same_some (perform ms (0 ∷ 1 ∷ 2 ∷ 3 ∷ [])) (all_wanted cs))

abbrev is_assigned : (sp : ℕ) → List ℕ → Bool
is_assigned sp cs = is_right cs (assign_moves 4 sp (source_matrix cs))

both-left : (p q : Bool) → (p && q) ≡ true → p ≡ true
both-left true q h = refl
both-left false q h = h

both-right : (p q : Bool) → (p && q) ≡ true → q ≡ true
both-right true q h = h
both-right false q h = cc

pub all_below-lt : (n : ℕ) (P : ℕ → Bool) (i : ℕ) → all_below n P ≡ true → i < n → P i ≡ true
all_below-lt zero P i h lt = absurd (omega arith)
all_below-lt (suc n) P i h lt = elim (Bool-cases (i == n)) [
  | inl y ↦ let e : i ≡ n = omega tests in rw e (both-left (P n) (all_below n P) h)
  | inr no_last ↦ all_below-lt n P i (both-right (P n) (all_below n P) h) (omega tests)
]

every_matrix :
    (sp : ℕ)
    → all_below 5 (λ a.
      all_below 5 λ b. all_below 5 λ c. all_below 5 λ d. is_assigned sp (a ∷ b ∷ c ∷ d ∷ []))
      ≡ true
unfolding zerorow zerorow_from zerocol zerocol_from set_entry resolv_rows resolv_cycle assign_rows
    assign_passes assign_moves op_target_reg mipsreg_isarg mipsreg_argidx is_arg_reg
every_matrix sp = refl

assigned :
    (sp a b c d : ℕ) → a < 5 → b < 5 → c < 5 → d < 5 → is_assigned sp (a ∷ b ∷ c ∷ d ∷ []) ≡ true
assigned sp a b c d ha hb hc hd =
    all_below-lt 5 (λ d. is_assigned sp (a ∷ b ∷ c ∷ d ∷ [])) d
      (all_below-lt 5 (λ c. all_below 5 λ d. is_assigned sp (a ∷ b ∷ c ∷ d ∷ [])) c
        (all_below-lt 5 (λ b. all_below 5 λ c. all_below 5 λ d. is_assigned sp (a ∷ b ∷ c ∷ d ∷ []))
          b
          (all_below-lt 5
            (λ a.
              all_below 5
                λ b. all_below 5 λ c. all_below 5 λ d. is_assigned sp (a ∷ b ∷ c ∷ d ∷ []))
            a (every_matrix sp) ha)
          hb)
        hc)
      hd

dep_row-source : (o : Operand) → (arg_source o < 5) × (dep_row o ≡ source_row (arg_source o))
unfolding dep_row is_arg_reg mipsreg_isarg mipsreg_argidx
dep_row-source (reg r) = elim (Bool-cases (leb 4 r && leb r 7)) [
  | inl y ↦ (let lt : r < 8 = ground arith in rw y (omega arith), rw y)
  | inr n ↦ (rw n (omega arith), rw n)
]
dep_row-source (direct_addr b o) = (omega arith, refl)
dep_row-source (immed k) = (omega arith, refl)

same-eq : (xs ys : List ℕ) → same xs ys ≡ true → xs ≡ ys
same-eq [] [] h = refl
same-eq [] (y ∷ ys) h = cc
same-eq (x ∷ xs) [] h = cc
same-eq (x ∷ xs) (y ∷ ys) h =
    let e : x ≡ y = omega (tests, both-left (x == y) (same xs ys) h) in
    let es = same-eq xs ys (both-right (x == y) (same xs ys) h) in cc

same_some-eq : (o : Option (List ℕ)) (ys : List ℕ) → same_some o ys ≡ true → o ≡ some ys
same_some-eq none ys h = cc
same_some-eq (some xs) ys h = ap (λ l. some l) (same-eq xs ys h)

dep_graph-sources :
    (n : ℕ) (args : List Operand) → dep_graph n args ≡ source_matrix (sources n args)
unfolding dep_graph
dep_graph-sources zero args = refl
dep_graph-sources (suc n) [] = ap (λ g. replicate 4 0 ∷ g) (dep_graph-sources n [])
dep_graph-sources (suc n) (o ∷ os) = rw ((dep_row-source o).1, dep_graph-sources n os)

sources-bound : (n : ℕ) (args : List Operand) → All (λ c. c < 5) (sources n args)
sources-bound zero args = tt
sources-bound (suc n) [] = (omega arith, sources-bound n [])
sources-bound (suc n) (o ∷ os) = ((dep_row-source o).0, sources-bound n os)

length-sources : (n : ℕ) (args : List Operand) → length (sources n args) ≡ n
length-sources zero args = refl
length-sources (suc n) [] = ap suc (length-sources n [])
length-sources (suc n) (o ∷ os) = ap suc (length-sources n os)

four-assigned :
    (sp : ℕ) (cs : List ℕ) → length cs ≡ 4 → All (λ c. c < 5) cs → is_assigned sp cs ≡ true
four-assigned sp (a ∷ b ∷ c ∷ d ∷ []) l (ha, (hb, (hc, (hd, _)))) = assigned sp a b c d ha hb hc hd
four-assigned sp [] l h = absurd (omega arith)
four-assigned sp (a ∷ []) l h = absurd (omega arith)
four-assigned sp (a ∷ b ∷ []) l h = absurd (omega arith)
four-assigned sp (a ∷ b ∷ c ∷ []) l h = absurd (omega arith)
four-assigned sp (a ∷ b ∷ c ∷ d ∷ e ∷ cs) l h = absurd (omega arith)

or-resolve : (p q : Bool) → (not p || q) ≡ true → p ≡ true → q ≡ true
or-resolve true q h e = h
or-resolve false q h e = cc

-- what the moves do to one argument register
abbrev pub IsServed : List ℕ → Moves → (i : ℕ) → Type 0
IsServed cs ms i =
    (nr_moves_to i ms ≡ needs_move cs i)
    × (ends 4 cs i ≡ true → get_or (transfer ms (0 ∷ 1 ∷ 2 ∷ 3 ∷ [])) i 0 ≡ wanted cs i)

is_served-IsServed :
    (cs : List ℕ) (ms : Moves) (i : ℕ) → is_served cs ms i ≡ true → IsServed cs ms i
is_served-IsServed cs ms i h =
    let counted = nr_moves_to i ms == needs_move cs i in
    let got = get_or (transfer ms (0 ∷ 1 ∷ 2 ∷ 3 ∷ [])) i 0 == wanted cs i in
    let right = not (ends 4 cs i) || got in
    let first : counted ≡ true = both-left counted right h in
    (
      omega (tests, first),
      λ e.
          let second : got ≡ true = or-resolve (ends 4 cs i) got (both-right counted right h) e in
          omega (tests, second),
    )

-- what the moves do to the argument registers
abbrev pub IsRight : List ℕ → Moves → Type 0
IsRight cs ms =
    (length ms ≡ nr_sources cs)
    × ((i : ℕ) → i < 4 → IsServed cs ms i)
    × (is_acyclic cs ≡ true → perform ms (0 ∷ 1 ∷ 2 ∷ 3 ∷ []) ≡ some (all_wanted cs))

IsRight-ok :
    (cs : List ℕ) (r : Result Moves)
    → is_right cs r ≡ true
    → (ms : Moves) × (r ≡ ok ms) × IsRight cs ms
IsRight-ok cs (fail x) h = cc
IsRight-ok cs (ok ms) h =
    let enough = length ms == nr_sources cs in
    let served = all_below 4 (is_served cs ms) in
    let done = same_some (perform ms (0 ∷ 1 ∷ 2 ∷ 3 ∷ [])) (all_wanted cs) in
    let checked = not (is_acyclic cs) || done in
    let both : (enough && served) ≡ true = both-left (enough && served) checked h in
    let counted : enough ≡ true = both-left enough served both in
    (
      ms,
      refl,
      (
        omega (tests, counted),
        (λ i lt.
            is_served-IsServed cs ms i
              (all_below-lt 4 (is_served cs ms) i (both-right enough served both) lt)),
        λ e.
            same_some-eq (perform ms (0 ∷ 1 ∷ 2 ∷ 3 ∷ [])) (all_wanted cs)
              (or-resolve (is_acyclic cs) done (both-right (enough && served) checked h) e),
      ),
    )

-- For the arguments of every call there are enough passes.
pub assign_moves-dep_graph :
    (sp : ℕ) (args : List Operand)
    → (ms : Moves) × (assign_moves 4 sp (dep_graph 4 args) ≡ ok ms) × IsRight (sources 4 args) ms
assign_moves-dep_graph sp args =
    let cs = sources 4 args in
    rw (dep_graph-sources 4 args) (
      IsRight-ok cs (assign_moves 4 sp (source_matrix cs))
        (four-assigned sp cs (length-sources 4 args) (sources-bound 4 args)))
