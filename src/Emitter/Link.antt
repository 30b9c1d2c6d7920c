-- ===== src/Emitter/Link.antt =====
-- `link` of emitter32.c: each branch word gets the offset that takes the processor from the branch
-- to its target, and no other word changes.
use too_legit_to_jit.Common.{
  ℕ, ◌+◌, ◌-◌, ◌/◌, ◌%◌, ◌^◌, ◌≤◌, ◌<◌, ◌≡◌, ◌≢◌, refl, Option, none, some, List, [], ◌∷◌, length,
  get_elem?, get_or, set, All, out_of_bounds, Result, ok, fail, get_elem?-get_or, All-map₂, arith,
  sym, ap, ◌∙◌, get_or-set_self, get_or-set_ne, length-set,
}
use too_legit_to_jit.Word.{sub32, low16, sext16}
use too_legit_to_jit.Word.Bits.{bit_or-disjoint}
use too_legit_to_jit.Emitter.{
  Target, vline, local_label, Branch, Emitter32, find_local_label, patch_word, branch_offset,
  link_one, link_loop, link,
}

-- What the processor does: a branch at word `at` with an immediate goes to the word behind the
-- branch plus the immediate, read as a signed number of 16 bits.
abbrev pub lands : ℕ → ℕ → ℕ
lands at word = (at + 1 + sext16 word) % 2 ^ 32

-- where a branch is meant to go
abbrev pub destination : Emitter32 → Branch → Result ℕ
destination e b = elim b.target [
  | local_label local isnext ↦ find_local_label e b.mline local isnext
  | vline line ↦ elim (get_elem? e.jt line) [ none ↦ fail out_of_bounds | some to ↦ ok to ]
]

-- Within reach of an immediate of 16 bits.
abbrev pub InReach : ℕ → ℕ → Type 0
InReach at to = (to < 2 ^ 32 - 2 ^ 16) × (at + 1 ≤ to + 2 ^ 15) × (to < at + 1 + 2 ^ 15)

-- A branch inside the code, whose target is known and within reach.
abbrev pub Resolvable : Emitter32 → Branch → Type 0
Resolvable e b =
    (b.mline < length e.mcode) × ((to : ℕ) × (destination e b ≡ ok to) × InReach b.mline to)

-- In `words` the branch goes to its target, and its upper half is that of the code of `e`.
abbrev pub Patched : Emitter32 → List ℕ → Branch → Type 0
Patched e words b =
    ((to : ℕ) × (destination e b ≡ ok to) × (lands b.mline (get_or words b.mline 0) ≡ to))
    × (get_or words b.mline 0 / 2 ^ 16 ≡ get_or e.mcode b.mline 0 / 2 ^ 16)

abbrev pub Elsewhere : ℕ → Branch → Type 0
Elsewhere i b = b.mline ≢ i

-- no two branches stand at one word
abbrev pub Apart : List Branch → Type 0
Apart [] = Unit
Apart (b ∷ bs) = All (Elsewhere b.mline) bs × Apart bs

pub patch_word-halves :
    (w o : ℕ) → (patch_word w o / 2 ^ 16 ≡ w / 2 ^ 16) × (patch_word w o % 2 ^ 16 ≡ o % 2 ^ 16)
unfolding patch_word
patch_word-halves w o =
    let sum = bit_or-disjoint 16 (w / 2 ^ 16) (low16 o) (omega arith) in
    (omega (arith, sum), omega (arith, sum))

lands-local :
    (at to w : ℕ) → InReach at to → lands at (patch_word w (low16 (sub32 to (at + 1)))) ≡ to
lands-local at to w h = ground (arith, patch_word-halves w (low16 (sub32 to (at + 1))))

lands-vline :
    (at to w : ℕ)
    → InReach at to
    → lands at (patch_word w (low16 (low16 (sub32 to at) + (2 ^ 16 - 1)))) ≡ to
lands-vline at to w h =
    ground (arith, patch_word-halves w (low16 (low16 (sub32 to at) + (2 ^ 16 - 1))))

some_of_ok :
    (o : Option ℕ) (to : ℕ)
    → (elim o [ none ↦ fail out_of_bounds | some t ↦ ok t ]) ≡ ok to
    → o ≡ some to
some_of_ok none to h = cc
some_of_ok (some t) to h = cc

-- the offset that is computed takes the branch to its target
branch_offset-lands :
    (e : Emitter32) (at to w : ℕ) (t : Target)
    → destination e (record { mline = at; target = t }) ≡ ok to
    → InReach at to
    → (o : ℕ) × (branch_offset e (record { mline = at; target = t }) ≡ ok o)
      × (lands at (patch_word w o) ≡ to)
unfolding branch_offset
branch_offset-lands e at to w (local_label local isnext) d h =
    (low16 (sub32 to (at + 1)), rw d, lands-local at to w h)
branch_offset-lands e at to w (vline line) d h = (
  low16 (low16 (sub32 to at) + (2 ^ 16 - 1)),
  rw (some_of_ok (get_elem? e.jt line) to d, branch_offset),
  lands-vline at to w h,
)

-- One branch is patched; the code elsewhere, the labels and the jump table stay.
link_one-Patched :
    (e : Emitter32) (b : Branch)
    → Resolvable e b
    → (w : ℕ) × (link_one e b ≡ ok (record e { mcode = set e.mcode b.mline w }))
      × ((to : ℕ) × (destination e b ≡ ok to) × (lands b.mline w ≡ to))
      × (w / 2 ^ 16 ≡ get_or e.mcode b.mline 0 / 2 ^ 16)
unfolding link_one
link_one-Patched e b (inside, (to, d, near)) =
    let old = get_or e.mcode b.mline 0 in
    let (o, offset, there) = branch_offset-lands e b.mline to old b.target d near in
    (
      patch_word old o,
      rw (offset, get_elem?-get_or e.mcode b.mline 0 inside),
      (to, d, there),
      (patch_word-halves old o).0,
    )

-- What the loop over the branches leaves: each patched, and the rest as it was.
abbrev Links : Emitter32 → List Branch → Emitter32 → Type 0
Links e bs e' =
    (link_loop bs e ≡ ok e')
    × All (Patched e e'.mcode) bs
    × ((i : ℕ) → All (Elsewhere i) bs → get_or e'.mcode i 0 ≡ get_or e.mcode i 0)
    × (length e'.mcode ≡ length e.mcode)
    × (e'.head ≡ [])

module _ (e : Emitter32) (b : Branch) (w : ℕ) where
  abbrev after_one : Emitter32
  after_one = record e { mcode = set e.mcode b.mline w }

  Resolvable-after_one : (c : Branch) → Resolvable e c → Resolvable after_one c
  unfolding find_local_label
  Resolvable-after_one c (inside, d) = (omega (arith, length-set e.mcode b.mline w), d)

  Patched-after_one :
      (words : List ℕ) (c : Branch)
      → Elsewhere b.mline c
      → Patched after_one words c
      → Patched e words c
  unfolding find_local_label
  Patched-after_one words c ne (there, half) = (
    there,
    half ∙ ap (λ x. x / 2 ^ 16) (get_or-set_ne e.mcode b.mline c.mline w 0 (λ q. ne (sym q))),
  )

link_loop-Links :
    (bs : List Branch) (e : Emitter32)
    → All (Resolvable e) bs
    → Apart bs
    → (e' : Emitter32) × Links e bs e'
unfolding link_loop
link_loop-Links [] e r a = (record e { head = [] }, (refl, tt, λ i h. refl, refl, refl))
link_loop-Links (b ∷ bs) e (r, rs) (a, as') =
    let (w, one, there, half) = link_one-Patched e b r in
    let (e', rest) =
      link_loop-Links bs (after_one e b w)
        (All-map₂ bs (λ c _ q. Resolvable-after_one e b w c q) rs rs) as' in
    let here : get_or e'.mcode b.mline 0 ≡ w =
      rest.2 b.mline a ∙ get_or-set_self e.mcode b.mline w 0 r.0 in
    (
      e',
      (
        rw one rest.0,
        (
          ((there.0, there.1, rw here there.2), rw here half),
          All-map₂ bs (λ c ne p. Patched-after_one e b w e'.mcode c ne p) a rest.1,
        ),
        λ i h. rest.2 i h.1 ∙ get_or-set_ne e.mcode b.mline i w 0 h.0,
        rest.3 ∙ length-set e.mcode b.mline w,
        rest.4,
      ),
    )

-- Where every branch has a target within reach and no two branches stand at one word, `link`
-- succeeds: each branch goes to its target and keeps its upper half, every other word stays, no
-- word is added or lost, and no branch is left to link.
pub link-Patched :
    (e : Emitter32)
    → All (Resolvable e) e.head
    → Apart e.head
    → (e' : Emitter32) × (link e ≡ ok e')
      × All (Patched e e'.mcode) e.head
      × ((i : ℕ) → All (Elsewhere i) e.head → get_or e'.mcode i 0 ≡ get_or e.mcode i 0)
      × (length e'.mcode ≡ length e.mcode)
      × (e'.head ≡ [])
unfolding link
link-Patched e r a =
    let (g, links) = link_loop-Links e.head e r a in
    (
      record g { reallocs = (g.bufsize, g.size) ∷ g.reallocs },
      rw (links.0),
      links.1,
      links.2,
      links.3,
      links.4,
    )
