-- ===== src/Emitter.antt =====
-- emitter32.c and include/emitter.h: a buffer of 32-bit instructions, the jump table from virtual
-- machine lines to instructions, and the branches whose offsets wait for the linker.
-- The lists of include/list.h are taken as the sequences that they stand for.
pub mod Grow
pub mod Nearest
pub mod Labels
pub mod Link
pub mod Steps
use Prim.Native.Nat.{bit_or}
use mathlib.Core.List.{reverse}
use too_legit_to_jit.Common.{
  ℕ, zero, suc, ◌+◌, ◌-◌, ◌*◌, ◌/◌, ◌^◌, Bool, Option, none, some, List, [], ◌∷◌, ◌++◌, ltb,
  if◌then◌else◌, length, get_elem?, get_or, set, replicate, assertion, out_of_bounds, Result, ok,
  fail, and_then,
}
use too_legit_to_jit.Word.{sub32, low16}

abbrev pub nr_local_labels : ℕ
nr_local_labels = 10

-- where a branch goes: a line of the virtual machine, or the next or the previous local label
pub data Target : Type 0 where
  vline : ℕ → Target
  local_label : (local : ℕ) (isnext : Bool) → Target

pub record Branch : Type 0 where
  pub mline : ℕ
  pub target : Target

-- `mcode` holds the words below `size`; `bufsize` is the size of the buffer in bytes. `reallocs`
-- has the old and the new size of each call of the reallocator, the last call first.
pub record Emitter32 : Type 0 where
  pub mcode : List ℕ
  pub jt : List ℕ
  pub size : ℕ
  pub bufsize : ℕ
  pub pc : ℕ
  pub head : List Branch
  pub local : List (List ℕ)
  pub reallocs : List (ℕ × ℕ)

unfoldable pub emitter32_create : ℕ → Emitter32
emitter32_create vmlines = record {
  mcode = [];
  jt = replicate vmlines 0;
  size = 0;
  bufsize = 0;
  pc = 0;
  head = [];
  local = replicate nr_local_labels [];
  reallocs = [];
}

unfoldable pub ec : Emitter32 → ℕ
ec e = e.size / 4

-- `while (_sz < _need) _sz += _sz;` on fuel
unfoldable pub grow_loop : ℕ → ℕ → ℕ → ℕ
grow_loop zero sz need = sz
grow_loop (suc fuel) sz need =
    let rest = grow_loop fuel (sz + sz) need in if ltb sz need then rest else sz

-- the size that `DASM_M_GROW` asks for
unfoldable pub grown : ℕ → ℕ → ℕ
grown sz need = grow_loop need (if ltb sz 16 then 16 else sz) need

unfoldable pub dasm_m_grow : Emitter32 → ℕ → Emitter32
unfolding grown grow_loop
dasm_m_grow e need =
    if ltb e.bufsize need
    then record e {
      bufsize = grown e.bufsize need;
      reallocs = (grown e.bufsize need / 2, grown e.bufsize need) ∷ e.reallocs;
    }
    else e

-- `a[i] = v` into a buffer whose words up to `i` are written
unfoldable pub store_word : List ℕ → ℕ → ℕ → List ℕ
store_word [] i v = v ∷ []
store_word (x ∷ xs) zero v = v ∷ xs
store_word (x ∷ xs) (suc i) v = x ∷ store_word xs i v

unfoldable pub encode_op : Emitter32 → ℕ → Emitter32
unfolding dasm_m_grow
encode_op e value =
    let g = dasm_m_grow e (e.size + 4) in
    record g { mcode = store_word g.mcode (g.size / 4) value; size = g.size + 4 }

unfoldable pub label_pc : Emitter32 → ℕ → Result Emitter32
label_pc e line =
    let e' : Emitter32 = if ltb e.pc line then record e { pc = line } else e in
    if ltb line (length e'.jt)
    then ok (record e' { jt = set e'.jt line (e'.size / 4) })
    else fail out_of_bounds

-- The source walks to the first label beyond the new one, and then adds the new one at the tail
-- whatever the walk found.
unfoldable pub label_local : Emitter32 → ℕ → Result Emitter32
unfolding ec
label_local e local =
    if ltb local nr_local_labels
    then ok (record e { local = set e.local local (get_or e.local local [] ++ ec e ∷ []) })
    else fail assertion

unfoldable pub branch_pc : Emitter32 → ℕ → Emitter32
unfolding ec
branch_pc e line = record e { head = e.head ++ record { mline = ec e; target = vline line } ∷ [] }

unfoldable pub branch_local : Emitter32 → ℕ → Bool → Emitter32
unfolding ec
branch_local e local isnext = record e {
  head = e.head ++ record { mline = ec e; target = local_label local isnext } ∷ [];
}

unfoldable pub first_above : ℕ → List ℕ → Result ℕ
first_above pc [] = fail assertion
first_above pc (l ∷ ls) = if ltb pc l then ok l else first_above pc ls

unfoldable pub first_below : ℕ → List ℕ → Result ℕ
first_below pc [] = fail assertion
first_below pc (l ∷ ls) = if ltb l pc then ok l else first_below pc ls

unfoldable pub find_local_label : Emitter32 → ℕ → ℕ → Bool → Result ℕ
unfolding first_above first_below
find_local_label e pc local isnext =
    if isnext
    then first_above pc (get_or e.local local [])
    else first_below pc (reverse (get_or e.local local []))

-- `( mcode[ mline ] & ~0xffff ) | ( offset & 0xffff )`
unfoldable pub patch_word : ℕ → ℕ → ℕ
patch_word word offset = bit_or (word / 2 ^ 16 * 2 ^ 16) (low16 offset)

-- the value of `offset` for one branch, as a bit pattern of 16 bits
unfoldable pub branch_offset : Emitter32 → Branch → Result ℕ
unfolding find_local_label
branch_offset e b = elim b.target [
  | local_label local isnext ↦
      and_then (find_local_label e b.mline local isnext) λ l. ok (low16 (sub32 l (b.mline + 1)))
  | vline line ↦ elim (get_elem? e.jt line) [
    | none ↦ fail out_of_bounds
    | some to ↦ ok (low16 (low16 (sub32 to b.mline) + (2 ^ 16 - 1)))
  ]
]

unfoldable pub link_one : Emitter32 → Branch → Result Emitter32
unfolding branch_offset patch_word
link_one e b = and_then (branch_offset e b) λ offset. elim (get_elem? e.mcode b.mline) [
  | none ↦ fail out_of_bounds
  | some word ↦ ok (record e { mcode = set e.mcode b.mline (patch_word word offset) })
]

-- `list_for_each_safe` over the branches, each patched and deleted
unfoldable pub link_loop : List Branch → Emitter32 → Result Emitter32
link_loop [] e = ok (record e { head = [] })
link_loop (b ∷ bs) e = and_then (link_one e b) (link_loop bs)

-- The buffer is cut to `size`; `bufsize` keeps its old value, as in the source. The function
-- returns `size`, a field of the result.
unfoldable pub link : Emitter32 → Result Emitter32
unfolding link_loop link_one
link e =
    and_then (link_loop e.head e) λ g. ok (record g { reallocs = (g.bufsize, g.size) ∷ g.reallocs })

-- the address of an instruction, from the section's address or the buffer's
unfoldable pub offset : Option ℕ → ℕ → ℕ → ℕ
offset code buffer index = elim code [ none ↦ buffer + index * 4 | some base ↦ base + index * 4 ]

-- `absc`: the address of the next instruction in a buffer at `buffer`
unfoldable pub absc : ℕ → Emitter32 → ℕ
absc buffer e = buffer + 4 * (e.size / 4)
