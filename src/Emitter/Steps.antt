-- ===== src/Emitter/Steps.antt =====
-- What an emitter goes through in a translation: any sequence of words, labels and branches. A
-- branch is noted right before its word is written.
use too_legit_to_jit.Common.{
  ℕ, ◌+◌, ◌/◌, ◌≤◌, ◌<◌, ◌≡◌, ◌≢◌, ◌∙◌, refl, sym, List, [], ◌∷◌, ◌++◌, All, All-map₂, length,
  get_or, ltb, Bool, Bool-cases, inl, inr, set, ok, fail, out_of_bounds, Result, arith, lt→ltb,
}
use mathlib.Core.Path.{subst}
use too_legit_to_jit.Emitter.{
  Emitter32, Branch, Target, local_label, vline, emitter32_create, encode_op, dasm_m_grow, ec,
  nr_local_labels, label_local, label_pc, branch_local, branch_pc, link,
}
use too_legit_to_jit.Emitter.Grow.{IsBuffer, emitter32_create-IsBuffer, encode_op-IsBuffer}
use too_legit_to_jit.Emitter.Labels.{IsLabelled, unlabelled-IsLabelled, label_local-IsLabelled}
use too_legit_to_jit.Emitter.Link.{
  destination, InReach, Patched, Apart, Elsewhere, Resolvable, link-Patched,
}

pub data Step (e : Emitter32) : Emitter32 → Type 0 where
  word : (w : ℕ) → Step e (encode_op e w)
  mark :
      {e' : Emitter32} (local : ℕ)
      → local < nr_local_labels
      → label_local e local ≡ ok e'
      → Step e e'
  line : {e' : Emitter32} (vline : ℕ) → label_pc e vline ≡ ok e' → Step e e'
  jump_local :
      (local : ℕ) (isnext : Bool) (w : ℕ) → Step e (encode_op (branch_local e local isnext) w)
  jump_line : (vline w : ℕ) → Step e (encode_op (branch_pc e vline) w)

-- an emitter that a translation comes to
pub data Translation : Emitter32 → Type 0 where
  new : (vmlines : ℕ) → Translation (emitter32_create vmlines)
  next : {e e' : Emitter32} → Translation e → Step e e' → Translation e'

-- The buffer is valid, the labels are in order, and the branches are in the code and apart.
pub record IsSound (e : Emitter32) : Type 0 where
  pub buffer : IsBuffer e
  pub labelled : IsLabelled e
  pub written : All (λ b. b.mline < ec e) e.head
  pub apart : Apart e.head

-- what `ENCODE_OP` keeps
encode_op_keeps :
    (e : Emitter32) (w : ℕ)
    → ((encode_op e w).local ≡ e.local)
      × ((encode_op e w).head ≡ e.head)
      × ((encode_op e w).size ≡ e.size + 4)
unfolding encode_op dasm_m_grow
encode_op_keeps e w = elim (Bool-cases (ltb e.bufsize (e.size + 4))) [
  | inl y ↦ rw y (refl, refl, refl)
  | inr n ↦ rw n (refl, refl, refl)
]

encode_op-IsLabelled : (e : Emitter32) (w : ℕ) → IsLabelled e → IsLabelled (encode_op e w)
unfolding ec
encode_op-IsLabelled e w v =
    let (local, _, size) = encode_op_keeps e w in
    record {
      slots = rw local (v.slots);
      ordered = λ i. rw local (v.ordered i);
      written = λ i k h. omega (arith, size, v.written i k (rw local at h));
    }

All-append_one :
    (bs : List Branch) (b : Branch) (k : ℕ)
    → All (λ c. c.mline < k) bs
    → b.mline < k
    → All (λ c. c.mline < k) (bs ++ b ∷ [])
All-append_one [] b k h h' = (h', tt)
All-append_one (c ∷ bs) b k (h, hs) h' = (h, All-append_one bs b k hs h')

Apart-append_one :
    (bs : List Branch) (b : Branch)
    → All (λ c. c.mline < b.mline) bs
    → Apart bs
    → Apart (bs ++ b ∷ [])
Apart-append_one [] b h a = (tt, tt)
Apart-append_one (c ∷ bs) b (h, hs) (a, as') = (elsewhere bs a, Apart-append_one bs b hs as')
  where
    elsewhere :
        (cs : List Branch) → All (Elsewhere c.mline) cs → All (Elsewhere c.mline) (cs ++ b ∷ [])
    elsewhere [] q = ((λ e. omega (arith, e, h)), tt)
    elsewhere (d ∷ cs) (q, qs) = (q, elsewhere cs qs)

All-lt :
    (bs : List Branch) (k k' : ℕ) → k ≤ k' → All (λ b. b.mline < k) bs → All (λ b. b.mline < k') bs
All-lt [] k k' le h = tt
All-lt (b ∷ bs) k k' le (h, hs) = (omega arith, All-lt bs k k' le hs)

-- a word behind code whose branches may stand at that word too
encode_op-IsSound :
    (e : Emitter32) (w : ℕ)
    → IsBuffer e
    → IsLabelled e
    → All (λ b. b.mline < ec e + 1) e.head
    → Apart e.head
    → IsSound (encode_op e w)
unfolding ec
encode_op-IsSound e w v v' written apart =
    let (local, head, size) = encode_op_keeps e w in
    let aligned = v.words in
    record {
      buffer = encode_op-IsBuffer e w v;
      labelled = encode_op-IsLabelled e w v';
      written =
          rw head
            (All-lt e.head (ec e + 1) ((encode_op e w).size / 4) (omega (arith, size)) written);
      apart = rw head apart;
    }

with_line :
    (e : Emitter32) (pc : ℕ) (jt : List ℕ) → IsSound e → IsSound (record e { pc = pc; jt = jt })
unfolding ec
with_line e pc jt s =
    let b = s.buffer in
    let l = s.labelled in
    record {
      buffer = record {
        words = b.words;
        fits = b.fits;
        aligned = b.aligned;
        floor = b.floor;
        calls = b.calls;
      };
      labelled = record { slots = l.slots; ordered = l.ordered; written = l.written };
      written = s.written;
      apart = s.apart;
    }

with_label :
    (e : Emitter32) (local : List (List ℕ))
    → IsSound e
    → IsLabelled (record e { local = local })
    → IsSound (record e { local = local })
unfolding ec
with_label e local s l =
    let b = s.buffer in
    record {
      buffer = record {
        words = b.words;
        fits = b.fits;
        aligned = b.aligned;
        floor = b.floor;
        calls = b.calls;
      };
      labelled = l;
      written = s.written;
      apart = s.apart;
    }

-- a branch that is noted, with the word behind it
with_branch :
    (e : Emitter32) (to : Target) (w : ℕ)
    → IsSound e
    → IsSound
        (encode_op (record e { head = e.head ++ record { mline = ec e; target = to } ∷ [] }) w)
unfolding ec
with_branch e to w s =
    let b = s.buffer in
    let l = s.labelled in
    let noted : Emitter32 = record e {
      head = e.head ++ record { mline = ec e; target = to } ∷ [];
    } in
    encode_op-IsSound noted w
      (record {
        words = b.words;
        fits = b.fits;
        aligned = b.aligned;
        floor = b.floor;
        calls = b.calls;
      })
      (record { slots = l.slots; ordered = l.ordered; written = l.written })
      (All-append_one e.head (record { mline = ec e; target = to }) (ec e + 1)
        (All-lt e.head (ec e) (ec e + 1) (omega arith) s.written) (omega arith))
      (Apart-append_one e.head (record { mline = ec e; target = to }) s.written s.apart)

ok-injective : (e e' : Emitter32) → ◌≡◌ {A = Result Emitter32} (ok e) (ok e') → e ≡ e'
ok-injective e e' h = cc

fail≢ok : (e' : Emitter32) → ◌≢◌ {A = Result Emitter32} (fail out_of_bounds) (ok e')
fail≢ok e' h = cc

label_local-record :
    (e e' : Emitter32) (local : ℕ)
    → local < nr_local_labels
    → label_local e local ≡ ok e'
    → (l : List (List ℕ)) × (record e { local = l } ≡ e')
unfolding label_local
label_local-record e e' local h marked = (_, ok-injective _ e' (rw (lt→ltb local 10 h) at marked))

label_pc-record :
    (e e' : Emitter32) (l : ℕ)
    → label_pc e l ≡ ok e'
    → (pc : ℕ) × (jt : List ℕ) × (record e { pc = pc; jt = jt } ≡ e')
unfolding label_pc
label_pc-record e e' l h = elim (Bool-cases (ltb e.pc l)) [
  | inl y ↦ elim (Bool-cases (ltb l (length e.jt))) [
    | inl z ↦ (l, set e.jt l (e.size / 4), ok-injective _ e' (rw (y, z) at h))
    | inr z ↦ absurd (fail≢ok e' (rw (y, z) at h))
  ]
  | inr y ↦ elim (Bool-cases (ltb l (length e.jt))) [
    | inl z ↦ (e.pc, set e.jt l (e.size / 4), ok-injective _ e' (rw (y, z) at h))
    | inr z ↦ absurd (fail≢ok e' (rw (y, z) at h))
  ]
]

Step-IsSound : {e e' : Emitter32} → Step e e' → IsSound e → IsSound e'
unfolding label_local branch_local branch_pc
Step-IsSound {e} (word w) s =
    encode_op-IsSound e w s.buffer s.labelled
      (All-lt e.head (ec e) (ec e + 1) (omega arith) s.written) s.apart
Step-IsSound {e} {e'} (mark local h marked) s =
    let (e₁, marked', valid, _) = label_local-IsLabelled e local s.labelled h in
    let (l, same) = label_local-record e e' local h marked in
    let also : e₁ ≡ e' = ok-injective e₁ e' (sym marked' ∙ marked) in
    subst IsSound same (with_label e l s (subst IsLabelled (also ∙ sym same) valid))
Step-IsSound {e} {e'} (line l h) s =
    let (pc, jt, same) = label_pc-record e e' l h in subst IsSound same (with_line e pc jt s)
Step-IsSound {e} (jump_local local isnext w) s = with_branch e (local_label local isnext) w s
Step-IsSound {e} (jump_line to w) s = with_branch e (vline to) w s

emitter32_create-IsSound : (vmlines : ℕ) → IsSound (emitter32_create vmlines)
unfolding emitter32_create
emitter32_create-IsSound vmlines = record {
  buffer = emitter32_create-IsBuffer vmlines;
  labelled = unlabelled-IsLabelled (emitter32_create vmlines) refl;
  written = tt;
  apart = tt;
}

Translation-IsSound : {e : Emitter32} → Translation e → IsSound e
Translation-IsSound (new vmlines) = emitter32_create-IsSound vmlines
Translation-IsSound (next t s) = Step-IsSound s (Translation-IsSound t)

-- the branch has a target within reach
abbrev pub Destined : Emitter32 → Branch → Type 0
Destined e b = (to : ℕ) × (destination e b ≡ ok to) × InReach b.mline to

Destined-Resolvable :
    (e : Emitter32) (bs : List Branch)
    → IsBuffer e
    → All (λ b. b.mline < ec e) bs
    → All (Destined e) bs
    → All (Resolvable e) bs
unfolding ec
Destined-Resolvable e bs v written destined =
    All-map₂ bs (λ b h d. (omega (arith, v.words), d)) written destined

-- Whatever sequence of words, labels and branches an emitter has gone through since it was created,
-- if each of its branches has a target within reach, then `link` succeeds: each branch goes to its
-- target and keeps its upper half, every other word stays, no word is added or lost, and no branch
-- is left to link. The branches are in the code and apart by themselves.
pub Translation-link :
    (e : Emitter32)
    → Translation e
    → All (Destined e) e.head
    → IsSound e
      × ((e' : Emitter32) × (link e ≡ ok e')
          × All (Patched e e'.mcode) e.head
          × ((i : ℕ) → All (Elsewhere i) e.head → get_or e'.mcode i 0 ≡ get_or e.mcode i 0)
          × (length e'.mcode ≡ length e.mcode)
          × (e'.head ≡ []))
Translation-link e t destined =
    let s = Translation-IsSound t in
    (s, link-Patched e (Destined-Resolvable e e.head s.buffer s.written destined) s.apart)
