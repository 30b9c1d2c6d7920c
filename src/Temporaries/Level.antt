-- ===== src/Temporaries/Level.antt =====
-- The reference counts of the temporaries: they are taken in turn, so that the counts of two differ
-- by one at most.
use too_legit_to_jit.Common.{
  ℕ, zero, suc, ◌+◌, ◌-◌, ◌*◌, ◌^◌, ◌≤◌, ◌<◌, ◌≡◌, inl, inr, ltb, ◌==◌, if◌then◌else◌, length,
  length-set, get_or-set_self, get_or-set_ne, Bool-cases, arith, tests,
}
use too_legit_to_jit.Word.{sub32}
use too_legit_to_jit.Machine.{Machine}
use too_legit_to_jit.Temporaries.Slots.{set_refcount-fields}
use too_legit_to_jit.Temporaries.{
  set_refcount, reg_at, refcount_at, acquire_slot, release_slot, temps_accessed, set_slot,
}

-- Every temporary has been taken `q` times, and the first `r` of them once more.
pub record IsLevel (m : Machine) (q r : ℕ) : Type 0 where
  pub some_temps : 0 < m.nr_temp_regs
  pub within : r ≤ m.nr_temp_regs
  pub listed : m.nr_temp_regs ≤ length m.reg
  pub counted : q + 1 < 2 ^ 16
  pub counts : (i : ℕ) → i < m.nr_temp_regs → refcount_at m i ≡ (if ltb i r then q + 1 else q)

-- A full round is the start of the next one.
pub IsLevel-wrap :
    (m : Machine) (q : ℕ) → IsLevel m q m.nr_temp_regs → q + 2 < 2 ^ 16 → IsLevel m (q + 1) 0
IsLevel-wrap m q v h = record {
  some_temps = v.some_temps;
  within = omega arith;
  listed = v.listed;
  counted = omega arith;
  counts = λ i p. ground (arith, v.counts i p);
}

pub acquire_slot-IsLevel :
    (m : Machine) (q r i : ℕ) → IsLevel m q r → i < m.nr_temp_regs → r ≤ i → acquire_slot m i ≡ r
unfolding acquire_slot
acquire_slot-IsLevel m q r zero v h le = omega arith
acquire_slot-IsLevel m q r (suc i) v h le =
    ground (arith, v.counts (suc i) h, v.counts i (omega arith), acquire_slot-IsLevel m q r i v)

pub release_slot-IsLevel :
    (m : Machine) (q r left i : ℕ)
    → IsLevel m q r
    → i + left + 1 ≡ m.nr_temp_regs
    → i < r
    → release_slot m left i ≡ r - 1
unfolding release_slot
release_slot-IsLevel m q r zero i v h lt = omega (arith, v.within)
release_slot-IsLevel m q r (suc left) i v h lt = ground (
  arith,
  v.counts (suc i) (omega arith),
  v.counts i (omega arith),
  release_slot-IsLevel m q r left (suc i) v,
)

-- Where some temporary is in use, every one has been taken `q` times and the first `r` of them once
-- more, and the number of those uses is below 2 ^ 32, `temps_accessed` returns that number.
temps_accessed-IsLevel :
    (m : Machine) (q r : ℕ)
    → IsLevel m q r
    → 0 < r
    → q * m.nr_temp_regs + r < 2 ^ 32
    → temps_accessed m ≡ q * m.nr_temp_regs + r
unfolding temps_accessed
temps_accessed-IsLevel m q r v pos small =
    let slot =
      release_slot-IsLevel m q r (m.nr_temp_regs - 1) 0 v (omega (arith, v.some_temps)) pos in
    let count : refcount_at m (r - 1) ≡ q + 1 =
      ground (arith, v.counts (r - 1) (omega (arith, v.within))) in
    let back : sub32 (q + 1) 1 ≡ q = omega (arith, v.counted) in
    rw (slot, count, back) (omega arith)

-- The machine after slot `i` has been given the count `rc`.
counts-set_slot :
    (m : Machine) (i rc j : ℕ)
    → i < length m.reg
    → rc < 2 ^ 16
    → refcount_at (set_slot m i rc) j ≡ (if i == j then rc else refcount_at m j)
unfolding refcount_at set_slot
counts-set_slot m i rc j inside small = elim (Bool-cases (i == j)) [
  | inl same ↦
      let e : i ≡ j = omega tests in
      rw (same, ← e, get_or-set_self m.reg i (set_refcount (reg_at m i) rc) 0 inside)
        ((set_refcount-fields (reg_at m i) rc small).0)
  | inr other ↦ rw (other, get_or-set_ne m.reg i j (set_refcount (reg_at m i) rc) 0 (omega tests))
]

-- Taking the next temporary, and giving back the last one, as changes of the counts.
pub set_slot-up :
    (m : Machine) (q r : ℕ)
    → IsLevel m q r
    → r < m.nr_temp_regs
    → IsLevel (set_slot m r (q + 1)) q (r + 1)
unfolding set_slot
set_slot-up m q r v h = record {
  some_temps = v.some_temps;
  within = omega arith;
  listed = omega (arith, length-set m.reg r (set_refcount (reg_at m r) (q + 1)), v.listed);
  counted = v.counted;
  counts = λ j p.
      ground
        (arith, counts-set_slot m r (q + 1) j (omega (arith, v.listed)) v.counted, v.counts j p);
}

pub set_slot-down : (m : Machine) (q r : ℕ) → IsLevel m q (r + 1) → IsLevel (set_slot m r q) q r
unfolding set_slot
set_slot-down m q r v = record {
  some_temps = v.some_temps;
  within = omega (arith, v.within);
  listed = omega (arith, length-set m.reg r (set_refcount (reg_at m r) q), v.listed);
  counted = v.counted;
  counts = λ j p. ground (
    arith,
    counts-set_slot m r q j (omega (arith, v.listed, v.within)) (omega (arith, v.counted)),
    v.counts j p,
  );
}
