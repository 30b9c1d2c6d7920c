-- ===== src/Temporaries/Acquire.antt =====
-- `acquire_temp` and `release_temp` over the machine's `move`.
use too_legit_to_jit.Common.{
  ℕ, suc, ◌+◌, ◌-◌, ◌^◌, ◌<◌, ◌≡◌, inl, inr, true, false, ltb, ◌==◌, length, get_or-set_self,
  set-set, set-get_or, ok, and_then, Bool-cases, arith, tests, ap, sym, ◌∙◌,
}
use too_legit_to_jit.Word.{sext16, signed_lt}
use too_legit_to_jit.Operand.{Operand, reg, direct_addr, op_target_reg, op_target_daddr}
use too_legit_to_jit.Emitter.{Emitter32}
use too_legit_to_jit.Machine.{Machine, Jit, Emit}
use too_legit_to_jit.Temporaries.Slots.{set_refcount-back}
use too_legit_to_jit.Temporaries.Level.{
  IsLevel, acquire_slot-IsLevel, release_slot-IsLevel, set_slot-up,
}
use too_legit_to_jit.Temporaries.{
  get_reg, get_refcount, set_refcount, reg_at, refcount_at, release_slot, temps_accessed, set_slot,
  update_max, move_unspilled, acquire_temp, release_temp, disable_spill, restore_spill, spill_off,
}

-- What the temporaries need of `move`: between a register and the stack it only emits code.
pub record OnlyEmits (move : Operand → Operand → Emit (Unit {0})) : Type 0 where
  pub spills :
      (b o r : ℕ) (j : Jit)
      → (e : Emitter32) × (move (direct_addr b o) (reg r) j ≡ ok (tt, record j { emitter = e }))
  pub fills :
      (b o r : ℕ) (j : Jit)
      → (e : Emitter32) × (move (reg r) (direct_addr b o) j ≡ ok (tt, record j { emitter = e }))

pub IsLevel-update_max : (m : Machine) (q r : ℕ) → IsLevel m q r → IsLevel (update_max m) q r
unfolding update_max
IsLevel-update_max m q r v = elim (Bool-cases (signed_lt m.max_access (temps_accessed m))) [
  | inl more ↦ rw more (record {
    some_temps = v.some_temps;
    within = v.within;
    listed = v.listed;
    counted = v.counted;
    counts = v.counts;
  })
  | inr less ↦ rw less v
]

-- Only `max_access` differs, which records the most temporaries that were in use at once.
set_slot-update_max :
    (m : Machine) (r c : ℕ)
    → set_slot (update_max m) r c
      ≡ record (set_slot m r c) { max_access = (update_max m).max_access }
unfolding update_max set_slot
set_slot-update_max m r c = elim (Bool-cases (signed_lt m.max_access (temps_accessed m))) [
  | inl more ↦ rw more
  | inr less ↦ rw less
]

reg-restored :
    (m : Machine) (q r : ℕ)
    → IsLevel m q r
    → r < m.nr_temp_regs
    → reg_at m r < 2 ^ 32
    → (set_slot (set_slot m r (q + 1)) r q).reg ≡ m.reg
unfolding set_slot refcount_at
reg-restored m q r v h word =
    let inside : r < length m.reg = omega (arith, v.listed) in
    let count : get_refcount (reg_at m r) ≡ q = ground (arith, v.counts r h) in
    let back : set_refcount (set_refcount (reg_at m r) (q + 1)) q ≡ reg_at m r =
      ap (set_refcount (set_refcount (reg_at m r) (q + 1))) (sym count)
      ∙ set_refcount-back (reg_at m r) (q + 1) word in
    rw (get_or-set_self m.reg r (set_refcount (reg_at m r) (q + 1)) 0 inside, set-set, back)
      (set-get_or m.reg r 0)

module _ (move : Operand → Operand → Emit (Unit {0})) (quiet : OnlyEmits move) where
  move_unspilled-spills :
      (b o r : ℕ) (j : Jit)
      → (e : Emitter32) × (move_unspilled move (op_target_daddr b o) (op_target_reg r) j
          ≡ ok (tt, record j { emitter = e }))
  unfolding move_unspilled disable_spill restore_spill op_target_daddr op_target_reg
  move_unspilled-spills b o r j =
      let (e, done) =
        quiet.spills b (sext16 o) r
          (record j { machine = record (j.machine) { allow_spill = false } }) in
      (e, rw done)

  move_unspilled-fills :
      (b o r : ℕ) (j : Jit)
      → (e : Emitter32) × (move_unspilled move (op_target_reg r) (op_target_daddr b o) j
          ≡ ok (tt, record j { emitter = e }))
  unfolding move_unspilled disable_spill restore_spill op_target_daddr op_target_reg
  move_unspilled-fills b o r j =
      let (e, done) =
        quiet.fills b (sext16 o) r
          (record j { machine = record (j.machine) { allow_spill = false } }) in
      (e, rw done)

  -- Over a `move` that only emits code between a register and the stack: where every temporary has
  -- been taken `q` times and the first `r` of them once more, a slot is left in this round, and
  -- spilling is allowed from the second round on, `acquire_temp` returns the register of slot `r`
  -- and counts it once more; besides the counts, only the emitter and `max_access` change.
  pub acquire_temp-slot :
      (j : Jit) (q r : ℕ)
      → IsLevel j.machine q r
      → r < j.machine.nr_temp_regs
      → (0 < q → j.machine.allow_spill ≡ true)
      → (e : Emitter32) × (acquire_temp move j
          ≡ ok (
            get_reg (reg_at j.machine r),
            record { emitter = e; machine = update_max (set_slot j.machine r (q + 1)) },
          ))
  unfolding acquire_temp
  acquire_temp-slot j q r v h spill =
      let m = j.machine in
      let some : (m.nr_temp_regs == 0) ≡ false = omega (tests, v.some_temps) in
      let slot =
        acquire_slot-IsLevel m q r (m.nr_temp_regs - 1) v (omega (arith, v.some_temps))
          (omega arith) in
      let count : refcount_at m r ≡ q = ground (arith, v.counts r h) in
      elim (Bool-cases (ltb 0 q)) [
        | inr fresh ↦ (j.emitter, rw (some, slot, count, fresh))
        | inl used ↦
            let (e, done) =
              move_unspilled-spills m.sp (spill_off r q m.nr_temp_regs) (get_reg (reg_at m r)) j in
            (e, rw (some, slot, count, used) (simp (spill (omega tests)) (rw done)))
      ]

  -- Over a `move` that only emits code between a register and the stack: where every temporary has
  -- been taken `q` times and the first `r + 1` of them once more, `release_temp` lowers the count
  -- of slot `r` to `q` and says whether its register is still in use; otherwise only the emitter
  -- changes.
  release_temp-slot :
      (j : Jit) (q r : ℕ)
      → IsLevel j.machine q (r + 1)
      → (e : Emitter32) × (release_temp move j
          ≡ ok (ltb 0 q, record { emitter = e; machine = set_slot j.machine r q }))
  unfolding release_temp
  release_temp-slot j q r v =
      let m = j.machine in
      let some : (m.nr_temp_regs == 0) ≡ false = omega (tests, v.some_temps) in
      let slot : release_slot m (m.nr_temp_regs - 1) 0 ≡ r =
        release_slot-IsLevel m q (r + 1) (m.nr_temp_regs - 1) 0 v (omega (arith, v.some_temps))
          (omega arith)
        ∙ omega arith in
      let count : refcount_at m r ≡ suc q = ground (arith, v.counts r (omega (arith, v.within))) in
      let less : suc q - 1 ≡ q = omega arith in
      let held : ltb 0 (suc q) ≡ true = omega tests in
      elim (Bool-cases (ltb 0 q)) [
        | inr last ↦ (j.emitter, rw (some, slot, count, held, less, last))
        | inl still ↦
            let (e, done) =
              move_unspilled-fills m.sp (spill_off r q m.nr_temp_regs) (get_reg (reg_at m r)) j in
            (e, rw (some, slot, count, held, less, still, done))
      ]

  -- Over a `move` that only emits code between a register and the stack: where every temporary has
  -- been taken `q` times and the first `r` of them once more, a slot is left in this round,
  -- spilling is allowed from the second round on, and the slot's word has 32 bits, `release_temp`
  -- undoes `acquire_temp`: of the machine only `max_access` may differ, and the result says whether
  -- the register is still in use.
  pub release_temp-acquire_temp :
      (j : Jit) (q r : ℕ)
      → IsLevel j.machine q r
      → r < j.machine.nr_temp_regs
      → (0 < q → j.machine.allow_spill ≡ true)
      → reg_at j.machine r < 2 ^ 32
      → (e : Emitter32) × (max : ℕ) × (and_then (acquire_temp move j) (λ x. release_temp move x.1)
          ≡ ok (ltb 0 q, record { emitter = e; machine = record (j.machine) { max_access = max } }))
  unfolding set_slot
  release_temp-acquire_temp j q r v h spill word =
      let m = j.machine in
      let taken = update_max (set_slot m r (q + 1)) in
      let (e, got) = acquire_temp-slot j q r v h spill in
      let level = IsLevel-update_max (set_slot m r (q + 1)) q (r + 1) (set_slot-up m q r v h) in
      let (e', gave) = release_temp-slot (record { emitter = e; machine = taken }) q r level in
      let same : set_slot taken r q ≡ record m { max_access = taken.max_access } =
        set_slot-update_max (set_slot m r (q + 1)) r q
        ∙ ap (λ l. record m { max_access = taken.max_access; reg = l })
            (reg-restored m q r v h word) in
      (
        e',
        taken.max_access,
        rw got (gave ∙ ap (λ k. ok (ltb 0 q, record { emitter = e'; machine = k })) same),
      )
