-- ===== src/Tests/Registers.antt =====
-- The temporaries of the MIPS machine at concrete inputs.
use too_legit_to_jit.Common.{ℕ, zero, suc, ◌<◌, ◌≡◌, refl, ltb, if◌then◌else◌, ok, and_then, arith}
use too_legit_to_jit.Emitter.{Emitter32, emitter32_create}
use too_legit_to_jit.Machine.{Jit}
use too_legit_to_jit.Operand.{op_target_daddr}
use too_legit_to_jit.Mips.Move.{move, mips_mach}
use too_legit_to_jit.Mips.MoveLaws.{move-OnlyEmits}
use too_legit_to_jit.Temporaries.{
  refcount_at, get_reg, get_refcount, reg_at, set_slot, update_max, acquire_temp, release_temp,
  spill_off, abs_stack_offset,
}
use too_legit_to_jit.Temporaries.Slots.{spill_off-injective}
use too_legit_to_jit.Temporaries.Level.{IsLevel, set_slot-up}
use too_legit_to_jit.Temporaries.Acquire.{acquire_temp-slot, release_temp-acquire_temp}

mips_mach-counts : (i : ℕ) → i < 4 → refcount_at mips_mach i ≡ (if ltb i 0 then 1 else 0)
unfolding refcount_at get_refcount
mips_mach-counts zero h = refl
mips_mach-counts (suc zero) h = refl
mips_mach-counts (suc (suc zero)) h = refl
mips_mach-counts (suc (suc (suc zero))) h = refl
mips_mach-counts (suc (suc (suc (suc i)))) h = absurd (omega arith)

mips_mach-IsLevel : IsLevel mips_mach 0 0
mips_mach-IsLevel = record {
  some_temps = omega arith;
  within = omega arith;
  listed = omega arith;
  counted = omega arith;
  counts = mips_mach-counts;
}

abbrev start : Jit
start = record { emitter = emitter32_create 4; machine = mips_mach }

-- the MIPS machine with one temporary in use
abbrev one_used : Jit
one_used = record start { machine = set_slot mips_mach 0 1 }

one_used-IsLevel : IsLevel (set_slot mips_mach 0 1) 0 1
one_used-IsLevel = set_slot-up mips_mach 0 0 mips_mach-IsLevel (omega arith)

acquire_temp-slot_example :
    (e : Emitter32) × (acquire_temp move start
      ≡ ok (
        get_reg (reg_at mips_mach 0),
        record { emitter = e; machine = update_max (set_slot mips_mach 0 1) },
      ))
acquire_temp-slot_example =
    acquire_temp-slot move move-OnlyEmits start 0 0 mips_mach-IsLevel (omega arith) (λ h. refl)

release_temp-acquire_temp_example :
    (e : Emitter32) × (max : ℕ) × (and_then (acquire_temp move start) (λ x. release_temp move x.1)
      ≡ ok (ltb 0 0, record { emitter = e; machine = record mips_mach { max_access = max } }))
release_temp-acquire_temp_example =
    release_temp-acquire_temp move move-OnlyEmits start 0 0 mips_mach-IsLevel (omega arith)
      (λ h. refl) (omega arith)

spill_off-injective_example : (◌≡◌ {A = ℕ} 3 3) × (◌≡◌ {A = ℕ} 2 2)
spill_off-injective_example =
    spill_off-injective 29 3 3 2 2 4 (omega arith) (omega arith) (omega arith) (omega arith)
      (omega arith) (omega arith) refl

-- Behind the reach of the offset, two temporaries share a slot.
spill_off-wraps : op_target_daddr 29 (spill_off 0 1 4) ≡ op_target_daddr 29 (spill_off 3 6554 4)
unfolding op_target_daddr spill_off abs_stack_offset
spill_off-wraps = refl
