-- ===== src/Mips/Jump.antt =====
-- Where the jumps of arch/mips/call.c go.
use too_legit_to_jit.Common.{
  ℕ, ◌+◌, ◌*◌, ◌/◌, ◌%◌, ◌^◌, ◌<◌, ◌≡◌, refl, [], ◌∷◌, ok, arith, tests, true, ◌==◌,
}
use too_legit_to_jit.Word.{bitfield_decode}
use too_legit_to_jit.Word.Bits.{bit_or-disjoint}
use too_legit_to_jit.Operand.{immed, label_absolute}
use too_legit_to_jit.Emitter.{Emitter32, absc}
use too_legit_to_jit.Machine.{Jit}
use too_legit_to_jit.Mips.Opcodes.{mi_jal, mi_nop, gen_mips_opcode_abs}
use too_legit_to_jit.Mips.Isa.{op_field}
use too_legit_to_jit.Mips.Move.{emit}
use too_legit_to_jit.Mips.MoveLaws.{emit_all}
use too_legit_to_jit.Mips.Call.{mips_call, safe_direct_call, is_safe_direct_call}

-- The address to which a J or JAL goes, by the architecture's manual: it has the four highest bits
-- of the address of the delay slot.
abbrev pub jump_target : (delay_slot word : ℕ) → ℕ
jump_target delay_slot word = delay_slot / 2 ^ 28 * 2 ^ 28 + word % 2 ^ 26 * 4

jal-word : (k : ℕ) → mi_jal k ≡ 3 * 2 ^ 26 + k / 2 ^ 2 % 2 ^ 26
unfolding mi_jal gen_mips_opcode_abs
jal-word k = bit_or-disjoint 26 3 (k / 2 ^ 2 % 2 ^ 26) (omega arith)

-- A call of an absolute address `k` from the address `pc` that passes the check for a direct call
-- emits a JAL and its delay slot, and the JAL goes to `k`: if `k` is a multiple of 4, both
-- addresses are 32-bit words, and the delay slot lies in the same 256 megabytes as the JAL.
pub mips_call-jump_target :
    (buffer : Emitter32 → ℕ) (k pc : ℕ) (j : Jit)
    → absc (buffer (j.emitter)) (j.emitter) ≡ pc
    → k < 2 ^ 32
    → k % 4 ≡ 0
    → (bitfield_decode 28 4 k == bitfield_decode 28 4 pc) ≡ true
    → pc + 4 < 2 ^ 32
    → (pc + 4) / 2 ^ 28 ≡ pc / 2 ^ 28
    → (mips_call buffer (label_absolute (immed k)) j
        ≡ ok (tt, record j { emitter = emit_all (mi_jal k ∷ mi_nop ∷ []) (j.emitter) }))
      × (op_field (mi_jal k) ≡ 3)
      × (jump_target (pc + 4) (mi_jal k) ≡ k)
unfolding mips_call safe_direct_call is_safe_direct_call emit emit_all
mips_call-jump_target buffer k pc j here small aligned safe pc_small inside =
    (rw (here, safe) refl, rw (jal-word k) (omega arith), rw (jal-word k) (omega (tests, safe)))
