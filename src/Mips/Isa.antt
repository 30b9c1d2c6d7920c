-- ===== src/Mips/Isa.antt =====
-- What the processor does with the instruction words that the translator emits: an independent
-- description of the MIPS32 instructions, by their encoding in the architecture's manual.
use Prim.Native.Nat.{bit_or}
use too_legit_to_jit.Common.{
  ℕ, ◌*◌, ◌/◌, ◌%◌, ◌^◌, Option, none, some, List, [], ◌∷◌, ◌==◌, if◌then◌else◌,
}
use too_legit_to_jit.Word.{add32, sub32, sext16}

-- Registers and memory hold 32-bit words; memory is addressed by bytes, a word at a time.
pub record Cpu : Type 0 where
  pub regs : ℕ → ℕ
  pub mem : ℕ → ℕ

unfoldable pub read : Cpu → ℕ → ℕ
read c r = if r == 0 then 0 else c.regs r

unfoldable pub write : Cpu → ℕ → ℕ → Cpu
write c r v = record c { regs = λ x. if x == r then v else c.regs x }

unfoldable pub store : Cpu → ℕ → ℕ → Cpu
store c a v = record c { mem = λ x. if x == a then v else c.mem x }

pub data Insn : Type 0 where
  addu subu or mul : (rd rs rt : ℕ) → Insn
  sll : (rd rt sa : ℕ) → Insn
  addiu ori lw sw : (rt rs imm : ℕ) → Insn
  lui : (rt imm : ℕ) → Insn

-- the fields of a word, from the highest to the lowest
abbrev pub op_field : ℕ → ℕ
op_field w = w / 2 ^ 26

abbrev pub rs_field : ℕ → ℕ
rs_field w = w / 2 ^ 21 % 2 ^ 5

abbrev pub rt_field : ℕ → ℕ
rt_field w = w / 2 ^ 16 % 2 ^ 5

abbrev pub rd_field : ℕ → ℕ
rd_field w = w / 2 ^ 11 % 2 ^ 5

abbrev pub sa_field : ℕ → ℕ
sa_field w = w / 2 ^ 6 % 2 ^ 5

abbrev pub funct_field : ℕ → ℕ
funct_field w = w % 2 ^ 6

abbrev pub imm_field : ℕ → ℕ
imm_field w = w % 2 ^ 16

abbrev pub decode_special : (rs rt rd sa funct : ℕ) → Option Insn
decode_special rs rt rd sa funct =
    if funct == 33
    then some (addu rd rs rt)
    else if funct == 35
    then some (subu rd rs rt)
    else if funct == 37
    then some (or rd rs rt)
    else if funct == 0
    then some (sll rd rt sa)
    else none

abbrev pub decode_fields : (op rs rt rd sa funct imm : ℕ) → Option Insn
decode_fields op rs rt rd sa funct imm =
    if op == 0
    then decode_special rs rt rd sa funct
    else if op == 9
    then some (addiu rt rs imm)
    else if op == 13
    then some (ori rt rs imm)
    else if op == 15
    then some (lui rt imm)
    else if op == 35
    then some (lw rt rs imm)
    else if op == 43
    then some (sw rt rs imm)
    else if op == 28
    then (if funct == 2 then some (mul rd rs rt) else none)
    else none

unfoldable pub decode : ℕ → Option Insn
decode w =
    decode_fields (op_field w) (rs_field w) (rt_field w) (rd_field w) (sa_field w) (funct_field w)
      (imm_field w)

unfoldable pub step : Insn → Cpu → Cpu
unfolding read write store
step (addu rd rs rt) c = write c rd (add32 (read c rs) (read c rt))
step (subu rd rs rt) c = write c rd (sub32 (read c rs) (read c rt))
step (or rd rs rt) c = write c rd (bit_or (read c rs) (read c rt))
step (mul rd rs rt) c = write c rd (read c rs * read c rt % 2 ^ 32)
step (sll rd rt sa) c = write c rd (read c rt * 2 ^ sa % 2 ^ 32)
step (addiu rt rs imm) c = write c rt (add32 (read c rs) (sext16 imm))
step (ori rt rs imm) c = write c rt (bit_or (read c rs) imm)
step (lui rt imm) c = write c rt (imm * 2 ^ 16 % 2 ^ 32)
step (lw rt rs imm) c = write c rt (c.mem (add32 (read c rs) (sext16 imm)))
step (sw rt rs imm) c = store c (add32 (read c rs) (sext16 imm)) (read c rt)

-- A run of words one behind the other; `none` at a word that is no such instruction.
unfoldable pub run : List ℕ → Cpu → Option Cpu
run [] c = some c
run (w ∷ ws) c = elim (decode w) [ none ↦ none | some i ↦ run ws (step i c) ]
