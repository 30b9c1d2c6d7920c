-- ===== src/Mips/Processor.antt =====
-- The processor with its program counter: branches, delay slots and runs over linked code. It adds
-- to the instructions of Isa, by the architecture's manual; a program counter counts words.
use too_legit_to_jit.Common.{
  ℕ, ◌+◌, ◌/◌, ◌^◌, ◌<◌, ◌≡◌, ◌∙◌, refl, ap, Bool, not, ◌||◌, Option, none, some, List, get_elem?,
  ◌==◌, if◌then◌else◌, arith,
}
use too_legit_to_jit.Word.{is_negative}
use too_legit_to_jit.Emitter.Link.{lands}
use too_legit_to_jit.Mips.Opcodes.{gen_mips_opcode_2reg, gen_mips_opcode_3reg}
use too_legit_to_jit.Mips.Isa.{Cpu, Insn, read, step, decode, op_field, rs_field, rt_field}
use too_legit_to_jit.Mips.Encoding.{gen_mips_opcode_2reg-sum, gen_mips_opcode_3reg-sum}

-- when a branch is taken
pub data Condition : Type 0 where
  beq bne : (rs rt : ℕ) → Condition
  bltz bgez blez bgtz : (rs : ℕ) → Condition

abbrev pub branch_fields : (op rs rt : ℕ) → Option Condition
branch_fields op rs rt =
    if op == 4
    then some (beq rs rt)
    else if op == 5
    then some (bne rs rt)
    else if op == 6
    then (if rt == 0 then some (blez rs) else none)
    else if op == 7
    then (if rt == 0 then some (bgtz rs) else none)
    else if op == 1
    then (if rt == 0 then some (bltz rs) else if rt == 1 then some (bgez rs) else none)
    else none

unfoldable pub decode_branch : ℕ → Option Condition
decode_branch w = branch_fields (op_field w) (rs_field w) (rt_field w)

unfoldable pub taken : Condition → Cpu → Bool
taken (beq rs rt) c = read c rs == read c rt
taken (bne rs rt) c = not (read c rs == read c rt)
taken (bltz rs) c = is_negative (read c rs)
taken (bgez rs) c = not (is_negative (read c rs))
taken (blez rs) c = is_negative (read c rs) || (read c rs == 0)
taken (bgtz rs) c = not (is_negative (read c rs) || (read c rs == 0))

-- The word that is executed, and the one behind it, which a branch does not change.
pub record Core : Type 0 where
  pub cpu : Cpu
  pub pc : ℕ
  pub npc : ℕ

-- before the word at `pc`, outside a delay slot
abbrev pub at : ℕ → Cpu → Core
at pc c = record { cpu = c; pc = pc; npc = pc + 1 }

abbrev execute : Option Insn → Core → Option Core
execute none s = none
execute (some i) s = some (record { cpu = step i s.cpu; pc = s.npc; npc = s.npc + 1 })

abbrev control : Option Condition → (w : ℕ) → Core → Option Core
control none w s = execute (decode w) s
control (some b) w s =
    some (record s { pc = s.npc; npc = if taken b s.cpu then lands s.pc w else s.npc + 1 })

abbrev fetched : Option ℕ → Core → Option Core
fetched none s = none
fetched (some w) s = control (decode_branch w) w s

-- One word. Emitted code has no branch in the delay slot of another.
unfoldable pub tick : (code : List ℕ) → Core → Option Core
tick code s = fetched (get_elem? code s.pc) s

pub data Reaches (code : List ℕ) (s : Core) : Core → Type 0 where
  here : Reaches code s s
  next : {t u : Core} → Reaches code s t → tick code t ≡ some u → Reaches code s u

pub Reaches-trans :
    {code : List ℕ} {s t u : Core} → Reaches code s t → Reaches code t u → Reaches code s u
Reaches-trans r here = r
Reaches-trans r (next r' e) = next (Reaches-trans r r') e

-- a word that is no branch
pub tick-plain :
    (code : List ℕ) (s : Core) (w : ℕ) (i : Insn)
    → get_elem? code s.pc ≡ some w
    → decode_branch w ≡ none
    → decode w ≡ some i
    → tick code s ≡ some (record { cpu = step i s.cpu; pc = s.npc; npc = s.npc + 1 })
unfolding tick
tick-plain code s w i f b d =
    ap (λ o. fetched o s) f ∙ ap (λ o. control o w s) b ∙ ap (λ o. execute o s) d

pub tick-branch :
    (code : List ℕ) (s : Core) (w : ℕ) (b : Condition)
    → get_elem? code s.pc ≡ some w
    → decode_branch w ≡ some b
    → tick code s
      ≡ some (record s { pc = s.npc; npc = if taken b s.cpu then lands s.pc w else s.npc + 1 })
unfolding tick
tick-branch code s w b f d = ap (λ o. fetched o s) f ∙ ap (λ o. control o w s) d

decode_branch-fields :
    (w op rs rt : ℕ)
    → op_field w ≡ op
    → rs_field w ≡ rs
    → rt_field w ≡ rt
    → decode_branch w ≡ branch_fields op rs rt
unfolding decode_branch
decode_branch-fields w op rs rt a b c = rw (a, b, c) refl

-- The linker changes the lower half of a branch only.
pub decode_branch-2reg :
    (op rs rt imm w : ℕ)
    → op < 2 ^ 6
    → rs < 2 ^ 5
    → rt < 2 ^ 5
    → w / 2 ^ 16 ≡ gen_mips_opcode_2reg op rs rt imm / 2 ^ 16
    → decode_branch w ≡ branch_fields op rs rt
decode_branch-2reg op rs rt imm w h h' h'' half =
    let sum = gen_mips_opcode_2reg-sum op rs rt imm h h' h'' in
    decode_branch-fields w op rs rt (omega (arith, sum, half)) (omega (arith, sum, half))
      (omega (arith, sum, half))

pub decode_branch-3reg :
    (op rs rt rd funct : ℕ)
    → op < 2 ^ 6
    → rs < 2 ^ 5
    → rt < 2 ^ 5
    → rd < 2 ^ 5
    → funct < 2 ^ 6
    → decode_branch (gen_mips_opcode_3reg op rs rt rd funct) ≡ branch_fields op rs rt
decode_branch-3reg op rs rt rd funct h₁ h₂ h₃ h₄ h₅ =
    let w = gen_mips_opcode_3reg op rs rt rd funct in
    let sum = gen_mips_opcode_3reg-sum op rs rt rd funct h₁ h₂ h₃ h₄ h₅ in
    decode_branch-fields w op rs rt (omega (arith, sum)) (omega (arith, sum)) (omega (arith, sum))
