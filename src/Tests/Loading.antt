-- ===== src/Tests/Loading.antt =====
-- The loader and the words of Lua instructions at concrete inputs.
use too_legit_to_jit.Common.{
  ℕ, ◌+◌, ◌^◌, ◌<◌, ◌≡◌, refl, none, Bool, true, false, length, assertion, List, [], ◌∷◌, ◌++◌, All,
  take, drop, Result, ok, fail, arith,
}
use too_legit_to_jit.Operand.{op_target_reg, iso_reg, to_loperand}
use too_legit_to_jit.Frame.{loperand_to_operand, vreg_to_physical_reg}
use too_legit_to_jit.Synthetic.{assign}
use too_legit_to_jit.Lua.Instruction.{emit_move}
use too_legit_to_jit.Emitter.{Emitter32, emitter32_create, label_pc, encode_op}
use too_legit_to_jit.Machine.{Jit}
use too_legit_to_jit.Jitfunc.{JFuncs}
use too_legit_to_jit.Mips.Move.{mips_mach, move, move_at, loadreg, emit}
use too_legit_to_jit.Mips.Jfunc.{mips_ops}
use too_legit_to_jit.Elf.{Section, Function, function, no_functions, and_function}
use too_legit_to_jit.Elf.Serialise.{string_table}
use too_legit_to_jit.Elf.Names.{
  strings, starts, section_texts, section_labels, paths, string_table-strings,
}
use too_legit_to_jit.Lua.Opcodes.{
  get_opcode, getarg_a, getarg_b, getarg_c, getarg_sbx, setarg_sbx, create_abc,
}
use too_legit_to_jit.Lua.Opcodes.Fields.{getarg-create_abc, getarg_sbx-setarg_sbx}
use too_legit_to_jit.Loader.{Reader, validate_header, luac_headersize}
use too_legit_to_jit.Loader.Header.{header, validate_header-header}
use too_legit_to_jit.Loader.Code.{Runtime, frame_of, translate_all}
use too_legit_to_jit.Loader.Code.Supported.{is_member, accepted, translate_all-stops}

getarg-create_abc_example :
    ((get_opcode (create_abc 13 1 2 256) ≡ 13)
      × (getarg_a (create_abc 13 1 2 256) ≡ 1)
      × (getarg_b (create_abc 13 1 2 256) ≡ 2)
      × (getarg_c (create_abc 13 1 2 256) ≡ 256))
    × ((create_abc (get_opcode 16777293) (getarg_a 16777293) (getarg_b 16777293) (getarg_c 16777293)
          ≡ 16777293)
        × (get_opcode 16777293 < 2 ^ 6)
        × (getarg_a 16777293 < 2 ^ 8)
        × (getarg_b 16777293 < 2 ^ 9)
        × (getarg_c 16777293 < 2 ^ 9))
getarg-create_abc_example =
    getarg-create_abc 13 1 2 256 16777293 (omega arith) (omega arith) (omega arith) (omega arith)
      (omega arith)

-- a jump by -3
getarg_sbx-setarg_sbx_example :
    (getarg_sbx (setarg_sbx 23 4294967293) ≡ 4294967293)
    × (get_opcode (setarg_sbx 23 4294967293) ≡ get_opcode 23)
    × (getarg_a (setarg_sbx 23 4294967293) ≡ getarg_a 23)
getarg_sbx-setarg_sbx_example =
    getarg_sbx-setarg_sbx 23 4294967293 (omega arith) (omega arith) (omega arith)

abbrev lua_file : List ℕ
lua_file = header ++ 0 ∷ 0 ∷ []

abbrev at_start : Reader
at_start = record { pos = 0; machine = mips_mach }

validate_header-header_example :
    (accepted : Bool) × (validate_header lua_file at_start
      ≡ ok (accepted, record at_start { pos = at_start.pos + luac_headersize }))
    × (accepted ≡ true → take luac_headersize (drop (at_start.pos) lua_file) ≡ header)
    × (take luac_headersize (drop (at_start.pos) lua_file) ≡ header → accepted ≡ true)
validate_header-header_example = validate_header-header lua_file at_start (omega arith)

abbrev no_sections : JFuncs
no_sections = record { jit_functions = []; jfuncs_code = none }

abbrev runtime : Runtime
runtime = record {
  nonnumeric = 0;
  relational = 0;
  close = 0;
  closure_create = 0;
  tableget = 0;
  tableset = 0;
  table_create = 0;
  table_setlist = 0;
}

abbrev start : Jit
start = record { emitter = emitter32_create 3; machine = mips_mach }

-- R(0) := R(1), and an OP_LOADNIL
abbrev program : List ℕ
program = 8388608 ∷ 4 ∷ []

abbrev run_program : Result (Unit {0} × Jit)
run_program =
    translate_all (mips_ops (λ e. 65536) no_sections) (λ e. 65536) no_sections runtime
      (frame_of 2 0) (λ i. 0) 0 0 program start

abbrev state_of : Result (Unit {0} × Jit) → Jit
state_of (ok x) = x.1
state_of (fail e) = start

program-runs : run_program ≡ ok (tt, state_of run_program)
unfolding translate_all label_pc emitter32_create get_opcode emit_move to_loperand getarg_a
    loperand_to_operand vreg_to_physical_reg getarg_b assign mips_ops move move_at op_target_reg
    loadreg iso_reg emit encode_op
program-runs = refl

abbrev emitter_of : Result Emitter32 → Emitter32
emitter_of (ok e) = e
emitter_of (fail x) = emitter32_create 0

-- the label of an OP_LOADBOOL behind the program
abbrev with_label : Result Emitter32
with_label = label_pc ((state_of run_program).emitter) 2

with_label-ok : with_label ≡ ok (emitter_of with_label)
unfolding translate_all label_pc emitter32_create get_opcode emit_move to_loperand getarg_a
    loperand_to_operand vreg_to_physical_reg getarg_b assign mips_ops move move_at op_target_reg
    loadreg iso_reg emit encode_op
with_label-ok = refl

loadbool-opcode : is_member (get_opcode 3) accepted ≡ false
unfolding get_opcode
loadbool-opcode = refl

translate_all-stops_example :
    (translate_all
        (mips_ops (λ e. 65536) no_sections)
        (λ e. 65536)
        no_sections
        runtime
        (frame_of 2 0)
        (λ i. 0)
        0
        0
        (program ++ (3 ∷ []))
        start
      ≡ fail assertion)
    × All (λ ins. is_member (get_opcode ins) accepted ≡ true) program
translate_all-stops_example =
    translate_all-stops (mips_ops (λ e. 65536) no_sections) (λ e. 65536) no_sections runtime
      (frame_of 2 0) (λ i. 0) 0 program [] 3 0 start (state_of run_program) (emitter_of with_label)
      program-runs with_label-ok loadbool-opcode

-- a main function with two functions within, over a file of three bytes
abbrev no_code : Section
no_code = record { code = []; code_address = 0; strtabidx = 0; secoff = 0; secend = 0 }

abbrev leaf : Function
leaf = function no_code no_functions

abbrev two_leaves : Function
two_leaves = function no_code (and_function leaf (and_function leaf no_functions))

abbrev digit : ℕ → List ℕ
digit n = (48 + n) ∷ []

string_table-strings_example :
    ((string_table digit 1 two_leaves 1 (0 ∷ 0 ∷ 0 ∷ [])).1.1
      ≡ (0 ∷ 0 ∷ 0 ∷ [])
        ++ strings (section_texts ++ (section_labels digit 1 ++ paths digit 0 [] two_leaves)))
    × ((string_table digit 1 two_leaves 1 (0 ∷ 0 ∷ 0 ∷ [])).0
        ≡ starts (length (strings section_texts)) (section_labels digit 1))
string_table-strings_example = string_table-strings digit 1 two_leaves 1 (0 ∷ 0 ∷ 0 ∷ [])

named_leaf :
    (string_table digit 1 leaf 0 []).1.0 ≡ function (record no_code { strtabidx = 44 }) no_functions
unfolding string_table
named_leaf = refl
