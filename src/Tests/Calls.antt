-- ===== src/Tests/Calls.antt =====
-- Calls, argument registers, shared sections and upvalues of the MIPS machine at concrete inputs.
use too_legit_to_jit.Common.{
  ℕ, ◌+◌, ltb, set, Result, and_then, ◌*◌, ◌≤◌, ◌<◌, ◌≡◌, refl, true, none, List, [], ◌∷◌, ◌++◌,
  length, drop, some, ok, arith,
}
use too_legit_to_jit.Word.{neg32}
use too_legit_to_jit.Operand.{
  Operand, reg, immed, direct_addr, label_absolute, op_target_reg, op_target_daddr,
}
use too_legit_to_jit.Emitter.{Emitter32, emitter32_create, absc}
use too_legit_to_jit.Machine.{Jit}
use too_legit_to_jit.Jitfunc.{JFunc, JFuncs}
use too_legit_to_jit.Stack.{x_frame, max_live_locals}
use too_legit_to_jit.Stack.Sections.{jinit_x_access, entry_offset}
use too_legit_to_jit.Stack.Sections.Entry.{jinit_x_access-entry}
use too_legit_to_jit.Lua.Tables.{getupvalptr, closure_uvs, upval_val}
use too_legit_to_jit.Lua.Tables.Pointer.{deref, getupvalptr-Loads}
use too_legit_to_jit.Mips.Opcodes.{mi_jal, mi_jr, mi_nop, r_ra}
use too_legit_to_jit.Mips.Isa.{Cpu, read, run, op_field}
use too_legit_to_jit.Mips.Move.{move, mips_mach}
use too_legit_to_jit.Mips.MoveLaws.{emit_all, Loads}
use too_legit_to_jit.Mips.Jfunc.{mips_ops}
use too_legit_to_jit.Mips.Call.{mips_call}
use too_legit_to_jit.Mips.Calling.{
  Moves, mipsreg_isarg, mipsreg_argidx, is_arg_reg, zerorow, zerorow_from, zerocol, zerocol_from,
  set_entry, resolv_rows, resolv_cycle, assign_rows, assign_passes, assign_moves, assign_arg_regs,
  dep_row, dep_graph, each_move,
}
use too_legit_to_jit.Mips.Assign.{sources, nr_sources, wanted, IsServed}
use too_legit_to_jit.Mips.Arguments.{Keeps, assign_arg_regs-Performs, assign_arg_regs-IsServed}
use too_legit_to_jit.Mips.Jump.{jump_target, mips_call-jump_target}
use too_legit_to_jit.Object.{TValue, tvalue, lua_tnumber}
use too_legit_to_jit.Api.{LuaState, lstate_preinit, lua_safepush, lua_pushnumber}
use too_legit_to_jit.Xlogue.Invoke.{ljc_invokec}
use too_legit_to_jit.Xlogue.Returns.{IsCalled, returned, ljc_invokec-returns}

abbrev start : Jit
start = record { emitter = emitter32_create 0; machine = mips_mach }

abbrev no_sections : JFuncs
no_sections = record { jit_functions = []; jfuncs_code = none }

abbrev at_64k : Emitter32 → ℕ
at_64k e = 65536

-- a1 from a0, a2 from a1, a0 from a temporary, a3 from a constant
abbrev call_args : List Operand
call_args = reg 8 ∷ reg 4 ∷ reg 5 ∷ immed 7 ∷ []

assign_arg_regs-Performs_example :
    (ws : List ℕ) × (assign_arg_regs move 4 (dep_graph 4 call_args) start
      ≡ ok (tt, record start { emitter = emit_all ws (start.emitter) }))
    × ((c : Cpu)
        → (c' : Cpu) × (run ws c ≡ some c')
          × ((i : ℕ) → i < 4 → read c' (4 + i) ≡ read c (4 + wanted (sources 4 call_args) i))
          × Keeps c c')
unfolding is_arg_reg mipsreg_isarg mipsreg_argidx
assign_arg_regs-Performs_example = assign_arg_regs-Performs call_args start refl

assign_arg_regs-IsServed_example :
    (ms : Moves) × (assign_arg_regs move 4 (dep_graph 4 call_args) start ≡ each_move move ms start)
    × (length ms ≡ nr_sources (sources 4 call_args))
    × ((i : ℕ) → i < 4 → IsServed (sources 4 call_args) ms i)
assign_arg_regs-IsServed_example = assign_arg_regs-IsServed move call_args start

-- An argument that is in its own register already is loaded from a stack address that holds no
-- argument.
own_register : assign_moves 4 29 (dep_graph 4 (reg 4 ∷ [])) ≡ ok ((reg 4, direct_addr 29 1) ∷ [])
unfolding is_arg_reg mipsreg_isarg mipsreg_argidx zerorow zerorow_from zerocol zerocol_from
    set_entry resolv_rows resolv_cycle assign_rows assign_passes assign_moves dep_row dep_graph
    op_target_reg op_target_daddr
own_register = refl

-- Two arguments that change places: one of them is loaded from a stack slot to which nothing is
-- stored.
swapped_registers :
    assign_moves 4 29 (dep_graph 4 (reg 5 ∷ reg 4 ∷ []))
    ≡ ok ((reg 5, reg 4) ∷ (reg 4, direct_addr 29 248) ∷ [])
unfolding is_arg_reg mipsreg_isarg mipsreg_argidx zerorow zerorow_from zerocol zerocol_from
    set_entry resolv_rows resolv_cycle assign_rows assign_passes assign_moves dep_row dep_graph
    op_target_reg op_target_daddr
swapped_registers = refl

mips_call-jump_target_example :
    (mips_call at_64k (label_absolute (immed 131072)) start
      ≡ ok (tt, record start { emitter = emit_all (mi_jal 131072 ∷ mi_nop ∷ []) (start.emitter) }))
    × (op_field (mi_jal 131072) ≡ 3)
    × (jump_target (65536 + 4) (mi_jal 131072) ≡ 131072)
unfolding absc emitter32_create
mips_call-jump_target_example =
    mips_call-jump_target at_64k 131072 65536 start refl (omega arith) (omega arith) refl
      (omega arith) (omega arith)

getupvalptr-Loads_example :
    (ws : List ℕ) × (getupvalptr (mips_ops at_64k no_sections) (reg 8) 2 start
      ≡ ok (tt, record start { emitter = emit_all ws (start.emitter) }))
    × Loads ws 8 λ c.
      deref c (deref c (deref c (deref c (read c 30) (neg32 4)) 0) (closure_uvs + 4 * 2)) upval_val
getupvalptr-Loads_example =
    getupvalptr-Loads 8 (omega arith) (λ e. omega arith) at_64k no_sections 2 start (omega arith)

abbrev empty_section : JFunc
empty_section = record { addr = 0; temp_clobber = 0; func_data = 0 }

jinit_x_access-entry_example :
    (all : List ℕ) × ((e : Emitter32)
      → jinit_x_access
          (mips_ops at_64k no_sections)
          true
          empty_section
          (record { emitter = e; machine = mips_mach })
        ≡ ok (
          record empty_section { func_data = 1 },
          record { emitter = emit_all (all ++ mi_jr r_ra ∷ mi_nop ∷ []) e; machine = mips_mach },
        ))
    × ((n : ℕ)
        → n ≤ max_live_locals mips_mach
        → (e : Emitter32)
        → x_frame
            (mips_ops at_64k no_sections)
            true
            0
            n
            (record { emitter = e; machine = mips_mach })
          ≡ ok (
            length (drop (entry_offset mips_mach n 1) all),
            record {
              emitter = emit_all (drop (entry_offset mips_mach n 1) all) e;
              machine = mips_mach;
            },
          ))
jinit_x_access-entry_example =
    jinit_x_access-entry at_64k no_sections true empty_section mips_mach (omega arith) (omega arith)

-- a C function that pushes 7 and returns it
abbrev seven : LuaState → Result (ℕ × LuaState)
seven l = and_then (lua_pushnumber l 7) λ left. ok (1, left)

abbrev two_args : List TValue
two_args = tvalue lua_tnumber 1 ∷ tvalue lua_tnumber 2 ∷ []

seven_ends :
    (called : LuaState)
    → IsCalled two_args lstate_preinit called
    → (left : LuaState) × (seven called ≡ ok (1, left)) × (left.top ≤ 20) × (1 ≤ left.top)
unfolding lua_pushnumber lua_safepush
seven_ends called (top, genv, args) =
    let room : ltb called.top 20 ≡ true = rw top refl in
    (
      record called {
        cells = set called.cells called.top (tvalue lua_tnumber 7);
        top = called.top + 1;
      },
      rw room refl,
      omega (arith, top),
      omega (arith, top),
    )

ljc_invokec-returns_example :
    (called : LuaState) × IsCalled two_args lstate_preinit called
    × ((left : LuaState) × (seven called ≡ ok (1, left))
        × (ljc_invokec seven two_args lstate_preinit ≡ returned 1 lstate_preinit left))
ljc_invokec-returns_example =
    ljc_invokec-returns seven two_args lstate_preinit 1 (omega arith) seven_ends
