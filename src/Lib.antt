-- ===== src/Lib.antt =====
-- TooLegitToJit translates Lua 5.2 bytecode to machine code, and this library models its code
-- generator and the tables of its runtime.
--
-- The translator emits code for each Lua instruction through an abstract machine
-- (include/machine.h), whose operations take operands (include/operand.h). The MIPS machine
-- (arch/mips/) implements them; it takes temporary registers from temporaries.c and writes
-- instruction words by emitter32.c, which also collects labels and branches and links them at the
-- end. The emitted code calls runtime functions such as those of table.c and listdict.c.
--
-- Common     shared names, tests, list lemmas, results
-- Word       32-bit words, and include/bit_manip.h
-- Emitter    emitter32.c: `Emitter32` is `struct emitter32`, one function per operation
-- Operand    include/operand.h, operand.c
-- Machine    include/machine.h: `Machine` is `struct machine`, `Jit` is the emitter and the machine
--            that every function takes, `Emit` is the monad of functions that change them or fail
-- Temporaries  temporaries.c
-- Mips       Opcodes is include/arch/mips/opcodes.h, Move is arch/mips/machine.c, Arithmetic is
--            arch/mips/arithmetic.c, Branch is arch/mips/branch.c, Calling and Call are
--            arch/mips/call.c, Jfunc is arch/mips/jfunc.c and the record of the machine's operations;
--            Isa and Processor are an independent description of the processor, without and with its
--            program counter, against which Encoding, MoveLaws, Sums, Arguments, Compare and Loop
--            state what emitted words do
-- Object     include/lobject.h
-- Dictionary listdict.c and table.c
-- Frame      frame.c and the second half of operand.c
-- Stack      stack.c; Sections are its shared code sections and where they are entered
-- Jitfunc    jitfunc.c: the table of the shared code sections, `JFuncs`, and calls of them
-- Xlogue     xlogue.c: calls, returns and the prologue; Sections the shared sections, Table the table
--            `jinittable`, Invoke the call of a C function,
--            Copying and Nilling run the code of two of its loops
-- Synthetic  synthetic.c; Minimum runs the code of two of its functions
-- Lua        Strings is lstring.c and lmetaevent.c, Arith is liarith.c, Relational is libranch.c,
--            Instruction and Calls are instruction.c, Tables is litabup.c, Opcodes is
--            include/lopcodes.h; Order states what the comparisons mean, Moves runs the code of a move
-- Loader     main.c: `Load` is the monad of functions that read the file, Code the translation of a
--            function, which dispatches to the functions of Lua
-- Upvalues   func.c, with `struct UpVal` of include/lobject.h
-- Api        lapi.c and lstate.c; `LuaState` is `lua_State`; Call has the calls of emitted code, which
--            is a parameter
-- Alloc      mmap_alloc.c, over system calls that are parameters
-- Driver     main.c: `ctest`, a C function for Lua programs, and the freeing of the translated code
-- Elf        elf.c: names and labels; Dump the symbols and the sections, Serialise the whole file
-- Tests      the theorems at concrete inputs
--
-- A value of type `int` or `uint32_t` is its bit pattern, a number below 2 ^ 32. A failed assertion,
-- an access out of bounds, an undefined division and a spent bound are the values of `Fault`.
--
-- Bounds: the loop of `DASM_M_GROW` doubles a positive size, so that as many rounds as the bytes
-- needed are enough; `ilog2` shifts a 32-bit word at most 31 times; `move` nests one deep, since a
-- spill is between a register and the stack; the moves into argument registers take at most two
-- passes for each register and one more; temporaries for a C call are at most four; the functions of
-- a file nest as deep as the caller of `load_function` says.
--
-- The table of the shared sections is an argument of the functions that look sections up; the
-- address at which an emitter's buffer lies is a parameter, since the reallocator chooses it, and so
-- are the addresses of the C functions that emitted code calls.
--
-- Not modelled: include/list.h, a copy of the Linux kernel's lists, which are sequences here;
-- lerror.c, which is output; memory that runs out; of main.c the options and the start of the code.
-- The string functions of the C library and the emitted code that C functions call are parameters.
pub mod Common
pub mod Word
pub mod Emitter
pub mod Operand
pub mod Machine
pub mod Temporaries
pub mod Mips
pub mod Object
pub mod Dictionary
pub mod Api
pub mod Upvalues
pub mod Frame
pub mod Synthetic
pub mod Stack
pub mod Jitfunc
pub mod Xlogue
pub mod Lua
pub mod Loader
pub mod Elf
pub mod Alloc
pub mod Driver
mod Tests
