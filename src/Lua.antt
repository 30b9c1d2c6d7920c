-- ===== src/Lua.antt =====
-- The Lua instructions and the runtime functions that their code calls.
pub mod Strings
pub mod Arith
pub mod Relational
pub mod Instruction
pub mod Calls
pub mod Moves
pub mod Tables
pub mod Opcodes
pub mod Order
