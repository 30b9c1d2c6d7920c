-- ===== src/Mips.antt =====
-- The MIPS machine: arch/mips and include/arch/mips.
pub mod Opcodes
pub mod Isa
pub mod Encoding
pub mod Move
pub mod MoveLaws
pub mod Sums
mod Depth
pub mod Processor
pub mod Compare
pub mod Loop
pub mod Arithmetic
pub mod Branch
pub mod Call
pub mod Compose
pub mod Calling
pub mod Assign
pub mod Arguments
pub mod Jfunc
pub mod Jump
