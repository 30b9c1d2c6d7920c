-- ===== src/Tests.antt =====
-- The theorems at concrete inputs.
mod Emitting
mod Registers
mod Words
mod Tables
mod Stacks
mod Comparisons
mod Closures
mod Calls
mod Loading
mod Running
