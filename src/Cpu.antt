-- ===== src/Cpu.antt =====
-- The processor.
pub mod Defs
pub mod Stack
pub mod AddressingMode
pub mod Execute
pub mod Opcodes
pub mod Fetch
pub mod Breakpoints
pub mod Thread
pub mod Power
