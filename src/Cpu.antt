-- ===== src/Cpu.antt =====
-- tools/nesrom/src/cpu6502.rs: the 6502 opcode table and the instruction decoder.
pub mod Table
pub mod Insn
pub mod Flow
pub mod Sweep
pub mod Legal
pub mod Registers
