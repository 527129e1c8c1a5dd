-- ===== src/Cpu/Flow/Targets.antt =====
-- cpu6502.rs: where branches, jumps and calls lead, and which instructions touch memory.
use decomps_agent.Prelude.{ℕ, ◌+◌, ◌^◌, ◌≤◌, ◌≡◌, refl, arith, none, some}
use decomps_agent.Cpu.Table.{Mode, imp, acc, imm, zp, zpx, zpy, abs, abx, aby, ind, izx, izy, rel}
use decomps_agent.Cpu.Insn.{Insn}
use decomps_agent.Cpu.Flow.{branch_target, target, mem_operand, target_by, operand_by}

-- A branch leads into the 64 KB address space, and when it does not wrap around an end of it,
-- at most 128 bytes back from or 127 bytes on from the next instruction.
pub branch_target-reach :
    (pc len operand : ℕ)
    → 128 ≤ pc + len
    → pc + len + 128 ≤ 2 ^ 16
    → let t = branch_target pc len operand in (pc + len ≤ t + 128) × (t ≤ pc + len + 127)
branch_target-reach pc len operand lo hi = ground arith

target_by_operand :
    (m : Mode) (i : Insn) (pc v : ℕ) → target_by m i pc ≡ some v → operand_by m i ≡ none
target_by_operand rel i pc v e = refl
target_by_operand abs i pc v e = ground arith
target_by_operand imp i pc v e = refl
target_by_operand acc i pc v e = refl
target_by_operand imm i pc v e = refl
target_by_operand ind i pc v e = refl
target_by_operand izx i pc v e = refl
target_by_operand izy i pc v e = refl
target_by_operand zp i pc v e = absurd (cc)
target_by_operand zpx i pc v e = absurd (cc)
target_by_operand zpy i pc v e = absurd (cc)
target_by_operand abx i pc v e = absurd (cc)
target_by_operand aby i pc v e = absurd (cc)

-- An instruction that leads somewhere does not touch memory.
pub target-mem_operand : (i : Insn) (pc v : ℕ) → target i pc ≡ some v → mem_operand i ≡ none
unfolding target mem_operand
target-mem_operand i = target_by_operand i.mode i
