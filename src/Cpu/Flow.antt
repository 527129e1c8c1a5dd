-- ===== src/Cpu/Flow.antt =====
-- tools/nesrom/src/cpu6502.rs: what an instruction does to the flow of control and to memory.
pub mod Targets
use decomps_agent.Prelude.{
  ℕ, ◌+◌, ◌-◌, ◌%◌, ◌^◌, Bool, true, false, not, ◌&&◌, ◌||◌, ltb, ◌==◌, if◌then◌else◌, Option, none,
  some, ◌>>=◌,
}
use decomps_agent.Cpu.Table.{
  Mode, imp, acc, imm, zp, zpx, zpy, abs, abx, aby, ind, izx, izy, rel, Mnemonic, sta, stx, sty,
  lda, ldx, ldy, inc, dec, asl, lsr, rol, ror,
}
use decomps_agent.Cpu.Insn.{Insn}

abbrev is_rel : Mode → Bool
is_rel rel = true
is_rel _ = false

abbrev is_acc : Mode → Bool
is_acc acc = true
is_acc _ = false

unfoldable pub is_branch : Insn → Bool
is_branch i = is_rel i.mode

unfoldable pub is_jsr : Insn → Bool
is_jsr i = i.opcode == 0x20

unfoldable pub is_jmp_abs : Insn → Bool
is_jmp_abs i = i.opcode == 0x4C

unfoldable pub is_jmp_ind : Insn → Bool
is_jmp_ind i = i.opcode == 0x6C

unfoldable pub is_return : Insn → Bool
is_return i = i.opcode == 0x60 || i.opcode == 0x40

unfoldable pub is_brk : Insn → Bool
is_brk i = i.opcode == 0x00

abbrev store_mnemonic : Mnemonic → Bool
store_mnemonic sta = true
store_mnemonic stx = true
store_mnemonic sty = true
store_mnemonic _ = false

abbrev load_mnemonic : Mnemonic → Bool
load_mnemonic lda = true
load_mnemonic ldx = true
load_mnemonic ldy = true
load_mnemonic _ = false

abbrev modify_mnemonic : Mnemonic → Bool
modify_mnemonic inc = true
modify_mnemonic dec = true
modify_mnemonic asl = true
modify_mnemonic lsr = true
modify_mnemonic rol = true
modify_mnemonic ror = true
modify_mnemonic _ = false

unfoldable pub is_store : Insn → Bool
is_store i = store_mnemonic i.mnemonic

unfoldable pub is_load : Insn → Bool
is_load i = load_mnemonic i.mnemonic

unfoldable pub is_rmw : Insn → Bool
is_rmw i = modify_mnemonic i.mnemonic && not (is_acc i.mode)

unfoldable pub ends_flow : Insn → Bool
unfolding is_return is_jmp_abs is_jmp_ind is_brk
ends_flow i = is_return i || is_jmp_abs i || is_jmp_ind i || is_brk i || i.illegal

-- `(pc as i32 + len as i32 + off) as u16`, with `off` the operand's low byte as a signed number.
abbrev pub branch_target : ℕ → ℕ → ℕ → ℕ
branch_target pc len operand =
    let off = operand % 256 in
    if ltb off 128 then (pc + len + off) % 2 ^ 16 else (pc + len + 2 ^ 16 + off - 256) % 2 ^ 16

abbrev target_by : Mode → Insn → ℕ → Option ℕ
target_by rel i pc = i.operand >>= λ v. some (branch_target pc i.len v)
target_by abs i pc = if i.opcode == 0x20 || i.opcode == 0x4C then i.operand else none
target_by _ i pc = none

unfoldable pub target : Insn → ℕ → Option ℕ
target i pc = target_by i.mode i pc

abbrev operand_by : Mode → Insn → Option ℕ
operand_by zp i = if i.opcode == 0x20 || i.opcode == 0x4C then none else i.operand
operand_by zpx i = if i.opcode == 0x20 || i.opcode == 0x4C then none else i.operand
operand_by zpy i = if i.opcode == 0x20 || i.opcode == 0x4C then none else i.operand
operand_by abs i = if i.opcode == 0x20 || i.opcode == 0x4C then none else i.operand
operand_by abx i = if i.opcode == 0x20 || i.opcode == 0x4C then none else i.operand
operand_by aby i = if i.opcode == 0x20 || i.opcode == 0x4C then none else i.operand
operand_by _ i = none

unfoldable pub mem_operand : Insn → Option ℕ
mem_operand i = operand_by i.mode i

abbrev indexed_mode : Mode → Bool
indexed_mode zpx = true
indexed_mode zpy = true
indexed_mode abx = true
indexed_mode aby = true
indexed_mode izx = true
indexed_mode izy = true
indexed_mode _ = false

unfoldable pub indexed : Insn → Bool
indexed i = indexed_mode i.mode
