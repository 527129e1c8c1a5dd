-- ===== src/Sim/Machine.antt =====
-- What the 6502 itself does with registers, stack and memory, as sim.rs has to follow it: the flags are
-- left out, and what depends on them is an argument. The stack is kept apart from the memory, which is
-- right as long as no store goes to its page.
use decomps_agent.Prelude.{
  ℕ, ◌+◌, ◌*◌, ◌/◌, ◌%◌, ◌^◌, bit_and, bit_or, bit_xor, Bool, true, false, ◌==◌, ltb, if◌then◌else◌,
  List, [], ◌∷◌,
}
use decomps_agent.Cpu.Table.{
  Mode, acc, imm, zp, zpx, zpy, abx, aby, izx, izy, Mnemonic, lda, ldx, ldy, sta, stx, sty, tax,
  tay, txa, tya, tsx, txs, pha, pla, php, plp, adc, sbc, inx, dex, iny, dey, and, ora, eor, lsr,
  asl, rol, ror, inc, dec, jsr, rts, rti, brk,
}
use decomps_agent.Cpu.Insn.{Insn}
use decomps_agent.Sim.{unwrap_or_0}

pub record Machine : Type 0 where
  pub a : ℕ
  pub x : ℕ
  pub y : ℕ
  pub pushed : List ℕ
  pub mem : ℕ → ℕ

abbrev pub word_at : (ℕ → ℕ) → ℕ → ℕ
word_at mem at = mem (at % 256) + mem ((at + 1) % 256) * 256

-- The address that an operand stands for.
abbrev pub address : Mode → ℕ → Machine → ℕ
address zp op s = op % 256
address zpx op s = (op % 256 + s.x) % 256
address zpy op s = (op % 256 + s.y) % 256
address abx op s = (op + s.x) % 2 ^ 16
address aby op s = (op + s.y) % 2 ^ 16
address izx op s = word_at s.mem (op + s.x)
address izy op s = (word_at s.mem op + s.y) % 2 ^ 16
address _ op s = op

abbrev pub effective : Insn → Machine → ℕ
effective i s = address i.mode (unwrap_or_0 i.operand) s

abbrev pub fetch_by : Mode → ℕ → Machine → ℕ
fetch_by imm op s = op % 256
fetch_by zp op s = s.mem (address zp op s)
fetch_by zpx op s = s.mem (address zpx op s)
fetch_by zpy op s = s.mem (address zpy op s)
fetch_by abx op s = s.mem (address abx op s)
fetch_by aby op s = s.mem (address aby op s)
fetch_by izx op s = s.mem (address izx op s)
fetch_by izy op s = s.mem (address izy op s)
fetch_by _ op s = s.mem op

abbrev pub fetch : Insn → Machine → ℕ
fetch i s = fetch_by i.mode (unwrap_or_0 i.operand) s

abbrev pub with_a : ℕ → Machine → Machine
with_a n s = record { a = n; x = s.x; y = s.y; pushed = s.pushed; mem = s.mem }

abbrev pub with_x : ℕ → Machine → Machine
with_x n s = record { a = s.a; x = n; y = s.y; pushed = s.pushed; mem = s.mem }

abbrev pub with_y : ℕ → Machine → Machine
with_y n s = record { a = s.a; x = s.x; y = n; pushed = s.pushed; mem = s.mem }

abbrev pub with_pushed : List ℕ → Machine → Machine
with_pushed bytes s = record { a = s.a; x = s.x; y = s.y; pushed = bytes; mem = s.mem }

-- A write behind the start of PRG space goes to the mapper and not to memory.
abbrev pub write : ℕ → ℕ → Machine → Machine
write addr n s = record {
  a = s.a;
  x = s.x;
  y = s.y;
  pushed = s.pushed;
  mem = if ltb addr 0x8000 then (λ j. if j == addr then n else s.mem j) else s.mem;
}

abbrev pub pull : List ℕ → Machine → Machine
pull [] s = s
pull (n ∷ rest) s = with_a n (with_pushed rest s)

abbrev pub discard : List ℕ → Machine → Machine
discard [] s = s
discard (n ∷ rest) s = with_pushed rest s

-- A read-modify-write instruction that puts `kept` into the accumulator, or `other` into memory.
abbrev pub modify : Mode → ℕ → ℕ → Insn → Machine → Machine
modify acc kept other i s = with_a kept s
modify _ kept other i s = write (effective i s) other s

-- One instruction; `other` is a result that depends on the flags, on the old memory or on the stack
-- pointer.
abbrev pub exec_by : Mnemonic → ℕ → Insn → Machine → Machine
exec_by lda other i s = with_a (fetch i s) s
exec_by ldx other i s = with_x (fetch i s) s
exec_by ldy other i s = with_y (fetch i s) s
exec_by sta other i s = write (effective i s) s.a s
exec_by stx other i s = write (effective i s) s.x s
exec_by sty other i s = write (effective i s) s.y s
exec_by tax other i s = with_x s.a s
exec_by tay other i s = with_y s.a s
exec_by txa other i s = with_a s.x s
exec_by tya other i s = with_a s.y s
exec_by tsx other i s = with_x other s
exec_by pha other i s = with_pushed (s.a ∷ s.pushed) s
exec_by pla other i s = pull s.pushed s
exec_by php other i s = with_pushed (other ∷ s.pushed) s
exec_by plp other i s = discard s.pushed s
exec_by adc other i s = with_a other s
exec_by sbc other i s = with_a other s
exec_by inx other i s = with_x ((s.x + 1) % 256) s
exec_by dex other i s = with_x ((s.x + 255) % 256) s
exec_by iny other i s = with_y ((s.y + 1) % 256) s
exec_by dey other i s = with_y ((s.y + 255) % 256) s
exec_by and other i s = with_a (bit_and s.a (fetch i s)) s
exec_by ora other i s = with_a (bit_or s.a (fetch i s)) s
exec_by eor other i s = with_a (bit_xor s.a (fetch i s)) s
exec_by lsr other i s = modify i.mode (s.a / 2) other i s
exec_by asl other i s = modify i.mode (s.a * 2 % 256) other i s
exec_by rol other i s = modify i.mode other other i s
exec_by ror other i s = modify i.mode other other i s
exec_by inc other i s = write (effective i s) other s
exec_by dec other i s = write (effective i s) other s
exec_by _ other i s = s

abbrev pub exec : ℕ → Insn → Machine → Machine
exec other i s = exec_by i.mnemonic other i s

-- The instructions that go on behind themselves with the stack pointer as before them, up to what
-- they push and pull.
abbrev pub is_straight_by : Mnemonic → Bool
is_straight_by jsr = false
is_straight_by rts = false
is_straight_by rti = false
is_straight_by brk = false
is_straight_by txs = false
is_straight_by _ = true

abbrev pub is_straight : Insn → Bool
is_straight i = is_straight_by i.mnemonic
