-- ===== src/Cpu/Insn.antt =====
-- tools/nesrom/src/cpu6502.rs: decoding one instruction, and what an instruction does to the flow.
pub mod Lengths
use decomps_agent.Prelude.{
  ℕ, ◌+◌, ◌-◌, ◌*◌, ◌%◌, ◌^◌, bit_or, Bool, true, false, not, ◌&&◌, ◌||◌, ltb, ◌==◌, if◌then◌else◌,
  List, [], ◌∷◌, Option, none, some, length, get_or, take,
}
use decomps_agent.Cpu.Table

pub record Insn : Type 0 where
  pub opcode : ℕ
  pub mnemonic : Table.Mnemonic
  pub mode : Table.Mode
  pub len : ℕ
  pub operand : Option ℕ
  pub illegal : Bool
  pub bytes : List ℕ

-- A lone byte: the form of a truncated instruction.
abbrev pub lone_byte : ℕ → Insn
lone_byte b = record {
  opcode = b;
  mnemonic = Table.Mnemonic.dot_byte;
  mode = Table.Mode.imp;
  len = 1;
  operand = none;
  illegal = true;
  bytes = b ∷ [];
}

-- The operand of an instruction of length `len` whose bytes behind the opcode are `rest`.
abbrev pub operand_of : ℕ → List ℕ → Option ℕ
operand_of len rest =
    if len == 2
    then some (get_or rest 0 0)
    else if len == 3
    then some (bit_or (get_or rest 0 0) (get_or rest 1 0 * 2 ^ 8))
    else none

-- `decode` on `b` followed by `rest`; the source wants a slice that is not empty.
unfoldable pub decode : ℕ → List ℕ → Insn
decode b rest =
    let o = Table.op b in
    if ltb (length (b ∷ rest)) o.len then lone_byte b else record {
      opcode = b;
      mnemonic = o.mnemonic;
      mode = o.mode;
      len = o.len;
      operand = operand_of o.len rest;
      illegal = o.illegal;
      bytes = take o.len (b ∷ rest);
    }
