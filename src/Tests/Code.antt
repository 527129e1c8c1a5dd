-- ===== src/Tests/Code.antt =====
-- cpu6502.rs and stats.rs on short pieces of code.
use decomps_agent.Prelude.{ℕ, ◌≤◌, ◌≡◌, ◌↔◌, refl, arith, false, some, ◌>>=◌, List, [], ◌∷◌, take}
use decomps_agent.Cpu.Table
use decomps_agent.Cpu.Insn.{Insn, decode}
use decomps_agent.Cpu.Insn.Lengths.{decode-prefix, assemble, assemble-decode}
use decomps_agent.Cpu.Legal.{op-legal_row}
use decomps_agent.Cpu.Flow.{target}
use decomps_agent.Cpu.Sweep.{sweep}
use decomps_agent.Cpu.Sweep.Cover.{Covers, sweep-Covers}
use decomps_agent.Cpu.Registers.{hw_register, apu_channel, oamdma}
use decomps_agent.Cpu.Registers.Names.{
  address_of, channel_of, hw_register-address, hw_register-apu_channel,
}

-- LDA $0200 and JMP $8000, the latter cut off.
abbrev code : List ℕ
code = 0x00 ∷ 0x02 ∷ 0x4C ∷ 0x00 ∷ []

decode-prefix_example :
    let i = decode 0xAD code in
    (1 ≤ i.len) × (i.len ≤ 3) × (i.len ≤ 5) × (i.bytes ≡ take i.len (0xAD ∷ code))
decode-prefix_example = decode-prefix 0xAD code (omega arith)

assemble-decode_example : assemble (decode 0xAD code) ≡ (decode 0xAD code).bytes
assemble-decode_example = assemble-decode 0xAD code (omega arith) (ground arith)

abbrev last_row : Table.Legal
last_row = record { opcode = 0x98; mnemonic = Table.Mnemonic.tya; mode = Table.Mode.imp }

op-legal_row_example : Table.op 0x98 ≡ Table.entry last_row
unfolding Table.legal
op-legal_row_example = op-legal_row 150 last_row refl

abbrev jump : Insn
jump = record {
  opcode = 0x4C;
  mnemonic = Table.Mnemonic.jmp;
  mode = Table.Mode.abs;
  len = 3;
  operand = some 0x8000;
  illegal = false;
  bytes = 0x4C ∷ 0x00 ∷ 0x80 ∷ [];
}

jumps : target jump 0x9000 ≡ some 0x8000
unfolding target
jumps = refl

sweep-Covers_example : Covers (0xAD ∷ code) (record { total = 0; good = 0 }) (sweep (0xAD ∷ code))
sweep-Covers_example = sweep-Covers (0xAD ∷ code) (ground arith)

hw_register-address_example : (hw_register 0x4014 ≡ some oamdma) ↔ (0x4014 ≡ address_of oamdma)
hw_register-address_example = hw_register-address 0x4014 oamdma

hw_register-apu_channel_example : (hw_register 0x400A >>= channel_of) ≡ apu_channel 0x400A
hw_register-apu_channel_example = hw_register-apu_channel 0x400A
