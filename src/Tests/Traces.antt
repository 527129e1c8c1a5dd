-- ===== src/Tests/Traces.antt =====
-- sim.rs and vram.rs on single instructions.
use decomps_agent.Prelude.{◌+◌, ◌*◌, ◌≡◌, refl, arith, true, false, none, some, [], ◌∷◌, ℕ, List}
use decomps_agent.Ines.{Rom, vertical}
use decomps_agent.Cpu.Table
use decomps_agent.Cpu.Insn.{Insn}
use decomps_agent.Sim.{Regs, unknown, imm_val}
use decomps_agent.Sim.Machine.{Machine}
use decomps_agent.Vram.{Vram, from_a, region, step, step_store}
use decomps_agent.Vram.Sites.{VramWrite, group_sites}
use decomps_agent.Vram.Sites.Order.{IsSorted}
use decomps_agent.Vram.Sites.Groups.{joined, reversed, IsGrouping, group_sites-IsGrouping}
use decomps_agent.Vram.Bounds.{IsStep, step-IsStep}
use decomps_agent.Vram.Regions.{Locates, region-Locates}
use decomps_agent.Vram.Stream.{upload, writes_from, upload-latched}

abbrev empty_rom : Rom
empty_rom = record {
  path = "empty.nes";
  header = record {
    mapper = 0;
    submapper = 0;
    nes2 = false;
    prg_size = 0;
    chr_size = 0;
    chr_ram = true;
    chr_ram_size = 8192;
    prg_ram_size = 0;
    prg_nvram_size = 0;
    mirroring = vertical;
    battery = false;
    trainer = false;
  };
  prg = [];
  chr = [];
  sha256 = "0";
  prg_file_base = 16;
}

-- STA $10 with 5 in A.
abbrev sta_10 : Insn
sta_10 = record {
  opcode = 0x85;
  mnemonic = Table.Mnemonic.sta;
  mode = Table.Mode.zp;
  len = 2;
  operand = some 0x10;
  illegal = false;
  bytes = 0x85 ∷ 0x10 ∷ [];
}

abbrev five : Regs
five = record {
  a = imm_val 5;
  x = unknown;
  y = unknown;
  stack = imm_val 1 ∷ [];
  zp_map = λ j. some (imm_val 3);
}

abbrev console : Machine
console = record { a = 5; x = 8; y = 9; pushed = 1 ∷ 2 ∷ []; mem = λ j. 3 }

abbrev start : Vram
start = record {
  expect_lo = false;
  hi = none;
  addr = some 0x3FFF;
  inc = some 32;
  pending = λ j. none;
}

-- STA $2007
abbrev sta_2007 : Insn
sta_2007 = record {
  opcode = 0x8D;
  mnemonic = Table.Mnemonic.sta;
  mode = Table.Mode.abs;
  len = 3;
  operand = some 0x2007;
  illegal = false;
  bytes = 0x8D ∷ 0x07 ∷ 0x20 ∷ [];
}

step-IsStep_example : IsStep (step sta_2007 five start [])
step-IsStep_example = step-IsStep sta_2007 five start [] (ground arith)

region-Locates_example : Locates 0x23C5 (region 0x63C5)
region-Locates_example = region-Locates 0x63C5

upload-latched_example :
    let after_high = (step_store 0x2006 (imm_val 0x3F) from_a start []).0 in
    let after_low = (step_store 0x2006 (imm_val 0xFE) from_a after_high []).0 in
    upload (imm_val 1 ∷ unknown ∷ []) from_a after_low []
    ≡ writes_from (0x3F * 256 + 0xFE) 32 (imm_val 1 ∷ unknown ∷ []) from_a
upload-latched_example =
    upload-latched 0x3F 0xFE (imm_val 0x3F) (imm_val 0xFE) (imm_val 1 ∷ unknown ∷ []) from_a start
      [] refl refl (omega arith) (omega arith) refl

abbrev write_at : ℕ → ℕ → VramWrite
write_at n seq = record {
  addr = "$8000";
  bank = 0;
  routine = "$8000";
  caller = none;
  vram = "$2000";
  region = "nametable 0 row 0 col 0";
  value = some 7;
  value_desc = "#$07";
  source = "immediate";
  via_call = none;
  off = 0;
  vram_n = n;
  seq = seq;
}

-- Two writes a row apart, and one elsewhere before them.
abbrev three_writes : List VramWrite
three_writes = write_at 0x2020 2 ∷ write_at 0x2000 1 ∷ write_at 0x23C0 0 ∷ []

group_sites-IsGrouping_example :
    (sorted : List VramWrite) × (groups : List (List VramWrite)) × IsSorted three_writes sorted
    × (joined groups ≡ reversed sorted [])
    × IsGrouping (group_sites three_writes) groups
group_sites-IsGrouping_example = group_sites-IsGrouping three_writes (omega arith)
