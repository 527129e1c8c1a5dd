-- ===== src/Tests/Banks.antt =====
-- mapper/: ROMs of 32 KB and of 8 KB, and writes to their registers.
use decomps_agent.Prelude.{
  ℕ, ◌+◌, ◌-◌, ◌/◌, ◌%◌, ◌^◌, ◌≤◌, ◌<◌, ◌≡◌, ◌⊎◌, refl, arith, true, false, some, List, [], ◌∷◌,
  replicate, length, All, get_or, set, length-replicate, bit_and, ◌==◌, if◌then◌else◌,
}
use decomps_agent.Errors.{ok, err, unsupported_mapper}
use decomps_agent.Ines.{Header, Rom, vertical}
use decomps_agent.Mapper.State.{BankState, RomLoc, new}
use decomps_agent.Mapper.Slots.{IsMapped}
use decomps_agent.Mapper.Chip.{
  Mapper, uxrom, mmc1, mmc3, number, prg_size, prg_bank_size, reset_state, windows, state_for_bank,
  for_rom, is_supported, for_rom-is_supported,
}
use decomps_agent.Mapper.Address.{cpu_to_rom, resolve, file_offset_to_cpu, find_unit}
use decomps_agent.Mapper.Address.Bank.{resolve-state_for_bank}
use decomps_agent.Mapper.Address.Offset.{
  cpu_to_rom-file_offset_to_cpu, file_offset_to_cpu-cpu_to_rom,
}
use decomps_agent.Mapper.Windows.{ShowsDefault, windows-reset_state}
use decomps_agent.Mapper.Writes.{run_writes, Lands, run_writes-Lands}
use decomps_agent.Mapper.Mmc1.Serial.{write, five_writes}
use decomps_agent.Mapper.Mmc1
use decomps_agent.Mapper.Mmc3.Layout.{last_banks_fixed, single_bank_wraps}
use decomps_agent.Mapper.Mmc3.Layout
use decomps_agent.Mapper.Mmc3

abbrev header_for : ℕ → ℕ → Header
header_for mapper prg = record {
  mapper = mapper;
  submapper = 0;
  nes2 = false;
  prg_size = prg;
  chr_size = 0;
  chr_ram = true;
  chr_ram_size = 8192;
  prg_ram_size = 0;
  prg_nvram_size = 0;
  mirroring = vertical;
  battery = false;
  trainer = false;
}

abbrev rom_with : ℕ → ℕ → Rom
rom_with mapper prg = record {
  path = "rom.nes";
  header = header_for mapper prg;
  prg = replicate prg 0xEA;
  chr = [];
  sha256 = "0";
  prg_file_base = 16;
}

rom_with-length : (mapper prg : ℕ) → length (rom_with mapper prg).prg ≡ prg
rom_with-length mapper prg = length-replicate {A = ℕ} prg 0xEA

abbrev two_writes : List (ℕ × ℕ)
two_writes = (0x8000, 5) ∷ (0xC123, 0xFF) ∷ []

run_writes-Lands_example :
    Lands
      (uxrom 32768 0)
      (rom_with 2 32768)
      0x9ABC
      (run_writes (uxrom 32768 0) two_writes (reset_state (uxrom 32768 0)))
run_writes-Lands_example =
    run_writes-Lands (uxrom 32768 0) (rom_with 2 32768) two_writes 0x9ABC (omega arith)
      (rom_with-length 2 32768) (omega arith) (omega arith) (omega arith)

resolve-state_for_bank_example :
    (loc : RomLoc) × (resolve
        (mmc3 65536 8192)
        (rom_with 4 65536)
        0x8123
        (some 5)
        (new (0 ∷ 1 ∷ 2 ∷ 3 ∷ []) [])
      ≡ ok loc)
    × (cpu_to_rom
          (mmc3 65536 8192)
          (rom_with 4 65536)
          0x8123
          (state_for_bank (mmc3 65536 8192) 5 0x8123 (new (0 ∷ 1 ∷ 2 ∷ 3 ∷ []) []))
        ≡ some loc)
resolve-state_for_bank_example =
    resolve-state_for_bank (mmc3 65536 8192) (rom_with 4 65536) 5 0x8123
      (new (0 ∷ 1 ∷ 2 ∷ 3 ∷ []) []) (omega arith) (rom_with-length 4 65536) refl (omega arith)
      (omega arith) (omega arith)

abbrev slots : BankState
slots = new (3 ∷ 1 ∷ 6 ∷ 7 ∷ []) []

abbrev at_2123 : RomLoc
at_2123 = record {
  cpu_addr = 0xA123;
  bank = 0x2123 / prg_bank_size (uxrom 65536 0);
  offset = 0x2123 % prg_bank_size (uxrom 65536 0);
  file_offset = 0x2123;
}

found : file_offset_to_cpu slots 0x2123 ≡ some 0xA123
unfolding file_offset_to_cpu find_unit
found = refl

cpu_to_rom-file_offset_to_cpu_example :
    (0x8000 ≤ 0xA123)
    × (0xA123 < 0x10000)
    × (cpu_to_rom (uxrom 65536 0) (rom_with 2 65536) 0xA123 slots ≡ some at_2123)
cpu_to_rom-file_offset_to_cpu_example =
    cpu_to_rom-file_offset_to_cpu (uxrom 65536 0) (rom_with 2 65536) slots 0x2123 0xA123 refl
      (omega (arith, rom_with-length 2 65536)) (omega (arith, rom_with-length 2 65536)) found

located : cpu_to_rom (uxrom 65536 0) (rom_with 2 65536) 0xA123 slots ≡ some at_2123
located =
    (cpu_to_rom-file_offset_to_cpu (uxrom 65536 0) (rom_with 2 65536) slots 0x2123 0xA123 refl
      (omega (arith, rom_with-length 2 65536)) (omega (arith, rom_with-length 2 65536)) found).2

file_offset_to_cpu-cpu_to_rom_example :
    (first : ℕ) × (file_offset_to_cpu slots 0x2123 ≡ some first)
    × (first ≤ 0xA123)
    × (cpu_to_rom (uxrom 65536 0) (rom_with 2 65536) first slots
        ≡ some (record at_2123 { cpu_addr = first }))
file_offset_to_cpu-cpu_to_rom_example =
    file_offset_to_cpu-cpu_to_rom (uxrom 65536 0) (rom_with 2 65536) slots 0xA123 at_2123 refl
      (ground arith) (omega (arith, rom_with-length 2 65536)) (omega arith) (omega arith) located

windows-reset_state_example : All (ShowsDefault (mmc1 131072 0)) (windows (mmc1 131072 0))
windows-reset_state_example = windows-reset_state (mmc1 131072 0) (omega arith)

for_rom-is_supported_example :
    ((is_supported 66 ≡ false) × (for_rom (rom_with 66 32768) ≡ err (unsupported_mapper 66)))
    ⊎ ((m : Mapper) × (is_supported 66 ≡ true)
        × (for_rom (rom_with 66 32768) ≡ ok m)
        × (number m ≡ 66)
        × (prg_size m ≡ 32768))
for_rom-is_supported_example = for_rom-is_supported (rom_with 66 32768)

abbrev serial_start : BankState
serial_start = Mmc1.reset_state 131072 8192

serial_start-IsMapped : IsMapped 16 serial_start
unfolding Mmc1.reset_state
serial_start-IsMapped = Mmc1.Slots.reset_state-IsMapped 131072 8192 (omega arith)

five_writes_example :
    let st' =
      write 131072 8192
        (write 131072 8192
          (write 131072 8192
            (write 131072 8192 (write 131072 8192 serial_start (0xE000, 1)) (0xE000, 0))
            (0xE000, 1))
          (0xE000, 0))
        (0xE000, 0) in
    (st'.regs ≡ set serial_start.regs 3 5) × (st'.shift ≡ 0) × (st'.shift_n ≡ 0)
unfolding Mmc1.reset_state
five_writes_example =
    five_writes 131072 8192 serial_start (0xE000, 1) (0xE000, 0) (0xE000, 1) (0xE000, 0) (0xE000, 0)
      (omega arith) refl (omega arith) (omega arith) (omega arith) (omega arith) (omega arith)

abbrev mmc3_writes : List (ℕ × ℕ)
mmc3_writes = (0x8000, 0x46) ∷ (0x8001, 3) ∷ []

last_banks_fixed_example :
    let st = Layout.run_writes 65536 8192 mmc3_writes (Mmc3.reset_state 65536 8192) in
    (get_or st.prg8k 3 0 ≡ Mmc3.last_bank 65536)
    × (get_or st.prg8k (if bit_and (get_or st.regs 0 0) 0x40 == 0 then 2 else 0) 0 + 1
        ≡ Mmc3.last_bank 65536)
last_banks_fixed_example = last_banks_fixed 65536 8192 mmc3_writes (omega arith) (omega arith)

single_bank_wraps_example :
    let st = Layout.run_writes 0 8192 mmc3_writes (Mmc3.reset_state 0 8192) in
    get_or st.prg8k (if bit_and (get_or st.regs 0 0) 0x40 == 0 then 2 else 0) 0 ≡ 2 ^ 64 - 1
single_bank_wraps_example = single_bank_wraps 0 8192 mmc3_writes (omega arith)
