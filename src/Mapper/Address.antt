-- ===== src/Mapper/Address.antt =====
-- tools/nesrom/src/mapper/mod.rs: CPU addresses and PRG file offsets.
pub mod Bank
pub mod Offset
use decomps_agent.Prelude.{
  ℕ, zero, suc, ◌+◌, ◌-◌, ◌*◌, ◌/◌, ◌%◌, ◌^◌, bit_and, bit_or, ltb, leb, ◌==◌, if◌then◌else◌, List,
  [], ◌∷◌, Option, none, some, length, get_or,
}
use decomps_agent.Errors.{Result, ok, err, not_prg_space, bank_out_of_range, not_mapped}
use decomps_agent.Ines.{Rom, usize_wrap}
use decomps_agent.Mapper.State.{BankState, RomLoc}
use decomps_agent.Mapper.Chip.{Mapper, prg_bank_size, bank_count, bank_cpu_base}

unfoldable pub cpu_to_rom : Mapper → Rom → ℕ → BankState → Option RomLoc
cpu_to_rom m rom addr st =
    let slot = (addr - 0x8000) / 0x2000 in
    let file_offset = usize_wrap (get_or st.prg8k slot 0 * 0x2000 + bit_and addr 0x1FFF) in
    let size = prg_bank_size m in
    if ltb addr 0x8000
    then none
    else if leb (length rom.prg) file_offset
    then none
    else some (record {
      cpu_addr = addr;
      bank = file_offset / size;
      offset = file_offset % size;
      file_offset = file_offset;
    })

unfoldable pub resolve : Mapper → Rom → ℕ → Option ℕ → BankState → Result RomLoc
resolve m rom addr (some b) st =
    let size = prg_bank_size m in
    if ltb addr 0x8000
    then err (not_prg_space addr)
    else if leb (bank_count m) b
    then err (bank_out_of_range b (bank_count m) size)
    else ok (record {
      cpu_addr = addr;
      bank = b;
      offset = addr % size;
      file_offset = b * size + addr % size;
    })
resolve m rom addr none st =
    if ltb addr 0x8000
    then err (not_prg_space addr)
    else elim (cpu_to_rom m rom addr st) [ none ↦ err (not_mapped addr) | some loc ↦ ok loc ]

-- The scan of `file_offset_to_cpu` from slot `slot` on.
unfoldable pub find_unit : List ℕ → ℕ → ℕ → ℕ → Option ℕ
find_unit [] unit slot file_offset = none
find_unit (u ∷ rest) unit slot file_offset =
    let more = find_unit rest unit (slot + 1) file_offset in
    if u == unit then some (0x8000 + slot * 0x2000 + bit_and file_offset 0x1FFF) else more

unfoldable pub file_offset_to_cpu : BankState → ℕ → Option ℕ
file_offset_to_cpu st file_offset = find_unit st.prg8k (file_offset / 0x2000) 0 file_offset

unfoldable pub file_offset_to_default_cpu : Mapper → ℕ → ℕ
file_offset_to_default_cpu m file_offset =
    let size = prg_bank_size m in
    (bank_cpu_base m (file_offset / size) + file_offset % size % 2 ^ 16) % 2 ^ 16

unfoldable pub read_u16 : List ℕ → ℕ → Option ℕ
read_u16 prg file_offset =
    if ltb (file_offset + 1) (length prg)
    then some (bit_or (get_or prg file_offset 0) (get_or prg (file_offset + 1) 0 * 2 ^ 8))
    else none
