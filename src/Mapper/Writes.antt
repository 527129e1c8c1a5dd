-- ===== src/Mapper/Writes.antt =====
-- Any sequence of CPU writes from the reset state keeps every PRG address on a byte of the ROM.
use decomps_agent.Prelude.{
  ℕ, ◌+◌, ◌-◌, ◌*◌, ◌/◌, ◌%◌, ◌^◌, ◌≤◌, ◌<◌, ◌≡◌, refl, arith, List, [], ◌∷◌, some, length, get_or,
  All-get_lt, bit_and, lt→leb_false, le→ltb_false,
}
use decomps_agent.Prelude.Masks.{bit_and-mask}
use decomps_agent.Ines.{Rom}
use decomps_agent.Mapper.State.{BankState, RomLoc}
use decomps_agent.Mapper.Slots.{IsMapped}
use decomps_agent.Mapper.Nrom
use decomps_agent.Mapper.Uxrom
use decomps_agent.Mapper.Cnrom
use decomps_agent.Mapper.Mmc1
use decomps_agent.Mapper.Mmc3
use decomps_agent.Mapper.Chip.{
  Mapper, nrom, mmc1, uxrom, cnrom, mmc3, prg_size, prg_bank_size, bank_count, reset_state,
  on_write, WellSized,
}
use decomps_agent.Mapper.Address.{cpu_to_rom}

-- The state after the writes `(address, value)`, first to last.
abbrev pub run_writes : Mapper → List (ℕ × ℕ) → BankState → BankState
run_writes m [] st = st
run_writes m ((addr, value) ∷ ws) st = run_writes m ws (on_write m addr value st).0

abbrev pub WritesBytes : List (ℕ × ℕ) → Type 0
WritesBytes [] = Unit {0}
WritesBytes ((addr, value) ∷ ws) = (value < 256) × WritesBytes ws

reset_state-IsMapped : (m : Mapper) → WellSized m → IsMapped (prg_size m / 8192) (reset_state m)
unfolding reset_state
reset_state-IsMapped (nrom prg chr) (a, b, c) = Nrom.Slots.reset_state-IsMapped prg b a
reset_state-IsMapped (mmc1 prg chr) (a, b, c) = Mmc1.Slots.reset_state-IsMapped prg chr b
reset_state-IsMapped (uxrom prg chr) (a, b, c) = Uxrom.Slots.reset_state-IsMapped prg b
reset_state-IsMapped (cnrom prg chr) (a, b, c) = Cnrom.Slots.reset_state-IsMapped prg b a
reset_state-IsMapped (mmc3 prg chr) (a, b, c) =
    Mmc3.Slots.reset_state-IsMapped prg chr b (omega arith)

on_write-IsMapped :
    (m : Mapper) (addr value : ℕ) (st : BankState)
    → WellSized m
    → value < 256
    → IsMapped (prg_size m / 8192) st
    → IsMapped (prg_size m / 8192) (on_write m addr value st).0
unfolding on_write
on_write-IsMapped (nrom prg chr) addr value st w hv v = unfold Nrom.on_write in v
on_write-IsMapped (mmc1 prg chr) addr value st (a, b, c) hv v =
    Mmc1.Slots.on_write-IsMapped prg chr addr value st b v
on_write-IsMapped (uxrom prg chr) addr value st (a, b, c) hv v =
    Uxrom.Slots.on_write-IsMapped prg addr value st b hv v
on_write-IsMapped (cnrom prg chr) addr value st w hv v =
    Cnrom.Slots.on_write-IsMapped chr addr value (prg / 8192) st hv v
on_write-IsMapped (mmc3 prg chr) addr value st (a, b, c) hv v =
    Mmc3.Slots.on_write-IsMapped prg chr addr value st b (omega arith) hv v

pub run_writes-IsMapped :
    (m : Mapper) (ws : List (ℕ × ℕ)) (st : BankState)
    → WellSized m
    → WritesBytes ws
    → IsMapped (prg_size m / 8192) st
    → IsMapped (prg_size m / 8192) (run_writes m ws st)
run_writes-IsMapped m [] st w hs v = v
run_writes-IsMapped m ((addr, value) ∷ ws) st w (h, hs) v =
    run_writes-IsMapped m ws (on_write m addr value st).0 w hs
      (on_write-IsMapped m addr value st w h v)

-- The location that an address has, of a mapper whose slots lie inside the ROM.
abbrev pub Lands : Mapper → Rom → ℕ → BankState → Type 0
Lands m rom addr st =
    (loc : RomLoc) × (cpu_to_rom m rom addr st ≡ some loc)
    × (loc.cpu_addr ≡ addr)
    × (loc.file_offset < length rom.prg)
    × (loc.bank < bank_count m)
    × (loc.offset < prg_bank_size m)
    × (loc.file_offset ≡ loc.bank * prg_bank_size m + loc.offset)

-- Bank and offset of a file offset inside the ROM.
location_bounds :
    (m : Mapper) (file_offset : ℕ)
    → WellSized m
    → file_offset < prg_size m
    → (file_offset / prg_bank_size m < bank_count m)
      × (file_offset % prg_bank_size m < prg_bank_size m)
      × (file_offset
          ≡ file_offset / prg_bank_size m * prg_bank_size m + file_offset % prg_bank_size m)
location_bounds (nrom prg chr) file_offset w h = omega arith
location_bounds (mmc1 prg chr) file_offset w h = omega arith
location_bounds (uxrom prg chr) file_offset w h = omega arith
location_bounds (cnrom prg chr) file_offset w h = omega arith
location_bounds (mmc3 prg chr) file_offset w h = omega arith

IsMapped-Lands :
    (m : Mapper) (rom : Rom) (addr : ℕ) (st : BankState)
    → WellSized m
    → length rom.prg ≡ prg_size m
    → 0x8000 ≤ addr
    → addr < 0x10000
    → IsMapped (prg_size m / 8192) st
    → Lands m rom addr st
unfolding cpu_to_rom
IsMapped-Lands m rom addr st w whole lo hi v =
    let size = prg_bank_size m in
    let slot = (addr - 0x8000) / 0x2000 in
    let unit = get_or st.prg8k slot 0 in
    let below : unit < prg_size m / 8192 =
      All-get_lt (λ u. u < prg_size m / 8192) st.prg8k slot 0 (omega (arith, v.four)) v.prg in
    let low = bit_and-mask 13 addr in
    let place = (unit * 0x2000 + bit_and addr 0x1FFF) % 2 ^ 64 in
    let inside : place < prg_size m = omega arith in
    let bounds = location_bounds m place w inside in
    (
      record { cpu_addr = addr; bank = place / size; offset = place % size; file_offset = place },
      rw (le→ltb_false 0x8000 addr lo, lt→leb_false place (length rom.prg) (omega arith)) refl,
      refl,
      omega arith,
      bounds.0,
      bounds.1,
      bounds.2,
    )

-- From reset, after any writes of bytes to any addresses, every CPU address from $8000 to $FFFF
-- resolves to a byte of the PRG ROM, reported with its bank and the offset inside that bank: for a PRG
-- ROM of whole banks of the chip, at least 16 KB and below 2^63 bytes, as the header's size says.
pub run_writes-Lands :
    (m : Mapper) (rom : Rom) (ws : List (ℕ × ℕ)) (addr : ℕ)
    → WellSized m
    → length rom.prg ≡ prg_size m
    → WritesBytes ws
    → 0x8000 ≤ addr
    → addr < 0x10000
    → Lands m rom addr (run_writes m ws (reset_state m))
run_writes-Lands m rom ws addr w whole bytes lo hi =
    IsMapped-Lands m rom addr (run_writes m ws (reset_state m)) w whole lo hi
      (run_writes-IsMapped m ws (reset_state m) w bytes (reset_state-IsMapped m w))
