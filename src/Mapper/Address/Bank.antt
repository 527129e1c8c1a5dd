-- ===== src/Mapper/Address/Bank.antt =====
-- mapper/mod.rs: `state_for_bank` beside `resolve`.
use decomps_agent.Prelude.{
  ℕ, ◌+◌, ◌-◌, ◌*◌, ◌/◌, ◌%◌, ◌^◌, ◌≤◌, ◌<◌, ◌≡◌, refl, arith, List, some, length, length-set,
  get_or, set, get_or-set_self, get_or-set_ne, bit_and, lt→leb_false, le→ltb_false,
}
use decomps_agent.Prelude.Masks.{bit_and-mask}
use decomps_agent.Errors.{ok}
use decomps_agent.Ines.{Rom}
use decomps_agent.Mapper.State.{BankState, RomLoc}
use decomps_agent.Mapper.Chip.{
  Mapper, nrom, mmc1, uxrom, cnrom, mmc3, prg_size, prg_bank_size, bank_count, show_bank,
  state_for_bank, WellSized,
}
use decomps_agent.Mapper.Address.{cpu_to_rom, resolve}

-- The unit that a slot shows after `state_for_bank`.
abbrev shown : Mapper → ℕ → ℕ → BankState → ℕ
shown m bank addr st = get_or (state_for_bank m bank addr st).prg8k ((addr - 0x8000) / 0x2000) 0

shown_16k :
    (bank addr : ℕ) (xs : List ℕ)
    → length xs ≡ 4
    → 0x8000 ≤ addr
    → addr < 0x10000
    → get_or
        (show_bank 2 0 ((0x8000 + (addr - 0x8000) / 16384 * 16384 - 0x8000) / 0x2000) bank 2 xs)
        ((addr - 0x8000) / 0x2000)
        0
      ≡ bank * 2 + (addr - 0x8000) / 0x2000 % 2
unfolding show_bank
shown_16k bank addr xs four lo hi =
    let slot0 = (0x8000 + (addr - 0x8000) / 16384 * 16384 - 0x8000) / 0x2000 in
    let slot = (addr - 0x8000) / 0x2000 in
    let xs' = set xs (slot0 + 0) (bank * 2 + 0) in
    ground (
      arith,
      length-set xs (slot0 + 0) (bank * 2 + 0),
      get_or-set_self xs (slot0 + 0) (bank * 2 + 0) 0,
      get_or-set_self xs' (slot0 + 1) (bank * 2 + 1) 0,
      get_or-set_ne xs' (slot0 + 1) slot (bank * 2 + 1) 0,
    )

shown_8k :
    (bank addr : ℕ) (xs : List ℕ)
    → length xs ≡ 4
    → 0x8000 ≤ addr
    → addr < 0x10000
    → get_or
        (show_bank 1 0 ((0x8000 + (addr - 0x8000) / 8192 * 8192 - 0x8000) / 0x2000) bank 1 xs)
        ((addr - 0x8000) / 0x2000)
        0
      ≡ bank
unfolding show_bank
shown_8k bank addr xs four lo hi =
    let slot0 = (0x8000 + (addr - 0x8000) / 8192 * 8192 - 0x8000) / 0x2000 in
    let same : slot0 + 0 ≡ (addr - 0x8000) / 0x2000 = omega arith in
    ground (arith, same, get_or-set_self xs ((addr - 0x8000) / 0x2000) (bank * 1 + 0) 0)

-- The unit in the slot of the address, and the place in the unit, are the place in the bank.
shown-bank :
    (m : Mapper) (bank addr : ℕ) (st : BankState)
    → length st.prg8k ≡ 4
    → 0x8000 ≤ addr
    → addr < 0x10000
    → shown m bank addr st * 0x2000 + addr % 0x2000
      ≡ bank * prg_bank_size m + addr % prg_bank_size m
unfolding state_for_bank
shown-bank (nrom prg chr) bank addr st four lo hi =
    rw (le→ltb_false 0x8000 addr lo, shown_16k bank addr st.prg8k four lo hi) (omega arith)
shown-bank (mmc1 prg chr) bank addr st four lo hi =
    rw (le→ltb_false 0x8000 addr lo, shown_16k bank addr st.prg8k four lo hi) (omega arith)
shown-bank (uxrom prg chr) bank addr st four lo hi =
    rw (le→ltb_false 0x8000 addr lo, shown_16k bank addr st.prg8k four lo hi) (omega arith)
shown-bank (cnrom prg chr) bank addr st four lo hi =
    rw (le→ltb_false 0x8000 addr lo, shown_16k bank addr st.prg8k four lo hi) (omega arith)
shown-bank (mmc3 prg chr) bank addr st four lo hi =
    rw (le→ltb_false 0x8000 addr lo, shown_8k bank addr st.prg8k four lo hi) refl

-- A place in a bank of the ROM.
bank_bounds :
    (m : Mapper) (bank addr : ℕ)
    → WellSized m
    → bank < bank_count m
    → let place = bank * prg_bank_size m + addr % prg_bank_size m in
      (place < prg_size m)
      × (place / prg_bank_size m ≡ bank)
      × (place % prg_bank_size m ≡ addr % prg_bank_size m)
bank_bounds (nrom prg chr) bank addr w h = omega arith
bank_bounds (mmc1 prg chr) bank addr w h = omega arith
bank_bounds (uxrom prg chr) bank addr w h = omega arith
bank_bounds (cnrom prg chr) bank addr w h = omega arith
bank_bounds (mmc3 prg chr) bank addr w h = omega arith

-- An explicit bank and the bank state made for it mean the same location, for every chip, every
-- PRG address and every bank of the ROM, when the PRG ROM is one of whole banks of the chip, at least
-- 16 KB and below 2^63 bytes, and the state that is changed has four slots.
pub resolve-state_for_bank :
    (m : Mapper) (rom : Rom) (bank addr : ℕ) (st : BankState)
    → WellSized m
    → length rom.prg ≡ prg_size m
    → length st.prg8k ≡ 4
    → 0x8000 ≤ addr
    → addr < 0x10000
    → bank < bank_count m
    → (loc : RomLoc) × (resolve m rom addr (some bank) st ≡ ok loc)
      × (cpu_to_rom m rom addr (state_for_bank m bank addr st) ≡ some loc)
unfolding resolve cpu_to_rom
resolve-state_for_bank m rom bank addr st w whole four lo hi h =
    let size = prg_bank_size m in
    let place = bank * size + addr % size in
    let bounds = bank_bounds m bank addr w h in
    let found : shown m bank addr st * 0x2000 + bit_and addr 0x1FFF ≡ place =
      omega (arith, bit_and-mask 13 addr, shown-bank m bank addr st four lo hi) in
    let fits : place % 2 ^ 64 ≡ place = omega arith in
    (
      record { cpu_addr = addr; bank = bank; offset = addr % size; file_offset = place },
      rw (le→ltb_false 0x8000 addr lo, lt→leb_false bank (bank_count m) h) refl,
      rw
          (
            le→ltb_false 0x8000 addr lo,
            found,
            fits,
            lt→leb_false place (length rom.prg) (omega arith),
            bounds.1,
            bounds.2,
          )
          refl,
    )
