-- ===== src/Mapper/Address/Offset.antt =====
-- mapper/mod.rs: `file_offset_to_cpu` and `cpu_to_rom` one after the other.
use decomps_agent.Prelude.{
  ℕ, zero, suc, ◌+◌, ◌-◌, ◌*◌, ◌/◌, ◌%◌, ◌^◌, ◌≤◌, ◌<◌, ◌≡◌, refl, arith, List, [], ◌∷◌, some,
  length, get_or, bit_and, All, All-get_lt, ◌==◌, lt→leb_false, le→ltb_false, inl, inr, Bool-cases,
}
use decomps_agent.Prelude.Masks.{bit_and-mask}
use decomps_agent.Ines.{Rom}
use decomps_agent.Mapper.State.{BankState, RomLoc}
use decomps_agent.Mapper.Chip.{Mapper, prg_bank_size}
use decomps_agent.Mapper.Address.{cpu_to_rom, find_unit, file_offset_to_cpu}

-- A hit of the scan: the slot `k` places on shows the unit.
record IsFound (xs : List ℕ) (unit slot file_offset addr : ℕ) : Type 0 where
  place : ℕ
  in_range : place < length xs
  shows : get_or xs place 0 ≡ unit
  address : addr ≡ 0x8000 + (slot + place) * 0x2000 + file_offset % 0x2000

find_unit-IsFound :
    (xs : List ℕ) (unit slot file_offset addr : ℕ)
    → find_unit xs unit slot file_offset ≡ some addr
    → IsFound xs unit slot file_offset addr
unfolding find_unit
find_unit-IsFound [] unit slot file_offset addr e = absurd (cc)
find_unit-IsFound (u ∷ rest) unit slot file_offset addr e = elim (Bool-cases (u == unit)) [
  | inl hit ↦ record {
    place = 0;
    in_range = omega arith;
    shows = ground arith;
    address = ground (arith, bit_and-mask 13 file_offset);
  }
  | inr miss ↦
      let r = find_unit-IsFound rest unit (slot + 1) file_offset addr (ground arith) in
      record {
        place = suc r.place;
        in_range = omega (arith, r.in_range);
        shows = r.shows;
        address = omega (arith, r.address);
      }
]

-- The address that `file_offset_to_cpu` gives lies in PRG space and resolves back to the offset.
pub cpu_to_rom-file_offset_to_cpu :
    (m : Mapper) (rom : Rom) (st : BankState) (file_offset addr : ℕ)
    → length st.prg8k ≡ 4
    → file_offset < length rom.prg
    → length rom.prg < 2 ^ 63
    → file_offset_to_cpu st file_offset ≡ some addr
    → (0x8000 ≤ addr)
      × (addr < 0x10000)
      × (cpu_to_rom m rom addr st
          ≡ some (record {
            cpu_addr = addr;
            bank = file_offset / prg_bank_size m;
            offset = file_offset % prg_bank_size m;
            file_offset = file_offset;
          }))
unfolding file_offset_to_cpu cpu_to_rom
cpu_to_rom-file_offset_to_cpu m rom st file_offset addr four inside small e =
    let r = find_unit-IsFound st.prg8k (file_offset / 0x2000) 0 file_offset addr e in
    let slot : (addr - 0x8000) / 0x2000 ≡ r.place = omega (arith, r.in_range, r.address) in
    let low = bit_and-mask 13 addr in
    let back : get_or st.prg8k r.place 0 * 0x2000 + bit_and addr 0x1FFF ≡ file_offset =
      omega (arith, r.in_range, r.address, r.shows) in
    let fits : file_offset % 2 ^ 64 ≡ file_offset = omega arith in
    (
      omega (arith, r.address),
      omega (arith, r.address, r.in_range),
      rw
          (
            slot,
            le→ltb_false 0x8000 addr (omega (arith, r.address)),
            back,
            fits,
            lt→leb_false file_offset (length rom.prg) inside,
          )
          refl,
    )

-- Some slot shows the unit: the scan finds one, no later than that.
find_unit_hit :
    (xs : List ℕ) (unit slot file_offset k : ℕ)
    → k < length xs
    → get_or xs k 0 ≡ unit
    → (addr : ℕ) × (find_unit xs unit slot file_offset ≡ some addr)
      × (addr ≤ 0x8000 + (slot + k) * 0x2000 + file_offset % 0x2000)
unfolding find_unit
find_unit_hit [] unit slot file_offset k h e = absurd (omega arith)
find_unit_hit (u ∷ rest) unit slot file_offset zero h e = (
  0x8000 + slot * 0x2000 + bit_and file_offset 0x1FFF,
  ground arith,
  omega (arith, bit_and-mask 13 file_offset),
)
find_unit_hit (u ∷ rest) unit slot file_offset (suc k) h e =
    let (addr, found, first) = find_unit_hit rest unit (slot + 1) file_offset k (omega arith) e in
    elim (Bool-cases (u == unit)) [
      | inl hit ↦ (
        0x8000 + slot * 0x2000 + bit_and file_offset 0x1FFF,
        ground arith,
        omega (arith, bit_and-mask 13 file_offset),
      )
      | inr miss ↦ (addr, ground arith, omega arith)
    ]

-- The offset of any PRG address is found again by the scan, at the first address that shows it,
-- and that address resolves to the same offset.
pub file_offset_to_cpu-cpu_to_rom :
    (m : Mapper) (rom : Rom) (st : BankState) (addr : ℕ) (loc : RomLoc)
    → length st.prg8k ≡ 4
    → All (λ u. u < 2 ^ 50) st.prg8k
    → length rom.prg < 2 ^ 63
    → 0x8000 ≤ addr
    → addr < 0x10000
    → cpu_to_rom m rom addr st ≡ some loc
    → (first : ℕ) × (file_offset_to_cpu st loc.file_offset ≡ some first)
      × (first ≤ addr)
      × (cpu_to_rom m rom first st ≡ some (record loc { cpu_addr = first }))
unfolding cpu_to_rom file_offset_to_cpu
file_offset_to_cpu-cpu_to_rom m rom st addr loc four units small lo hi e =
    let slot = (addr - 0x8000) / 0x2000 in
    let unit = get_or st.prg8k slot 0 in
    let below : unit < 2 ^ 50 = All-get_lt (λ u. u < 2 ^ 50) st.prg8k slot 0 (omega arith) units in
    let low = bit_and-mask 13 addr in
    let place : loc.file_offset ≡ unit * 0x2000 + addr % 0x2000 = ground arith in
    let same : get_or st.prg8k slot 0 ≡ loc.file_offset / 0x2000 = omega arith in
    let inside : loc.file_offset < length rom.prg = ground arith in
    let bank : loc.bank ≡ loc.file_offset / prg_bank_size m = ground arith in
    let offset : loc.offset ≡ loc.file_offset % prg_bank_size m = ground arith in
    let (first, found, no_later) =
      find_unit_hit st.prg8k (loc.file_offset / 0x2000) 0 loc.file_offset slot (omega arith) same in
    let back =
      cpu_to_rom-file_offset_to_cpu m rom st loc.file_offset first four inside small found in
    (first, found, omega arith, rw (bank, offset) back.2)
