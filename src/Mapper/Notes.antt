-- ===== src/Mapper/Notes.antt =====
-- mapper/*.rs: the annotation of a store to a mapper register, with the text as a constructor.
use decomps_agent.Prelude.{
  ℕ, ◌/◌, ◌^◌, ◌≡◌, inl, inr, refl, arith, bit_and, Bool, true, false, ltb, leb, ◌==◌,
  if◌then◌else◌, Bool-cases, Option, none, some,
}
use decomps_agent.Mapper.Chip.{Mapper, nrom, mmc1, uxrom, cnrom, mmc3, is_mapper_reg}

pub data Note : Type 0 where
  prg_bank_note chr_bank_note : Note
  serial_control serial_chr0 serial_chr1 serial_prg : Note
  bank_select bank_data set_mirroring ram_protect irq_latch irq_reload irq_disable irq_enable : Note

abbrev nrom_note : ℕ → Option Note
nrom_note addr = none

abbrev uxrom_note : ℕ → Option Note
uxrom_note addr = if leb 0x8000 addr then some prg_bank_note else none

abbrev cnrom_note : ℕ → Option Note
cnrom_note addr = if leb 0x8000 addr then some chr_bank_note else none

abbrev mmc1_note : ℕ → Option Note
mmc1_note addr =
    let reg = bit_and (addr / 2 ^ 13) 3 in
    if ltb addr 0x8000
    then none
    else some (
        if reg == 0
        then serial_control
        else if reg == 1
        then serial_chr0
        else if reg == 2
        then serial_chr1
        else serial_prg)

abbrev mmc3_note : ℕ → Option Note
mmc3_note addr =
    let reg = bit_and addr 0xE001 in
    if ltb addr 0x8000
    then none
    else some (
        if reg == 0x8000
        then bank_select
        else if reg == 0x8001
        then bank_data
        else if reg == 0xA000
        then set_mirroring
        else if reg == 0xA001
        then ram_protect
        else if reg == 0xC000
        then irq_latch
        else if reg == 0xC001
        then irq_reload
        else if reg == 0xE000
        then irq_disable
        else irq_enable)

abbrev pub write_note : Mapper → ℕ → Option Note
write_note (nrom prg chr) = nrom_note
write_note (mmc1 prg chr) = mmc1_note
write_note (uxrom prg chr) = uxrom_note
write_note (cnrom prg chr) = cnrom_note
write_note (mmc3 prg chr) = mmc3_note

abbrev pub has_note : Option Note → Bool
has_note none = false
has_note (some note) = true

-- A store is annotated exactly if its address is a mapper register.
pub write_note-is_mapper_reg :
    (m : Mapper) (addr : ℕ) → has_note (write_note m addr) ≡ is_mapper_reg m addr
unfolding is_mapper_reg
write_note-is_mapper_reg (nrom prg chr) addr = refl
write_note-is_mapper_reg (uxrom prg chr) addr = ground arith
write_note-is_mapper_reg (cnrom prg chr) addr = ground arith
write_note-is_mapper_reg (mmc1 prg chr) addr = elim (Bool-cases (ltb addr 0x8000)) [
  | inl low ↦ let outside : leb 0x8000 addr ≡ false = ground arith in rw (low, outside) refl
  | inr high ↦ let inside : leb 0x8000 addr ≡ true = ground arith in rw (high, inside) refl
]
write_note-is_mapper_reg (mmc3 prg chr) addr = elim (Bool-cases (ltb addr 0x8000)) [
  | inl low ↦ let outside : leb 0x8000 addr ≡ false = ground arith in rw (low, outside) refl
  | inr high ↦ let inside : leb 0x8000 addr ≡ true = ground arith in rw (high, inside) refl
]
