-- ===== src/Mapper/Cnrom.antt =====
-- tools/nesrom/src/mapper/cnrom.rs: PRG as NROM, a write selects an 8 KB CHR bank.
pub mod Slots
use decomps_agent.Prelude.{
  ℕ, ◌+◌, ◌*◌, ◌/◌, ◌%◌, max, bit_and, ltb, ◌!=◌, if◌then◌else◌, List, Option, none, some, get_or,
  set,
}
use decomps_agent.Mapper.State.{BankState, new, identity_chr, units_from, BankSwitch, cnrom_select}
use decomps_agent.Mapper.Nrom.{fixed_prg8k}

unfoldable pub reset_state : ℕ → BankState
unfolding fixed_prg8k
reset_state prg = new (fixed_prg8k prg) identity_chr

abbrev pub chr_banks : ℕ → ℕ
chr_banks chr = max (chr / 8192) 1

pub on_write : ℕ → ℕ → ℕ → BankState → BankState × Option BankSwitch
on_write chr addr value st =
    let bank = bit_and value 0x03 % chr_banks chr in
    let old = get_or st.chr1k 0 0 / 8 in
    if ltb addr 0x8000 then (st, none) else (
      record st { chr1k = units_from (bank * 8) 8; regs = set st.regs 0 value },
      some (record {
        register = addr;
        value = value;
        description = cnrom_select bank;
        changed = old != bank;
      }),
    )
