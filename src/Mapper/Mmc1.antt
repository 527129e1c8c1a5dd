-- ===== src/Mapper/Mmc1.antt =====
-- tools/nesrom/src/mapper/mmc1.rs: a serial register of five bits in front of four registers:
-- control, CHR bank 0, CHR bank 1, PRG bank.
pub mod Slots
pub mod Serial
use decomps_agent.Prelude.{
  ℕ, ◌+◌, ◌-◌, ◌*◌, ◌/◌, ◌%◌, ◌^◌, max, bit_and, bit_or, not, ltb, ◌==◌, ◌!=◌, if◌then◌else◌, List,
  [], ◌∷◌, ◌++◌, ◌||◌, false, Option, none, some, get_or, set,
}
use decomps_agent.Mapper.State.{
  BankState, new, banks_of, same_slots, identity_chr, units_from, Window, fixed, switchable,
  BankSwitch, Description, mmc1_reset, mmc1_serial, mmc1_control, mmc1_chr, mmc1_prg,
}

abbrev pub bank_count : ℕ → ℕ
bank_count prg = banks_of prg (16 * 1024)

abbrev pub last_bank : ℕ → ℕ
last_bank prg = bank_count prg - 1

-- `x & !1` on `usize`.
abbrev pub clear_bit0 : ℕ → ℕ
clear_bit0 x = bit_and x (2 ^ 64 - 2)

-- The PRG half of `apply`, from the control and the PRG register.
unfoldable pub prg_slots : ℕ → ℕ → ℕ → List ℕ
prg_slots prg control prg_reg =
    let count = bank_count prg in
    let last = last_bank prg in
    let mode = bit_and (control / 2 ^ 2) 3 in
    let pair = clear_bit0 prg_reg % count in
    let b = prg_reg % count in
    if mode == 0 || mode == 1
    then (pair * 2) ∷ (pair * 2 + 1) ∷ ((pair + 1) % count * 2) ∷ ((pair + 1) % count * 2 + 1) ∷ []
    else if mode == 2
    then 0 ∷ 1 ∷ (b * 2) ∷ (b * 2 + 1) ∷ []
    else (b * 2) ∷ (b * 2 + 1) ∷ (last * 2) ∷ (last * 2 + 1) ∷ []

abbrev pub chr_4k_count : ℕ → ℕ
chr_4k_count chr = max (chr / 4096) 2

-- The CHR half of `apply`.
pub chr_slots : ℕ → ℕ → ℕ → ℕ → List ℕ
chr_slots chr control reg1 reg2 =
    let count = chr_4k_count chr in
    if bit_and control 0x10 != 0
    then units_from (reg1 % count * 4) 4 ++ units_from (reg2 % count * 4) 4
    else units_from (clear_bit0 reg1 % count * 4) 8

pub apply : ℕ → ℕ → BankState → BankState
apply prg chr st =
    let control = get_or st.regs 0 0 in
    record st {
      prg8k = prg_slots prg control (bit_and (get_or st.regs 3 0) 0x0F);
      chr1k = chr_slots chr control (get_or st.regs 1 0) (get_or st.regs 2 0);
    }

unfoldable pub reset_state : ℕ → ℕ → BankState
unfolding apply
reset_state prg chr =
    let st = new (0 ∷ 1 ∷ 0 ∷ 1 ∷ []) identity_chr in
    apply prg chr (record st { regs = set st.regs 0 0x0C })

-- The text of a committed register.
pub commit_note : ℕ → ℕ → BankState → Description
commit_note reg v st =
    if reg == 0
    then mmc1_control (bit_and v 3) (bit_and (v / 2 ^ 2) 3) (bit_and (v / 2 ^ 4) 1)
    else if reg == 1
    then mmc1_chr 0 v
    else if reg == 2
    then mmc1_chr 1 v
    else mmc1_prg (bit_and v 0x0F) (get_or st.prg8k 0 0 / 2) (get_or st.prg8k 2 0 / 2)

-- A write with bit 7 set.
pub reset_write : ℕ → ℕ → BankState → BankState
reset_write prg chr st =
    apply prg chr (record st {
      shift = 0;
      shift_n = 0;
      regs = set st.regs 0 (bit_or (get_or st.regs 0 0) 0x0C);
    })

-- The shift register after one more bit.
pub shifted : ℕ → BankState → BankState
shifted value st = record st {
  shift = bit_or (st.shift / 2) (bit_and value 1 * 2 ^ 4);
  shift_n = (st.shift_n + 1) % 256;
}

pub commit : ℕ → ℕ → ℕ → BankState → BankState
commit prg chr reg st =
    apply prg chr (record st { regs = set st.regs reg st.shift; shift = 0; shift_n = 0 })

pub on_write : ℕ → ℕ → ℕ → ℕ → BankState → BankState × Option BankSwitch
on_write prg chr addr value st =
    let cleared = reset_write prg chr st in
    let st' = shifted value st in
    let reg = bit_and (addr / 2 ^ 13) 3 in
    let done = commit prg chr reg st' in
    if ltb addr 0x8000
    then (st, none)
    else if bit_and value 0x80 != 0
    then (
      cleared,
      some (record {
        register = addr;
        value = value;
        description = mmc1_reset;
        changed = not (same_slots st.prg8k cleared.prg8k);
      }),
    )
    else if ltb st'.shift_n 5
    then (
      st',
      some (record {
        register = addr;
        value = value;
        description = mmc1_serial st'.shift_n;
        changed = false;
      }),
    )
    else (
      done,
      some (record {
        register = addr;
        value = value;
        description = commit_note reg st'.shift done;
        changed = not (same_slots st.prg8k done.prg8k);
      }),
    )

unfoldable pub windows : ℕ → List Window
windows prg =
    record {
      start = 0x8000;
      last = 0xBFFF;
      kind = switchable;
      default_bank = 0;
      bank_count = bank_count prg;
    }
    ∷ record {
      start = 0xC000;
      last = 0xFFFF;
      kind = fixed;
      default_bank = last_bank prg;
      bank_count = bank_count prg;
    }
    ∷ []

pub bank_cpu_base : ℕ → ℕ → ℕ
bank_cpu_base prg bank = if bank == last_bank prg then 0xC000 else 0x8000
