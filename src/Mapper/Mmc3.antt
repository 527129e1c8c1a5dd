-- ===== src/Mapper/Mmc3.antt =====
-- tools/nesrom/src/mapper/mmc3.rs: bank select at $8000, bank data at $8001, 8 KB PRG banks.
-- regs[0] is the bank select, regs[8..16] are R0 to R7.
pub mod Slots
pub mod Layout
use decomps_agent.Prelude.{
  ℕ, ◌+◌, ◌-◌, ◌*◌, ◌/◌, ◌%◌, ◌^◌, max, bit_and, not, ltb, ◌==◌, if◌then◌else◌, List, [], ◌∷◌,
  Option, none, some, get_or, set,
}
use decomps_agent.Mapper.State.{
  BankState, new, banks_of, same_slots, usize_sub, identity_chr, Window, fixed, switchable,
  BankSwitch, Description, mmc3_select, mmc3_data, mmc3_mirroring, mmc3_ram_protect, mmc3_irq_latch,
  mmc3_irq_reload, mmc3_irq_disable, mmc3_irq_enable,
}
use decomps_agent.Mapper.Mmc1.{clear_bit0}

abbrev pub bank_count : ℕ → ℕ
bank_count prg = banks_of prg (8 * 1024)

abbrev pub last_bank : ℕ → ℕ
last_bank prg = bank_count prg - 1

-- The PRG half of `apply`; `last - 1` is a `usize` subtraction.
unfoldable pub prg_slots : ℕ → List ℕ → List ℕ
prg_slots prg regs =
    let count = bank_count prg in
    let last = last_bank prg in
    let r6 = get_or regs 14 0 % count in
    let r7 = get_or regs 15 0 % count in
    if bit_and (get_or regs 0 0) 0x40 == 0
    then r6 ∷ r7 ∷ usize_sub last 1 ∷ last ∷ []
    else usize_sub last 1 ∷ r7 ∷ r6 ∷ last ∷ []

abbrev pub chr_1k_count : ℕ → ℕ
chr_1k_count chr = max (chr / 1024) 8

-- The CHR half of `apply`.
pub chr_slots : ℕ → List ℕ → List ℕ
chr_slots chr regs =
    let r = λ (i : ℕ). get_or regs (8 + i) 0 % chr_1k_count chr in
    if bit_and (get_or regs 0 0) 0x80 == 0
    then clear_bit0 (r 0)
      ∷ (clear_bit0 (r 0) + 1)
      ∷ clear_bit0 (r 1)
      ∷ (clear_bit0 (r 1) + 1)
      ∷ r 2
      ∷ r 3
      ∷ r 4
      ∷ r 5
      ∷ []
    else r 2
      ∷ r 3
      ∷ r 4
      ∷ r 5
      ∷ clear_bit0 (r 0)
      ∷ (clear_bit0 (r 0) + 1)
      ∷ clear_bit0 (r 1)
      ∷ (clear_bit0 (r 1) + 1)
      ∷ []

pub apply : ℕ → ℕ → BankState → BankState
apply prg chr st = record st { prg8k = prg_slots prg st.regs; chr1k = chr_slots chr st.regs }

unfoldable pub reset_state : ℕ → ℕ → BankState
unfolding apply
reset_state prg chr =
    let st = new (0 ∷ 1 ∷ 0 ∷ 1 ∷ []) identity_chr in
    apply prg chr (record st { regs = set (set st.regs 14 0) 15 1 })

-- `match addr & 0xE001`: the register that an address of $8000 or above selects, and the write.
pub register_write : ℕ → ℕ → ℕ → ℕ → BankState → BankState × Description
register_write prg chr reg value st =
    let sel = bit_and (get_or st.regs 0 0) 7 in
    if reg == 0x8000
    then (
      apply prg chr (record st { regs = set st.regs 0 value }),
      mmc3_select (bit_and value 7) (bit_and (value / 2 ^ 6) 1) (value / 2 ^ 7),
    )
    else if reg == 0x8001
    then (apply prg chr (record st { regs = set st.regs (8 + sel) value }), mmc3_data sel value)
    else if reg == 0xA000
    then (st, mmc3_mirroring)
    else if reg == 0xA001
    then (st, mmc3_ram_protect)
    else if reg == 0xC000
    then (st, mmc3_irq_latch)
    else if reg == 0xC001
    then (st, mmc3_irq_reload)
    else if reg == 0xE000
    then (st, mmc3_irq_disable)
    else (st, mmc3_irq_enable)

pub on_write : ℕ → ℕ → ℕ → ℕ → BankState → BankState × Option BankSwitch
on_write prg chr addr value st =
    let written = register_write prg chr (bit_and addr 0xE001) value st in
    if ltb addr 0x8000 then (st, none) else (
      written.0,
      some (record {
        register = addr;
        value = value;
        description = written.1;
        changed = not (same_slots st.prg8k written.0.prg8k);
      }),
    )

unfoldable pub windows : ℕ → List Window
windows prg =
    let n = bank_count prg in
    record { start = 0x8000; last = 0x9FFF; kind = switchable; default_bank = 0; bank_count = n }
    ∷ record { start = 0xA000; last = 0xBFFF; kind = switchable; default_bank = 1; bank_count = n }
    ∷ record { start = 0xC000; last = 0xDFFF; kind = fixed; default_bank = n - 2; bank_count = n }
    ∷ record { start = 0xE000; last = 0xFFFF; kind = fixed; default_bank = n - 1; bank_count = 1 }
    ∷ []

pub bank_cpu_base : ℕ → ℕ → ℕ
bank_cpu_base prg bank =
    let last = last_bank prg in
    if bank == last
    then 0xE000
    else if bank + 1 == last
    then 0xC000
    else if bank % 2 == 0
    then 0x8000
    else 0xA000
