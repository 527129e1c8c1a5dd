-- ===== src/Mapper/Uxrom.antt =====
-- tools/nesrom/src/mapper/uxrom.rs: a switchable 16 KB bank at $8000, the last bank at $C000.
pub mod Slots
use decomps_agent.Prelude.{
  ℕ, ◌+◌, ◌-◌, ◌*◌, ◌/◌, ◌%◌, ltb, ◌==◌, ◌!=◌, if◌then◌else◌, List, [], ◌∷◌, Option, none, some,
  get_or, set,
}
use decomps_agent.Mapper.State.{
  BankState, new, banks_of, identity_chr, Window, fixed, switchable, BankSwitch, uxrom_select,
}

abbrev pub bank_count : ℕ → ℕ
bank_count prg = banks_of prg (16 * 1024)

abbrev pub last_bank : ℕ → ℕ
last_bank prg = bank_count prg - 1

unfoldable pub reset_state : ℕ → BankState
reset_state prg =
    let last = last_bank prg in new (0 ∷ 1 ∷ (last * 2) ∷ (last * 2 + 1) ∷ []) identity_chr

pub on_write : ℕ → ℕ → ℕ → BankState → BankState × Option BankSwitch
on_write prg addr value st =
    let bank = value % bank_count prg in
    let old = get_or st.prg8k 0 0 / 2 in
    if ltb addr 0x8000 then (st, none) else (
      record st {
        prg8k = set (set st.prg8k 0 (bank * 2)) 1 (bank * 2 + 1);
        regs = set st.regs 0 value;
      },
      some (record {
        register = addr;
        value = value;
        description = uxrom_select bank;
        changed = old != bank;
      }),
    )

unfoldable pub windows : ℕ → List Window
windows prg =
    record {
      start = 0x8000;
      last = 0xBFFF;
      kind = switchable;
      default_bank = 0;
      bank_count = bank_count prg;
    }
    ∷ record {
      start = 0xC000;
      last = 0xFFFF;
      kind = fixed;
      default_bank = last_bank prg;
      bank_count = 1;
    }
    ∷ []

pub bank_cpu_base : ℕ → ℕ → ℕ
bank_cpu_base prg bank = if bank == last_bank prg then 0xC000 else 0x8000
