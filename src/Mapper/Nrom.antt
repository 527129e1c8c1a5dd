-- ===== src/Mapper/Nrom.antt =====
-- tools/nesrom/src/mapper/nrom.rs: 16 or 32 KB of PRG, fixed.
pub mod Slots
use decomps_agent.Prelude.{ℕ, ◌*◌, leb, ◌==◌, if◌then◌else◌, List, [], ◌∷◌, Option, none}
use decomps_agent.Mapper.State.{BankState, new, identity_chr, Window, fixed, BankSwitch}

unfoldable pub fixed_prg8k : ℕ → List ℕ
fixed_prg8k prg = if leb prg (16 * 1024) then 0 ∷ 1 ∷ 0 ∷ 1 ∷ [] else 0 ∷ 1 ∷ 2 ∷ 3 ∷ []

unfoldable pub reset_state : ℕ → BankState
unfolding fixed_prg8k
reset_state prg = new (fixed_prg8k prg) identity_chr

unfoldable pub on_write : ℕ → ℕ → BankState → BankState × Option BankSwitch
on_write addr value st = (st, none)

-- Also the windows of CNROM.
unfoldable pub fixed_windows : ℕ → List Window
fixed_windows prg =
    let second : ℕ = if leb prg (16 * 1024) then 0 else 1 in
    record { start = 0x8000; last = 0xBFFF; kind = fixed; default_bank = 0; bank_count = 1 }
    ∷ record { start = 0xC000; last = 0xFFFF; kind = fixed; default_bank = second; bank_count = 1 }
    ∷ []

pub bank_cpu_base : ℕ → ℕ
bank_cpu_base bank = if bank == 0 then 0x8000 else 0xC000
