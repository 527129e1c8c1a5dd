-- ===== src/Mapper/Windows.antt =====
-- The windows that a mapper reports, against the state it resets to.
use decomps_agent.Prelude.{
  ℕ, zero, suc, List, ◌+◌, ◌-◌, ◌*◌, ◌/◌, ◌%◌, ◌≤◌, ◌≡◌, arith, get_or, All,
}
use native.Mathlib.Nat.{mod-eq_of_lt}
use decomps_agent.Mapper.State.{Window}
use decomps_agent.Mapper.Nrom
use decomps_agent.Mapper.Uxrom
use decomps_agent.Mapper.Cnrom
use decomps_agent.Mapper.Mmc1
use decomps_agent.Mapper.Mmc3
use decomps_agent.Mapper.Chip.{
  Mapper, nrom, mmc1, uxrom, cnrom, mmc3, prg_bank_size, reset_state, windows, WellSized,
}

-- The `n` slots from `slot` on hold the bytes of PRG from `at` on, in units of 8 KB.
abbrev pub ShowsFrom : List ℕ → ℕ → ℕ → ℕ → Type 0
ShowsFrom slots slot zero at = Unit {0}
ShowsFrom slots slot (suc n) at =
    (get_or slots slot 0 * 0x2000 ≡ at) × ShowsFrom slots (slot + 1) n (at + 0x2000)

-- A window has the size of a bank, and at reset all its slots show its default bank.
abbrev pub ShowsDefault : Mapper → Window → Type 0
ShowsDefault m w =
    (w.last + 1 ≡ w.start + prg_bank_size m)
    × ShowsFrom (reset_state m).prg8k ((w.start - 0x8000) / 0x2000) (prg_bank_size m / 0x2000)
        (w.default_bank * prg_bank_size m)

one_mod : (n : ℕ) → 2 ≤ n → 1 % n ≡ 1
one_mod n h = mod-eq_of_lt h

-- Every window that a mapper reports has the size of a bank and shows the whole of its default bank at
-- reset, for a PRG ROM of whole banks, at least 16 KB and below 2^63 bytes.
pub windows-reset_state : (m : Mapper) → WellSized m → All (ShowsDefault m) (windows m)
unfolding windows reset_state
windows-reset_state (nrom prg chr) w = unfold Nrom.reset_state Nrom.fixed_windows in ground arith
windows-reset_state (cnrom prg chr) w = unfold Cnrom.reset_state Nrom.fixed_windows in ground arith
windows-reset_state (uxrom prg chr) w = unfold Uxrom.reset_state Uxrom.windows in ground arith
windows-reset_state (mmc1 prg chr) w =
    unfold Mmc1.reset_state Mmc1.prg_slots Mmc1.windows in ground arith
windows-reset_state (mmc3 prg chr) w =
    unfold Mmc3.reset_state Mmc3.prg_slots Mmc3.windows in
    ground (arith, one_mod (Mmc3.bank_count prg))
