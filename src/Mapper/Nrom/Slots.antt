-- ===== src/Mapper/Nrom/Slots.antt =====
-- nrom.rs: the four slots and the size of the PRG ROM.
use decomps_agent.Prelude.{ℕ, ◌/◌, ◌%◌, ◌≤◌, ◌≡◌, arith}
use decomps_agent.Mapper.Slots.{IsMapped}
use decomps_agent.Mapper.Nrom.{reset_state}

pub reset_state-IsMapped :
    (prg : ℕ) → 16384 ≤ prg → prg % 16384 ≡ 0 → IsMapped (prg / 8192) (reset_state prg)
unfolding reset_state
reset_state-IsMapped prg h k = ground arith
