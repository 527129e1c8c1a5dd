-- ===== src/Mapper/Slots.antt =====
-- What every mapper keeps of its bank state: arrays of their fixed lengths, PRG slots inside the
-- PRG ROM, and register values that are bytes.
use decomps_agent.Prelude.{ℕ, ◌<◌, ◌≡◌, List, length, All, IsByte}
use decomps_agent.Mapper.State.{BankState}

-- Every slot is below `units`.
abbrev pub Below : ℕ → List ℕ → Type 0
Below units xs = All (λ u. u < units) xs

pub record IsMapped (units : ℕ) (st : BankState) : Type 0 where
  pub four : length st.prg8k ≡ 4
  pub prg : Below units st.prg8k
  pub sixteen : length st.regs ≡ 16
  pub bytes : All IsByte st.regs
  pub shift_bits : st.shift < 32
  pub shift_count : st.shift_n < 5
