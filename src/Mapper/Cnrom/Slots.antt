-- ===== src/Mapper/Cnrom/Slots.antt =====
-- cnrom.rs: the slots over a write.
use decomps_agent.Prelude.{
  ℕ, ◌/◌, ◌%◌, ◌≤◌, ◌<◌, ◌≡◌, arith, length-set, IsByte, All-set, ltb, inl, inr, Bool-cases,
}
use decomps_agent.Mapper.State.{BankState}
use decomps_agent.Mapper.Slots.{IsMapped}
use decomps_agent.Mapper.Cnrom.{reset_state, on_write}

pub reset_state-IsMapped :
    (prg : ℕ) → 16384 ≤ prg → prg % 16384 ≡ 0 → IsMapped (prg / 8192) (reset_state prg)
unfolding reset_state
reset_state-IsMapped prg h k = ground arith

pub on_write-IsMapped :
    (chr addr value units : ℕ) (st : BankState)
    → value < 256
    → IsMapped units st
    → IsMapped units (on_write chr addr value st).0
unfolding on_write
on_write-IsMapped chr addr value units st hv v = elim (Bool-cases (ltb addr 0x8000)) [
  | inl low ↦ rw low v
  | inr high ↦ rw high record {
    four = v.four;
    prg = v.prg;
    sixteen = omega (arith, length-set st.regs 0 value, v.sixteen);
    bytes = All-set IsByte st.regs 0 value hv v.bytes;
    shift_bits = v.shift_bits;
    shift_count = v.shift_count;
  }
]
