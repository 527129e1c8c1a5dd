-- ===== src/Mapper/Uxrom/Slots.antt =====
-- uxrom.rs: the four slots and the size of the PRG ROM.
use decomps_agent.Prelude.{
  ℕ, ◌+◌, ◌*◌, ◌/◌, ◌%◌, ◌≤◌, ◌<◌, arith, set, length-set, IsByte, All-set, ltb, inl, inr,
  Bool-cases,
}
use decomps_agent.Mapper.State.{BankState}
use decomps_agent.Mapper.Slots.{IsMapped}
use decomps_agent.Mapper.Uxrom.{bank_count, reset_state, on_write}

pub reset_state-IsMapped : (prg : ℕ) → 16384 ≤ prg → IsMapped (prg / 8192) (reset_state prg)
unfolding reset_state
reset_state-IsMapped prg h = omega arith

pub on_write-IsMapped :
    (prg addr value : ℕ) (st : BankState)
    → 16384 ≤ prg
    → value < 256
    → IsMapped (prg / 8192) st
    → IsMapped (prg / 8192) (on_write prg addr value st).0
unfolding on_write
on_write-IsMapped prg addr value st h hv v = elim (Bool-cases (ltb addr 0x8000)) [
  | inl low ↦ rw low v
  | inr high ↦
      rw high
        let bank = value % bank_count prg in
          let slots = set st.prg8k 0 (bank * 2) in
          record {
            four = omega (
              arith,
              length-set slots 1 (bank * 2 + 1),
              length-set st.prg8k 0 (bank * 2),
              v.four,
            );
            prg =
                All-set _ slots 1 (bank * 2 + 1) (omega arith)
                  (All-set _ st.prg8k 0 (bank * 2) (omega arith) v.prg);
            sixteen = omega (arith, length-set st.regs 0 value, v.sixteen);
            bytes = All-set IsByte st.regs 0 value hv v.bytes;
            shift_bits = v.shift_bits;
            shift_count = v.shift_count;
          }
]
