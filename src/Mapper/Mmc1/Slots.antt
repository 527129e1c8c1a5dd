-- ===== src/Mapper/Mmc1/Slots.antt =====
-- mmc1.rs: the four slots and the size of the PRG ROM.
use decomps_agent.Prelude.{
  ℕ, zero, suc, ◌+◌, ◌*◌, ◌/◌, ◌%◌, ◌^◌, ◌≤◌, ◌<◌, ◌≡◌, refl, arith, [], ◌∷◌, get_or, set, length,
  length-set, All, IsByte, All-set, All-get_or, ltb, ◌==◌, inl, inr, Bool, true, Bool-cases,
  bit_and, bit_or, ◌!=◌, ltb→lt, ==_iff,
}
use decomps_agent.Prelude.Bits.{all_below, all_below_sound}
use decomps_agent.Prelude.Masks.{bit_and-mask}
use decomps_agent.Mapper.State.{BankState, new, identity_chr}
use decomps_agent.Mapper.Slots.{Below, IsMapped}
use decomps_agent.Mapper.Mmc1.{
  prg_slots, apply, reset_state, reset_write, shifted, commit, on_write,
}

prg_slots-Below :
    (prg control prg_reg : ℕ)
    → 16384 ≤ prg
    → (length (prg_slots prg control prg_reg) ≡ 4)
      × Below (prg / 8192) (prg_slots prg control prg_reg)
unfolding prg_slots
prg_slots-Below prg control prg_reg h = ground arith

apply-IsMapped :
    (prg chr : ℕ) (st : BankState)
    → 16384 ≤ prg
    → length st.regs ≡ 16
    → All IsByte st.regs
    → st.shift < 32
    → st.shift_n < 5
    → IsMapped (prg / 8192) (apply prg chr st)
unfolding apply
apply-IsMapped prg chr st h sixteen bytes bits count =
    let slots = prg_slots-Below prg (get_or st.regs 0 0) (bit_and (get_or st.regs 3 0) 0x0F) h in
    record {
      four = slots.0;
      prg = slots.1;
      sixteen = sixteen;
      bytes = bytes;
      shift_bits = bits;
      shift_count = count;
    }

pub reset_state-IsMapped : (prg chr : ℕ) → 16384 ≤ prg → IsMapped (prg / 8192) (reset_state prg chr)
unfolding reset_state
reset_state-IsMapped prg chr h =
    let st = new (0 ∷ 1 ∷ 0 ∷ 1 ∷ []) identity_chr in
    apply-IsMapped prg chr (record st { regs = set st.regs 0 0x0C }) h refl (omega arith)
      (omega arith) (omega arith)

-- The control register with the two bits of the fixed-last-bank mode set.
control_fits : ℕ → Bool
control_fits c = ltb (bit_or c 0x0C) 256

control_table : all_below 256 control_fits ≡ true
unfolding all_below control_fits
control_table = refl

control_byte : (c : ℕ) → c < 256 → bit_or c 0x0C < 256
unfolding control_fits
control_byte c h = ltb→lt (bit_or c 0x0C) 256 (all_below_sound 256 control_fits c control_table h)

reset_write-IsMapped :
    (prg chr : ℕ) (st : BankState)
    → 16384 ≤ prg
    → IsMapped (prg / 8192) st
    → IsMapped (prg / 8192) (reset_write prg chr st)
unfolding reset_write
reset_write-IsMapped prg chr st h v =
    let control = bit_or (get_or st.regs 0 0) 0x0C in
    apply-IsMapped prg chr (record st { shift = 0; shift_n = 0; regs = set st.regs 0 control }) h
      (omega (arith, length-set st.regs 0 control, v.sixteen))
      (All-set IsByte st.regs 0 control
        (control_byte (get_or st.regs 0 0) (All-get_or IsByte st.regs 0 0 (omega arith) v.bytes))
        v.bytes)
      (omega arith) (omega arith)

-- A 5-bit register that takes in one bit at the top is a number again.
shift_in : ℕ → ℕ → Bool
shift_in b s = bit_or (s / 2) (b * 2 ^ 4) == s / 2 + b * 16

shift_table : (all_below 32 (shift_in 0) ≡ true) × (all_below 32 (shift_in 1) ≡ true)
unfolding all_below shift_in
shift_table = (refl, refl)

pub shift_sum : (s b : ℕ) → s < 32 → b < 2 → bit_or (s / 2) (b * 2 ^ 4) ≡ s / 2 + b * 16
unfolding shift_in
shift_sum s zero h k = (==_iff _ _).0 (all_below_sound 32 (shift_in 0) s shift_table.0 h)
shift_sum s (suc zero) h k = (==_iff _ _).0 (all_below_sound 32 (shift_in 1) s shift_table.1 h)
shift_sum s (suc (suc b)) h k = absurd (omega arith)

-- A write puts the lowest bit of the value on top of the shift register.
pub shifted_lem :
    (value : ℕ) (st : BankState)
    → st.shift < 32
    → st.shift_n < 5
    → ((shifted value st).shift ≡ st.shift / 2 + value % 2 * 16)
      × ((shifted value st).shift_n ≡ st.shift_n + 1)
unfolding shifted
shifted_lem value st h k =
    (rw (bit_and-mask 1 value) (shift_sum st.shift (value % 2) h (omega arith)), omega arith)

commit-IsMapped :
    (prg chr reg : ℕ) (st : BankState)
    → 16384 ≤ prg
    → st.shift < 32
    → length st.regs ≡ 16
    → All IsByte st.regs
    → IsMapped (prg / 8192) (commit prg chr reg st)
unfolding commit
commit-IsMapped prg chr reg st h bits sixteen bytes =
    apply-IsMapped prg chr (record st { regs = set st.regs reg st.shift; shift = 0; shift_n = 0 }) h
      (omega (arith, length-set st.regs reg st.shift))
      (All-set IsByte st.regs reg st.shift (omega arith) bytes) (omega arith) (omega arith)

pub on_write-IsMapped :
    (prg chr addr value : ℕ) (st : BankState)
    → 16384 ≤ prg
    → IsMapped (prg / 8192) st
    → IsMapped (prg / 8192) (on_write prg chr addr value st).0
unfolding on_write
on_write-IsMapped prg chr addr value st h v =
    let next = shifted_lem value st v.shift_bits v.shift_count in
    let reg = bit_and (addr / 2 ^ 13) 3 in
    elim (Bool-cases (ltb addr 0x8000)) [
      | inl low ↦ rw low v
      | inr high ↦ elim (Bool-cases (bit_and value 0x80 != 0)) [
        | inl clears ↦ rw (high, clears) (reset_write-IsMapped prg chr st h v)
        | inr shifts ↦ elim (Bool-cases (ltb (shifted value st).shift_n 5)) [
          | inl more ↦
              rw (high, shifts, more)
                record {
                  four = unfold shifted in v.four;
                  prg = unfold shifted in v.prg;
                  sixteen = unfold shifted in v.sixteen;
                  bytes = unfold shifted in v.bytes;
                  shift_bits = omega arith;
                  shift_count = ltb→lt (shifted value st).shift_n 5 more;
                }
          | inr fifth ↦
              rw (high, shifts, fifth)
                (commit-IsMapped prg chr reg (shifted value st) h (omega arith)
                  (unfold shifted in v.sixteen) (unfold shifted in v.bytes))
        ]
      ]
    ]
