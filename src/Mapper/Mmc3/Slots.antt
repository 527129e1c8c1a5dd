-- ===== src/Mapper/Mmc3/Slots.antt =====
-- mmc3.rs: the four slots and the size of the PRG ROM.
use decomps_agent.Prelude.{
  ℕ, ◌+◌, ◌/◌, ◌^◌, ◌≤◌, ◌<◌, ◌≡◌, refl, arith, List, [], ◌∷◌, get_or, set, length, length-set, All,
  IsByte, All-set, ltb, ◌==◌, inl, inr, Bool-cases, bit_and,
}
use decomps_agent.Mapper.State.{BankState, new, identity_chr}
use decomps_agent.Mapper.Slots.{Below, IsMapped}
use decomps_agent.Mapper.Mmc3.{prg_slots, apply, reset_state, register_write, on_write}

prg_slots-Below :
    (prg : ℕ) (regs : List ℕ)
    → 16384 ≤ prg
    → prg < 2 ^ 64
    → (length (prg_slots prg regs) ≡ 4) × Below (prg / 8192) (prg_slots prg regs)
unfolding prg_slots
prg_slots-Below prg regs h k = ground arith

apply-IsMapped :
    (prg chr : ℕ) (st : BankState)
    → 16384 ≤ prg
    → prg < 2 ^ 64
    → length st.regs ≡ 16
    → All IsByte st.regs
    → st.shift < 32
    → st.shift_n < 5
    → IsMapped (prg / 8192) (apply prg chr st)
unfolding apply
apply-IsMapped prg chr st h k sixteen bytes bits count =
    let slots = prg_slots-Below prg st.regs h k in
    record {
      four = slots.0;
      prg = slots.1;
      sixteen = sixteen;
      bytes = bytes;
      shift_bits = bits;
      shift_count = count;
    }

pub reset_state-IsMapped :
    (prg chr : ℕ) → 16384 ≤ prg → prg < 2 ^ 64 → IsMapped (prg / 8192) (reset_state prg chr)
unfolding reset_state
reset_state-IsMapped prg chr h k =
    let st = new (0 ∷ 1 ∷ 0 ∷ 1 ∷ []) identity_chr in
    apply-IsMapped prg chr (record st { regs = set (set st.regs 14 0) 15 1 }) h k refl (omega arith)
      (omega arith) (omega arith)

register_write-IsMapped :
    (prg chr reg value : ℕ) (st : BankState)
    → 16384 ≤ prg
    → prg < 2 ^ 64
    → value < 256
    → IsMapped (prg / 8192) st
    → IsMapped (prg / 8192) (register_write prg chr reg value st).0
unfolding register_write
register_write-IsMapped prg chr reg value st h k hv v =
    let sel = bit_and (get_or st.regs 0 0) 7 in
    let applied = λ (i : ℕ).
      apply-IsMapped prg chr (record st { regs = set st.regs i value }) h k
        (omega (arith, length-set st.regs i value, v.sixteen))
        (All-set IsByte st.regs i value hv v.bytes) v.shift_bits v.shift_count in
    elim (Bool-cases (reg == 0x8000)) [
      | inl e ↦ rw e (applied 0)
      | inr e ↦ elim (Bool-cases (reg == 0x8001)) [
        | inl e' ↦ rw (e, e') (applied (8 + sel))
        | inr e' ↦
            let same : (register_write prg chr reg value st).0 ≡ st = ground arith in rw same v
      ]
    ]

pub on_write-IsMapped :
    (prg chr addr value : ℕ) (st : BankState)
    → 16384 ≤ prg
    → prg < 2 ^ 64
    → value < 256
    → IsMapped (prg / 8192) st
    → IsMapped (prg / 8192) (on_write prg chr addr value st).0
unfolding on_write
on_write-IsMapped prg chr addr value st h k hv v = elim (Bool-cases (ltb addr 0x8000)) [
  | inl low ↦ rw low v
  | inr high ↦ rw high (register_write-IsMapped prg chr (bit_and addr 0xE001) value st h k hv v)
]
