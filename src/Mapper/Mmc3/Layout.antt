-- ===== src/Mapper/Mmc3/Layout.antt =====
-- mmc3.rs: the slots beside the registers, and the place of the last banks.
use decomps_agent.Prelude.{
  ℕ, ◌+◌, ◌-◌, ◌^◌, ◌≤◌, ◌<◌, ◌≡◌, refl, arith, List, [], ◌∷◌, get_or, bit_and, ltb, ◌==◌,
  if◌then◌else◌, inl, inr, Bool-cases,
}
use decomps_agent.Mapper.State.{BankState}
use decomps_agent.Mapper.Mmc3.{
  last_bank, prg_slots, chr_slots, apply, reset_state, register_write, on_write,
}

-- Both slot arrays are what `apply` computes from the registers.
pub record IsApplied (prg chr : ℕ) (st : BankState) : Type 0 where
  pub prg_follows : st.prg8k ≡ prg_slots prg st.regs
  pub chr_follows : st.chr1k ≡ chr_slots chr st.regs

apply-IsApplied : (prg chr : ℕ) (st : BankState) → IsApplied prg chr (apply prg chr st)
unfolding apply
apply-IsApplied prg chr st = record { prg_follows = refl; chr_follows = refl }

pub reset_state-IsApplied : (prg chr : ℕ) → IsApplied prg chr (reset_state prg chr)
unfolding reset_state
reset_state-IsApplied prg chr = record { prg_follows = refl; chr_follows = refl }

pub on_write-IsApplied :
    (prg chr addr value : ℕ) (st : BankState)
    → IsApplied prg chr st
    → IsApplied prg chr (on_write prg chr addr value st).0
unfolding on_write register_write
on_write-IsApplied prg chr addr value st v =
    let reg = bit_and addr 0xE001 in
    elim (Bool-cases (ltb addr 0x8000)) [
      | inl low ↦ rw low v
      | inr high ↦ elim (Bool-cases (reg == 0x8000)) [
        | inl e ↦ rw (high, e) (apply-IsApplied prg chr _)
        | inr e ↦ elim (Bool-cases (reg == 0x8001)) [
          | inl e' ↦ rw (high, e, e') (apply-IsApplied prg chr _)
          | inr e' ↦
              let same : (register_write prg chr reg value st).0 ≡ st = ground arith in
              rw (high, same) v
        ]
      ]
    ]

abbrev pub run_writes : ℕ → ℕ → List (ℕ × ℕ) → BankState → BankState
run_writes prg chr [] st = st
run_writes prg chr ((addr, value) ∷ ws) st =
    run_writes prg chr ws (on_write prg chr addr value st).0

pub run_writes-IsApplied :
    (prg chr : ℕ) (ws : List (ℕ × ℕ)) (st : BankState)
    → IsApplied prg chr st
    → IsApplied prg chr (run_writes prg chr ws st)
run_writes-IsApplied prg chr [] st v = v
run_writes-IsApplied prg chr ((addr, value) ∷ ws) st v =
    run_writes-IsApplied prg chr ws (on_write prg chr addr value st).0
      (on_write-IsApplied prg chr addr value st v)

slots_fixed :
    (prg : ℕ) (regs : List ℕ)
    → 16384 ≤ prg
    → prg < 2 ^ 64
    → (get_or (prg_slots prg regs) 3 0 ≡ last_bank prg)
      × (get_or (prg_slots prg regs) (if bit_and (get_or regs 0 0) 0x40 == 0 then 2 else 0) 0 + 1
          ≡ last_bank prg)
unfolding prg_slots
slots_fixed prg regs h k = ground arith

-- After any writes the last 8 KB bank is at $E000 and the one before it at $C000, or at $8000 when
-- bit 6 of the bank select register is set.
pub last_banks_fixed :
    (prg chr : ℕ) (ws : List (ℕ × ℕ))
    → 16384 ≤ prg
    → prg < 2 ^ 64
    → let st = run_writes prg chr ws (reset_state prg chr) in
      (get_or st.prg8k 3 0 ≡ last_bank prg)
      × (get_or st.prg8k (if bit_and (get_or st.regs 0 0) 0x40 == 0 then 2 else 0) 0 + 1
          ≡ last_bank prg)
last_banks_fixed prg chr ws h k =
    let st = run_writes prg chr ws (reset_state prg chr) in
    let v = run_writes-IsApplied prg chr ws (reset_state prg chr) (reset_state-IsApplied prg chr) in
    rw v.prg_follows (slots_fixed prg st.regs h k)

-- A ROM of one 8 KB bank, or of none: the bank before the last is taken as `0 - 1`, so after any
-- writes the slot at $C000 or $8000 holds the largest usize instead of a bank.
pub single_bank_wraps :
    (prg chr : ℕ) (ws : List (ℕ × ℕ))
    → prg < 16384
    → let st = run_writes prg chr ws (reset_state prg chr) in
      get_or st.prg8k (if bit_and (get_or st.regs 0 0) 0x40 == 0 then 2 else 0) 0 ≡ 2 ^ 64 - 1
single_bank_wraps prg chr ws h =
    let st = run_writes prg chr ws (reset_state prg chr) in
    let v = run_writes-IsApplied prg chr ws (reset_state prg chr) (reset_state-IsApplied prg chr) in
    rw v.prg_follows (wraps st.regs)
  where
    wraps :
        (regs : List ℕ)
        → get_or (prg_slots prg regs) (if bit_and (get_or regs 0 0) 0x40 == 0 then 2 else 0) 0
          ≡ 2 ^ 64 - 1
    wraps regs = unfold prg_slots in ground arith
