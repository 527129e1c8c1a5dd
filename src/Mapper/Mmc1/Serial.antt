-- ===== src/Mapper/Mmc1/Serial.antt =====
-- mmc1.rs: the serial protocol.
use decomps_agent.Prelude.{
  ℕ, ◌+◌, ◌*◌, ◌/◌, ◌%◌, ◌^◌, ◌≤◌, ◌<◌, ◌≡◌, refl, ap₂, ◌∙◌, arith, List, get_or, set,
  get_or-set_self, bit_and, bit_or, ◌==◌, ◌!=◌, ==_iff, Bool, true, le→ltb_false, IsByte,
  All-get_or,
}
use decomps_agent.Prelude.Bits.{all_below, all_below_sound, bit_and_80}
use decomps_agent.Prelude.Masks.{bit_and-mask}
use decomps_agent.Mapper.State.{BankState}
use decomps_agent.Mapper.Slots.{IsMapped}
use decomps_agent.Mapper.Mmc1.{last_bank, prg_slots, apply, shifted, commit, reset_write, on_write}
use decomps_agent.Mapper.Mmc1.Slots.{shifted_lem}

-- A write with bit 7 clear, before the fifth.
on_write_shift :
    (prg chr addr value : ℕ) (st : BankState)
    → 0x8000 ≤ addr
    → value < 128
    → st.shift < 32
    → st.shift_n < 4
    → (on_write prg chr addr value st).0 ≡ shifted value st
unfolding on_write
on_write_shift prg chr addr value st lo hv bits count =
    ground (arith, bit_and_80 value, shifted_lem value st)

-- The fifth.
on_write-commit :
    (prg chr addr value : ℕ) (st : BankState)
    → 0x8000 ≤ addr
    → value < 128
    → st.shift < 32
    → st.shift_n ≡ 4
    → (on_write prg chr addr value st).0 ≡ commit prg chr (addr / 8192 % 4) (shifted value st)
unfolding on_write
on_write-commit prg chr addr value st lo hv bits count =
    ground (arith, bit_and_80 value, bit_and-mask 2 (addr / 2 ^ 13), shifted_lem value st)

commit_fields :
    (prg chr reg : ℕ) (st : BankState)
    → ((commit prg chr reg st).regs ≡ set st.regs reg st.shift)
      × ((commit prg chr reg st).shift ≡ 0)
      × ((commit prg chr reg st).shift_n ≡ 0)
unfolding commit apply
commit_fields prg chr reg st = (refl, refl, refl)

shifted_regs : (value : ℕ) (st : BankState) → (shifted value st).regs ≡ st.regs
unfolding shifted
shifted_regs value st = refl

-- A serial write: an address of the mapper and a value with bit 7 clear.
abbrev pub IsSerial : ℕ × ℕ → Type 0
IsSerial (addr, value) = (0x8000 ≤ addr) × (value < 128)

abbrev pub write : ℕ → ℕ → BankState → ℕ × ℕ → BankState
write prg chr st (addr, value) = (on_write prg chr addr value st).0

-- With no bit pending in the shift register, whatever five bits it holds, five serial writes, lowest
-- bit first, put their bits into the register that the last address selects, and leave it empty.
pub five_writes :
    (prg chr : ℕ) (st : BankState) (a b c d e : ℕ × ℕ)
    → st.shift < 32
    → st.shift_n ≡ 0
    → IsSerial a
    → IsSerial b
    → IsSerial c
    → IsSerial d
    → IsSerial e
    → let st' =
        write prg chr
          (write prg chr (write prg chr (write prg chr (write prg chr st a) b) c) d)
          e in
      (st'.regs
        ≡ set st.regs
            (e.0 / 8192 % 4)
            (a.1 % 2 + b.1 % 2 * 2 + c.1 % 2 * 4 + d.1 % 2 * 8 + e.1 % 2 * 16))
      × (st'.shift ≡ 0)
      × (st'.shift_n ≡ 0)
five_writes prg chr st a b c d e bits empty ha hb hc hd he =
    let s1 = shifted a.1 st in
    let s2 = shifted b.1 s1 in
    let s3 = shifted c.1 s2 in
    let s4 = shifted d.1 s3 in
    let l1 = shifted_lem a.1 st bits (omega arith) in
    let l2 = shifted_lem b.1 s1 (omega arith) (omega arith) in
    let l3 = shifted_lem c.1 s2 (omega arith) (omega arith) in
    let l4 = shifted_lem d.1 s3 (omega arith) (omega arith) in
    let l5 = shifted_lem e.1 s4 (omega arith) (omega arith) in
    rw
      (
        on_write_shift prg chr a.0 a.1 st ha.0 ha.1 bits (omega arith),
        on_write_shift prg chr b.0 b.1 s1 hb.0 hb.1 (omega arith) (omega arith),
        on_write_shift prg chr c.0 c.1 s2 hc.0 hc.1 (omega arith) (omega arith),
        on_write_shift prg chr d.0 d.1 s3 hd.0 hd.1 (omega arith) (omega arith),
        on_write-commit prg chr e.0 e.1 s4 he.0 he.1 (omega arith) (omega arith),
      )
      (commit_fields_of (shifted e.1 s4)
        (shifted_regs e.1 s4
          ∙ shifted_regs d.1 s3
          ∙ shifted_regs c.1 s2
          ∙ shifted_regs b.1 s1
          ∙ shifted_regs a.1 st)
        (omega arith))
  where
    commit_fields_of :
        (s : BankState) {regs : List ℕ} {v : ℕ}
        → s.regs ≡ regs
        → s.shift ≡ v
        → ((commit prg chr (e.0 / 8192 % 4) s).regs ≡ set regs (e.0 / 8192 % 4) v)
          × ((commit prg chr (e.0 / 8192 % 4) s).shift ≡ 0)
          × ((commit prg chr (e.0 / 8192 % 4) s).shift_n ≡ 0)
    commit_fields_of s p q =
        let f = commit_fields prg chr (e.0 / 8192 % 4) s in
        (f.0 ∙ ap₂ (λ r v. set r (e.0 / 8192 % 4) v) p q, f.1, f.2)

-- Control values with the two bits set are in the mode that fixes the last bank.
fixed_last : ℕ → Bool
fixed_last c = bit_and (bit_or c 0x0C / 2 ^ 2) 3 == 3

fixed_last_table : all_below 256 fixed_last ≡ true
unfolding all_below fixed_last
fixed_last_table = refl

fixed_last_mode : (c : ℕ) → c < 256 → bit_and (bit_or c 0x0C / 2 ^ 2) 3 ≡ 3
unfolding fixed_last
fixed_last_mode c h =
    (==_iff (bit_and (bit_or c 0x0C / 2 ^ 2) 3) 3).0
      (all_below_sound 256 fixed_last c fixed_last_table h)

prg_slots_last :
    (prg control reg : ℕ)
    → bit_and (control / 2 ^ 2) 3 ≡ 3
    → (get_or (prg_slots prg control reg) 2 0 ≡ last_bank prg * 2)
      × (get_or (prg_slots prg control reg) 3 0 ≡ last_bank prg * 2 + 1)
unfolding prg_slots
prg_slots_last prg control reg e = ground arith

-- A write with bit 7 set abandons the serial transfer and puts the last 16 KB bank at $C000.
pub reset_value :
    (prg chr units addr value : ℕ) (st : BankState)
    → IsMapped units st
    → 0x8000 ≤ addr
    → 128 ≤ value
    → value < 256
    → let st' = (on_write prg chr addr value st).0 in
      (st'.shift ≡ 0)
      × (st'.shift_n ≡ 0)
      × (get_or st'.prg8k 2 0 ≡ last_bank prg * 2)
      × (get_or st'.prg8k 3 0 ≡ last_bank prg * 2 + 1)
unfolding on_write reset_write apply
reset_value prg chr units addr value st v lo hi top =
    let control = get_or st.regs 0 0 in
    let byte = All-get_or IsByte st.regs 0 0 (omega arith) v.bytes in
    let written : get_or (set st.regs 0 (bit_or control 0x0C)) 0 0 ≡ bit_or control 0x0C =
      get_or-set_self st.regs 0 (bit_or control 0x0C) 0 (omega (arith, v.sixteen)) in
    let sets : (bit_and value 0x80 != 0) ≡ true = ground (arith, bit_and_80 value) in
    rw (le→ltb_false 0x8000 addr lo, sets, written)
      (
        refl,
        refl,
        (prg_slots_last prg (bit_or control 0x0C) _ (fixed_last_mode control byte)).0,
        (prg_slots_last prg (bit_or control 0x0C) _ (fixed_last_mode control byte)).1,
      )
