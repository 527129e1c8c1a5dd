-- ===== src/Cpu/Registers/Names.antt =====
-- cpu6502.rs: registers, their addresses and their sound channels.
use decomps_agent.Prelude.{
  ℕ, ◌+◌, ◌-◌, subst, ◌≡◌, ◌↔◌, inl, inr, refl, sym, ap, ◌∙◌, arith, Bool, true, false, ◌==◌,
  ==_iff, ◌&&◌, leb, Bool-cases, Option, none, some, ◌>>=◌, List, [], ◌∷◌,
}
use decomps_agent.Prelude.Bits.{all_below, all_below_sound}
use decomps_agent.Cpu.Registers.{
  Register, ppuctrl, ppumask, ppustatus, oamaddr, oamdata, ppuscroll, ppuaddr, ppudata, sq1_vol,
  sq1_sweep, sq1_lo, sq1_hi, sq2_vol, sq2_sweep, sq2_lo, sq2_hi, tri_linear, tri_unused, tri_lo,
  tri_hi, noise_vol, noise_unused, noise_lo, noise_hi, dmc_freq, dmc_raw, dmc_start, dmc_len,
  oamdma, snd_chn, joy1, joy2, row_of, rows, hw_register, Channel, pulse1, pulse2, triangle, noise,
  dmc, status, frame_counter, apu_channel,
}

-- The address of a register on the console's bus.
abbrev pub address_of : Register → ℕ
address_of ppuctrl = 0x2000
address_of ppumask = 0x2001
address_of ppustatus = 0x2002
address_of oamaddr = 0x2003
address_of oamdata = 0x2004
address_of ppuscroll = 0x2005
address_of ppuaddr = 0x2006
address_of ppudata = 0x2007
address_of sq1_vol = 0x4000
address_of sq1_sweep = 0x4001
address_of sq1_lo = 0x4002
address_of sq1_hi = 0x4003
address_of sq2_vol = 0x4004
address_of sq2_sweep = 0x4005
address_of sq2_lo = 0x4006
address_of sq2_hi = 0x4007
address_of tri_linear = 0x4008
address_of tri_unused = 0x4009
address_of tri_lo = 0x400A
address_of tri_hi = 0x400B
address_of noise_vol = 0x400C
address_of noise_unused = 0x400D
address_of noise_lo = 0x400E
address_of noise_hi = 0x400F
address_of dmc_freq = 0x4010
address_of dmc_raw = 0x4011
address_of dmc_start = 0x4012
address_of dmc_len = 0x4013
address_of oamdma = 0x4014
address_of snd_chn = 0x4015
address_of joy1 = 0x4016
address_of joy2 = 0x4017

-- The channel whose name a sound register bears.
abbrev pub channel_of : Register → Option Channel
channel_of sq1_vol = some pulse1
channel_of sq1_sweep = some pulse1
channel_of sq1_lo = some pulse1
channel_of sq1_hi = some pulse1
channel_of sq2_vol = some pulse2
channel_of sq2_sweep = some pulse2
channel_of sq2_lo = some pulse2
channel_of sq2_hi = some pulse2
channel_of tri_linear = some triangle
channel_of tri_unused = some triangle
channel_of tri_lo = some triangle
channel_of tri_hi = some triangle
channel_of noise_vol = some noise
channel_of noise_unused = some noise
channel_of noise_lo = some noise
channel_of noise_hi = some noise
channel_of dmc_freq = some dmc
channel_of dmc_raw = some dmc
channel_of dmc_start = some dmc
channel_of dmc_len = some dmc
channel_of snd_chn = some status
channel_of joy2 = some frame_counter
channel_of _ = none

abbrev rows_right : List (ℕ × Register) → Bool
rows_right [] = true
rows_right ((at, name) ∷ more) = at == address_of name && rows_right more

row_of-address :
    (table : List (ℕ × Register)) (addr : ℕ) (r : Register)
    → rows_right table ≡ true
    → row_of table addr ≡ some r
    → addr ≡ address_of r
unfolding row_of
row_of-address [] addr r h e = absurd (cc)
row_of-address ((at, name) ∷ more) addr r h e = elim (Bool-cases (at == addr)) [
  | inl hit ↦
      let same : name ≡ r = (let first : some name ≡ some r = rw hit at e in cc) in
      let place : at ≡ address_of name = ground arith in
      sym ((==_iff at addr).0 hit) ∙ place ∙ ap address_of same
  | inr miss ↦ row_of-address more addr r (ground arith) (rw miss at e)
]

rows-right : rows_right rows ≡ true
unfolding rows
rows-right = refl

hw_register-address_of : (r : Register) → hw_register (address_of r) ≡ some r
unfolding hw_register rows row_of
hw_register-address_of ppuctrl = refl
hw_register-address_of _ = refl

-- A register is named for an address exactly if the address is the one that the console gives it.
pub hw_register-address :
    (addr : ℕ) (r : Register) → (hw_register addr ≡ some r) ↔ (addr ≡ address_of r)
unfolding hw_register
hw_register-address addr r =
    (row_of-address rows addr r rows-right, λ e. rw e (hw_register-address_of r))

channel_of-address : (r : Register) → channel_of r ≡ apu_channel (address_of r)
unfolding apu_channel
channel_of-address ppuctrl = refl
channel_of-address _ = refl

abbrev is_some : Option Register → Bool
is_some none = false
is_some (some r) = true

sound_table : all_below 24 (λ k. is_some (hw_register (0x4000 + k))) ≡ true
unfolding all_below hw_register rows row_of
sound_table = refl

apu_channel-outside :
    (addr : ℕ) → (leb 0x4000 addr && leb addr 0x4017) ≡ false → apu_channel addr ≡ none
unfolding apu_channel
apu_channel-outside addr h = ground arith

true_of_none : (o : Option Register) → is_some o ≡ true → o ≡ none → ⊥
true_of_none none h e = cc
true_of_none (some r) h e = cc

channel_by :
    (addr : ℕ) (o : Option Register) → hw_register addr ≡ o → (o >>= channel_of) ≡ apu_channel addr
channel_by addr (some r) e =
    let at = (hw_register-address addr r).0 e in rw at (channel_of-address r)
channel_by addr none e = elim (Bool-cases (leb 0x4000 addr && leb addr 0x4017)) [
  | inl sound ↦
      let at : 0x4000 + (addr - 0x4000) ≡ addr = ground arith in
      let seen : is_some (hw_register (0x4000 + (addr - 0x4000))) ≡ true =
        all_below_sound 24 (λ k. is_some (hw_register (0x4000 + k))) (addr - 0x4000) sound_table
          (ground arith) in
      absurd
        (true_of_none (hw_register addr) (subst (λ n. is_some (hw_register n) ≡ true) at seen) e)
  | inr outside ↦ sym (apu_channel-outside addr outside)
]

-- An address has a sound channel exactly if a register is named for it whose name bears one, and then
-- that channel.
pub hw_register-apu_channel : (addr : ℕ) → (hw_register addr >>= channel_of) ≡ apu_channel addr
hw_register-apu_channel addr = channel_by addr (hw_register addr) refl
