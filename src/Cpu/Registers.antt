-- ===== src/Cpu/Registers.antt =====
-- cpu6502.rs: the hardware registers of the PPU, the APU and the controllers.
pub mod Names
use decomps_agent.Prelude.{
  ℕ, Bool, true, false, ◌==◌, ◌&&◌, leb, if◌then◌else◌, Option, none, some, List, [], ◌∷◌,
}

-- The names of the registers; the texts on their roles are left out.
pub data Register : Type 0 where
  ppuctrl ppumask ppustatus oamaddr oamdata ppuscroll ppuaddr ppudata sq1_vol sq1_sweep sq1_lo
        sq1_hi sq2_vol sq2_sweep sq2_lo sq2_hi tri_linear tri_unused tri_lo tri_hi noise_vol
        noise_unused noise_lo noise_hi dmc_freq dmc_raw dmc_start dmc_len oamdma snd_chn joy1 joy2 :
      Register

-- The rows of the `match` of `hw_register`.
unfoldable pub rows : List (ℕ × Register)
rows =
    (0x2000, ppuctrl)
    ∷ (0x2001, ppumask)
    ∷ (0x2002, ppustatus)
    ∷ (0x2003, oamaddr)
    ∷ (0x2004, oamdata)
    ∷ (0x2005, ppuscroll)
    ∷ (0x2006, ppuaddr)
    ∷ (0x2007, ppudata)
    ∷ (0x4000, sq1_vol)
    ∷ (0x4001, sq1_sweep)
    ∷ (0x4002, sq1_lo)
    ∷ (0x4003, sq1_hi)
    ∷ (0x4004, sq2_vol)
    ∷ (0x4005, sq2_sweep)
    ∷ (0x4006, sq2_lo)
    ∷ (0x4007, sq2_hi)
    ∷ (0x4008, tri_linear)
    ∷ (0x4009, tri_unused)
    ∷ (0x400A, tri_lo)
    ∷ (0x400B, tri_hi)
    ∷ (0x400C, noise_vol)
    ∷ (0x400D, noise_unused)
    ∷ (0x400E, noise_lo)
    ∷ (0x400F, noise_hi)
    ∷ (0x4010, dmc_freq)
    ∷ (0x4011, dmc_raw)
    ∷ (0x4012, dmc_start)
    ∷ (0x4013, dmc_len)
    ∷ (0x4014, oamdma)
    ∷ (0x4015, snd_chn)
    ∷ (0x4016, joy1)
    ∷ (0x4017, joy2)
    ∷ []

-- The first row for an address.
unfoldable pub row_of : List (ℕ × Register) → ℕ → Option Register
row_of [] addr = none
row_of ((at, name) ∷ more) addr =
    let rest = row_of more addr in if at == addr then some name else rest

unfoldable pub hw_register : ℕ → Option Register
unfolding rows
hw_register addr = row_of rows addr

pub data Channel : Type 0 where
  pulse1 pulse2 triangle noise dmc status frame_counter : Channel

unfoldable pub apu_channel : ℕ → Option Channel
apu_channel addr =
    if leb 0x4000 addr && leb addr 0x4003
    then some pulse1
    else if leb 0x4004 addr && leb addr 0x4007
    then some pulse2
    else if leb 0x4008 addr && leb addr 0x400B
    then some triangle
    else if leb 0x400C addr && leb addr 0x400F
    then some noise
    else if leb 0x4010 addr && leb addr 0x4013
    then some dmc
    else if addr == 0x4015
    then some status
    else if addr == 0x4017
    then some frame_counter
    else none
