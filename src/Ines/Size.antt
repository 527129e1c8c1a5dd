-- ===== src/Ines/Size.antt =====
-- ines.rs: bounds on the sizes that a header can declare.
use decomps_agent.Prelude.{
  ℕ, ◌+◌, ◌*◌, ◌/◌, ◌%◌, ◌^◌, ◌≤◌, ◌<◌, ◌≡◌, refl, arith, List, Bool, true, leb, leb→le, bit_and,
  bit_or, All, IsByte, All-get_or,
}
use decomps_agent.Prelude.Bits.{all_below, all_below_sound, bit_and_0f}
use decomps_agent.Ines.{nes2_size}
use decomps_agent.Ines.Declared.{byte_of, declared_header}

-- The largest size that the exponent form gives once it is cut to 64 bits.
abbrev pub largest_size : ℕ
largest_size = 7 * 2 ^ 61

abbrev exponent_fits : ℕ → Bool
exponent_fits lsb = leb (2 ^ (lsb / 4) * (bit_and lsb 3 * 2 + 1) % 2 ^ 64) largest_size

exponent_table : all_below 256 exponent_fits ≡ true
unfolding all_below
exponent_table = refl

abbrev units_fit : ℕ → ℕ → Bool
units_fit lsb msb = leb (bit_or (msb * 2 ^ 8) lsb) 4095

units_table : all_below 256 (λ lsb. all_below 16 (units_fit lsb)) ≡ true
unfolding all_below
units_table = refl

units-le : (lsb msb : ℕ) → lsb < 256 → msb < 16 → bit_or (msb * 2 ^ 8) lsb ≤ 4095
units-le lsb msb h k = leb→le (bit_or (msb * 2 ^ 8) lsb) 4095 (
    all_below_sound 16 (units_fit lsb) msb
      (all_below_sound 256 (λ x. all_below 16 (units_fit x)) lsb units_table h) k)

exponent-le :
    (lsb : ℕ) → lsb < 256 → 2 ^ (lsb / 4) * (bit_and lsb 3 * 2 + 1) % 2 ^ 64 ≤ largest_size
exponent-le lsb h = leb→le _ largest_size (all_below_sound 256 exponent_fits lsb exponent_table h)

times-le : (n unit : ℕ) → n ≤ 4095 → unit ≤ 16384 → n * unit ≤ 4095 * 16384
times-le n unit h k = grind arith

pub nes2_size-le :
    (lsb msb unit : ℕ) → lsb < 256 → msb < 16 → unit ≤ 16384 → nes2_size lsb msb unit ≤ largest_size
unfolding nes2_size
nes2_size-le lsb msb unit h k u =
    ground
      (arith, exponent-le lsb h, times-le (bit_or (msb * 2 ^ 8) lsb) unit (units-le lsb msb h k) u)

pub byte-lt : (b : List ℕ) (i : ℕ) → All IsByte b → byte_of b i < 256
byte-lt b i h = All-get_or IsByte b i 0 (omega arith) h

-- No header declares a PRG or CHR size whose sum with the other and the file offset wraps.
pub header_sizes-le :
    (b : List ℕ)
    → All IsByte b
    → ((declared_header b).prg_size ≤ largest_size) × ((declared_header b).chr_size ≤ largest_size)
unfolding declared_header
header_sizes-le b h =
    let b4 = byte-lt b 4 h in
    let b5 = byte-lt b 5 h in
    let b9 = byte-lt b 9 h in
    (
      ground (
        arith,
        bit_and_0f (byte_of b 9),
        nes2_size-le (byte_of b 4) (bit_and (byte_of b 9) 0x0F) (16 * 1024),
      ),
      ground (arith, nes2_size-le (byte_of b 5) (byte_of b 9 / 2 ^ 4) (8 * 1024)),
    )
