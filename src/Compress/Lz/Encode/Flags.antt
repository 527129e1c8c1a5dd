-- ===== src/Compress/Lz/Encode/Flags.antt =====
-- compress/lz.rs: the flag byte and the two bytes of a back-reference, as arithmetic on bytes.
use decomps_agent.Prelude.{
  ℕ, ◌+◌, ◌-◌, ◌*◌, ◌/◌, ◌%◌, ◌^◌, ◌≤◌, ◌<◌, ◌≡◌, refl, arith, bit_and, bit_or, Bool, true, false,
  not, ◌&&◌, ◌||◌, ◌==◌, ◌!=◌, ==_iff, ltb,
}
use decomps_agent.Prelude.Bits.{all_below, all_below_sound, bit_and_f0, bit_and_0f}
use decomps_agent.Prelude.Masks.{bit_and-mask}
use decomps_agent.Compress.Lz.{offset_of, count_of}
use decomps_agent.Compress.Lz.Encode.{low_byte, high_byte}

-- A property of two numbers below their bounds, by evaluation.
both_below :
    (a b : ℕ) (holds : ℕ → ℕ → Bool) (i j : ℕ)
    → all_below a (λ n. all_below b (holds n)) ≡ true
    → i < a
    → j < b
    → holds i j ≡ true
both_below a b holds i j whole hi hj =
    all_below_sound b (holds i) j (all_below_sound a (λ n. all_below b (holds n)) i whole hi) hj

-- A bit that is put below flags of which it and the lower ones are clear.
pub set_bit :
    (flags bit : ℕ)
    → flags < 256
    → bit < 8
    → flags % 2 ^ (bit + 1) ≡ 0
    → bit_or flags (2 ^ bit) ≡ flags + 2 ^ bit
unfolding all_below
set_bit flags bit hf hb clear =
    let whole =
      both_below 256 8 (λ f b. not (f % 2 ^ (b + 1) == 0) || bit_or f (2 ^ b) == f + 2 ^ b) flags
        bit refl hf hb in
    let is_clear = (==_iff (flags % 2 ^ (bit + 1)) 0).1 clear in
    (==_iff (bit_or flags (2 ^ bit)) (flags + 2 ^ bit)).0 (ground arith)

-- The test of a bit that is set, and of one that is clear.
pub bit_set :
    (flags bit : ℕ)
    → flags < 256
    → bit < 8
    → flags / 2 ^ bit % 2 ≡ 1
    → (bit_and flags (2 ^ bit) != 0) ≡ true
unfolding all_below
bit_set flags bit hf hb is_set =
    let whole =
      both_below 256 8 (λ f b. not (f / 2 ^ b % 2 == 1) || bit_and f (2 ^ b) != 0) flags bit refl hf
        hb in
    let one = (==_iff (flags / 2 ^ bit % 2) 1).1 is_set in ground arith

pub bit_clear :
    (flags bit : ℕ)
    → flags < 256
    → bit < 8
    → flags / 2 ^ bit % 2 ≡ 0
    → (bit_and flags (2 ^ bit) != 0) ≡ false
unfolding all_below
bit_clear flags bit hf hb is_clear =
    let whole =
      both_below 256 8 (λ f b. not (f / 2 ^ b % 2 == 0) || bit_and f (2 ^ b) == 0) flags bit refl hf
        hb in
    let nil = (==_iff (flags / 2 ^ bit % 2) 0).1 is_clear in ground arith

nibbles : (h n : ℕ) → h < 16 → n < 16 → bit_or (h * 16) n ≡ h * 16 + n
unfolding all_below
nibbles h n hh hn =
    (==_iff (bit_or (h * 16) n) (h * 16 + n)).0
      (both_below 16 16 (λ a b. bit_or (a * 16) b == a * 16 + b) h n refl hh hn)

page_and_byte : (h l : ℕ) → h < 16 → l < 256 → bit_or (h * 256) l ≡ h * 256 + l
unfolding all_below
page_and_byte h l hh hl =
    (==_iff (bit_or (h * 256) l) (h * 256 + l)).0
      (both_below 16 256 (λ a b. bit_or (a * 256) b == a * 256 + b) h l refl hh hl)

high_byte-value :
    (off len : ℕ) → off < 4096 → 3 ≤ len → len ≤ 18 → high_byte off len ≡ off / 256 * 16 + (len - 3)
high_byte-value off len ho lo hi =
    let top : bit_and (off / 2 ^ 4) 0xf0 % 2 ^ 8 ≡ off / 256 * 16 =
      omega (arith, bit_and_f0 (off / 16) (omega arith)) in
    let low : (len - 3) % 2 ^ 8 ≡ len - 3 = omega arith in
    rw (top, low) (nibbles (off / 256) (len - 3) (omega arith) (omega arith))

-- A back-reference is read as it was written.
pub offset_of-bytes :
    (off len : ℕ)
    → off < 4096
    → 3 ≤ len
    → len ≤ 18
    → offset_of (low_byte off) (high_byte off len) ≡ off + 1
offset_of-bytes off len ho lo hi =
    let value = high_byte-value off len ho lo hi in
    let page : bit_and (high_byte off len) 0xf0 * 2 ^ 4 ≡ off / 256 * 256 =
      omega (arith, value, bit_and_f0 (high_byte off len) (omega (arith, value))) in
    let byte : low_byte off ≡ off % 256 = bit_and-mask 8 off in
    rw (page, byte)
      (omega (arith, page_and_byte (off / 256) (off % 256) (omega arith) (omega arith)))

pub count_of-bytes :
    (off len : ℕ) → off < 4096 → 3 ≤ len → len ≤ 18 → count_of (high_byte off len) ≡ len
count_of-bytes off len ho lo hi =
    let value = high_byte-value off len ho lo hi in
    omega (arith, value, bit_and_0f (high_byte off len) (omega (arith, value)))

-- Flags of which a bit and the lower ones are clear, and those with the bit put in: what the lower and
-- the higher bits are.
abbrev room_holds : ℕ → ℕ → Bool
room_holds f b =
    not (f % 2 ^ (b + 1) == 0)
    || f % 2 ^ b == 0
      && f / 2 ^ b % 2 == 0
      && (f + 2 ^ b) % 2 ^ b == 0
      && (f + 2 ^ b) / 2 ^ b % 2 == 1
      && ltb (f + 2 ^ b) 256
      && (f + 2 ^ b) / 2 ^ (b + 1) == f / 2 ^ (b + 1)

pub record Room (flags bit : ℕ) : Type 0 where
  pub low_clear : flags % 2 ^ bit ≡ 0
  pub is_clear : flags / 2 ^ bit % 2 ≡ 0
  pub put_low : (flags + 2 ^ bit) % 2 ^ bit ≡ 0
  pub put_set : (flags + 2 ^ bit) / 2 ^ bit % 2 ≡ 1
  pub put_small : flags + 2 ^ bit < 256
  pub put_high : (flags + 2 ^ bit) / 2 ^ (bit + 1) ≡ flags / 2 ^ (bit + 1)

pub Room-of : (flags bit : ℕ) → flags < 256 → bit < 8 → flags % 2 ^ (bit + 1) ≡ 0 → Room flags bit
unfolding all_below
Room-of flags bit hf hb clear =
    let whole = both_below 256 8 room_holds flags bit refl hf hb in
    let is_clear = (==_iff (flags % 2 ^ (bit + 1)) 0).1 clear in
    record {
      low_clear = ground arith;
      is_clear = ground arith;
      put_low = ground arith;
      put_set = ground arith;
      put_small = ground arith;
      put_high = ground arith;
    }

pub halve : (f bit : ℕ) → f < 256 → bit < 8 → f / 2 ^ bit / 2 ≡ f / 2 ^ (bit + 1)
unfolding all_below
halve f bit hf hb =
    (==_iff (f / 2 ^ bit / 2) (f / 2 ^ (bit + 1))).0
      (both_below 256 8 (λ a b. a / 2 ^ b / 2 == a / 2 ^ (b + 1)) f bit refl hf hb)
