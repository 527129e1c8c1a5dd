-- ===== src/Ines/Fields.antt =====
-- ines.rs: the mapper number, and a complete iNES 1.0 image read back.
use Prim.Native.String.{String}
use decomps_agent.Prelude.{
  ℕ, ◌+◌, ◌*◌, ◌/◌, ◌%◌, ◌^◌, ◌<◌, ◌≡◌, refl, sym, ap, ◌∙◌, arith, List, [], ◌∷◌, ◌++◌, ==_iff,
  ◌&&◌, Bool, true, false, ltb, ◌==◌, if◌then◌else◌, length, All, IsByte, take-append, drop-append,
  drop-drop, take_all, All-append, length-append, bit_and, bit_or,
}
use decomps_agent.Prelude.Bits.{all_below, all_below_sound, bit_and_f0, bit_and_0f}
use decomps_agent.Errors.{ok}
use decomps_agent.Ines.{Header, Rom, mirroring_of, parse, vertical}
use decomps_agent.Ines.Declared.{byte_of, starts_with_magic, declared_header}
use decomps_agent.Ines.Size.{byte-lt}
use decomps_agent.Ines.Layout.{parse_complete, prg_base, rom_of}

-- `|` of two nibbles, and of a byte with a nibble above it.
abbrev joins : ℕ → ℕ → ℕ → Bool
joins width lo hi = bit_or lo (hi * width) == lo + hi * width

nibbles_table : all_below 16 (λ lo. all_below 16 (joins 16 lo)) ≡ true
unfolding all_below
nibbles_table = refl

third_table : all_below 256 (λ lo. all_below 16 (joins 256 lo)) ≡ true
unfolding all_below
third_table = refl

two_nibbles : (lo hi : ℕ) → lo < 16 → hi < 16 → bit_or lo (hi * 16) ≡ lo + hi * 16
two_nibbles lo hi h k = (==_iff _ _).0 (
    all_below_sound 16 (joins 16 lo) hi
      (all_below_sound 16 (λ x. all_below 16 (joins 16 x)) lo nibbles_table h) k)

third_nibble : (lo hi : ℕ) → lo < 256 → hi < 16 → bit_or lo (hi * 256) ≡ lo + hi * 256
third_nibble lo hi h k = (==_iff _ _).0 (
    all_below_sound 16 (joins 256 lo) hi
      (all_below_sound 256 (λ x. all_below 16 (joins 256 x)) lo third_table h) k)

low_mapper :
    (b6 b7 : ℕ) → b6 < 256 → b7 < 256 → bit_or (b6 / 16) (bit_and b7 0xF0) ≡ b6 / 16 + b7 / 16 * 16
low_mapper b6 b7 h k =
    ap (bit_or (b6 / 16)) (bit_and_f0 b7 k)
    ∙ two_nibbles (b6 / 16) (b7 / 16) (omega arith) (omega arith)

-- The mapper number: the high nibbles of bytes 6 and 7 are its two low hexadecimal digits, and the
-- low nibble of byte 8 is the third digit of a NES 2.0 header, which a plain iNES header lacks.
pub declared_header-mapper :
    (b : List ℕ)
    → All IsByte b
    → (declared_header b).mapper
      ≡ byte_of b 6 / 16
        + byte_of b 7 / 16 * 16
        + (if (declared_header b).nes2 then byte_of b 8 % 16 * 256 else 0)
unfolding declared_header
declared_header-mapper b h =
    let b6 = byte-lt b 6 h in
    let b7 = byte-lt b 7 h in
    let b8 = byte-lt b 8 h in
    let low = low_mapper (byte_of b 6) (byte_of b 7) b6 b7 in
    ground (
      arith,
      low,
      bit_and_0f (byte_of b 8),
      third_nibble (byte_of b 6 / 16 + byte_of b 7 / 16 * 16) (byte_of b 8 % 16),
    )

-- The header that the synthetic test images carry: plain iNES, vertical mirroring.
pub synth_header : ℕ → ℕ → ℕ → List ℕ
synth_header mapper_no prg_banks chr_banks =
    0x4E
    ∷ 0x45
    ∷ 0x53
    ∷ 0x1A
    ∷ prg_banks
    ∷ chr_banks
    ∷ bit_or (mapper_no * 2 ^ 4 % 256) 1
    ∷ bit_and mapper_no 0xF0
    ∷ 0
    ∷ 0
    ∷ 0
    ∷ 0
    ∷ 0
    ∷ 0
    ∷ 0
    ∷ 0
    ∷ []

-- Bytes 6 and 7 of the synthetic header, for every mapper number below 256.
abbrev flags_read : ℕ → Bool
flags_read m =
    let b6 = bit_or (m * 2 ^ 4 % 256) 1 in
    let b7 = bit_and m 0xF0 in
    ltb b6 256
    && ltb b7 256
    && bit_and b7 0x0C == 0
    && bit_and b6 0x04 == 0
    && bit_and b6 0x08 == 0
    && bit_and b6 0x01 == 1
    && bit_or (b6 / 2 ^ 4) (bit_and b7 0xF0) == m

flags_table : all_below 256 flags_read ≡ true
unfolding all_below
flags_table = refl

-- What the parser reads in the synthetic header, whatever follows it.
record IsSynth (m p c : ℕ) (h : Header) : Type 0 where
  mapper : h.mapper ≡ m
  prg_size : h.prg_size ≡ p * 16384
  chr_size : h.chr_size ≡ c * 8192
  trainer : h.trainer ≡ false
  mirroring : h.mirroring ≡ vertical

synth_header-IsSynth :
    (m p c : ℕ) (rest : List ℕ)
    → m < 256
    → IsSynth m p c (declared_header (synth_header m p c ++ rest))
unfolding declared_header synth_header mirroring_of
synth_header-IsSynth m p c rest h =
    let flags : flags_read m ≡ true = all_below_sound 256 flags_read m flags_table h in ground arith

synth_header-IsByte : (m p c : ℕ) → m < 256 → p < 256 → c < 256 → All IsByte (synth_header m p c)
unfolding synth_header
synth_header-IsByte m p c h hp hc =
    let flags : flags_read m ≡ true = all_below_sound 256 flags_read m flags_table h in ground arith

-- A complete image with a plain iNES header is read back: for every mapper number, every number of
-- 16 KB PRG banks and of 8 KB CHR banks below 256, and any contents of those sizes, the parser
-- returns the mapper number, the PRG and the CHR contents that the image was made of.
pub parse-synth :
    (sha256 : List ℕ → String) (m p c : ℕ) (prg chr : List ℕ) (path : String)
    → m < 256
    → p < 256
    → c < 256
    → length prg ≡ p * 16384
    → length chr ≡ c * 8192
    → All IsByte prg
    → All IsByte chr
    → (rom : Rom) × (parse sha256 (synth_header m p c ++ (prg ++ chr)) path ≡ ok rom)
      × (rom.header.mapper ≡ m)
      × (rom.prg ≡ prg)
      × (rom.chr ≡ chr)
      × (rom.prg_file_base ≡ 16)
unfolding synth_header starts_with_magic
parse-synth sha256 m p c prg chr path hm hp hc lp lc bp bc =
    let bytes = synth_header m p c ++ (prg ++ chr) in
    let h = synth_header-IsSynth m p c (prg ++ chr) hm in
    let valid =
      All-append IsByte (synth_header m p c) (prg ++ chr) (synth_header-IsByte m p c hm hp hc)
        (All-append IsByte prg chr bp bc) in
    let both = length-append prg chr in
    let sixteen : prg_base (declared_header bytes) ≡ 16 = rw h.trainer refl in
    let cut : (declared_header bytes).prg_size ≡ length prg = h.prg_size ∙ sym lp in
    let cut' : (declared_header bytes).chr_size ≡ length chr = h.chr_size ∙ sym lc in
    (
      rom_of sha256 bytes path,
      parse_complete sha256 bytes path valid (omega arith) (ground arith) (omega arith),
      h.mapper,
      rw (sixteen, cut) (take-append prg chr),
      rw (sixteen, cut, ← drop-drop 16 (length prg) bytes, drop-append prg chr, cut')
          (take_all (length chr) chr (omega arith)),
      sixteen,
    )
