-- ===== src/Ines.antt =====
-- tools/nesrom/src/ines.rs: the iNES / NES 2.0 header and the parts of a ROM file.
-- Bytes are numbers below 256; `usize` arithmetic that can leave 64 bits wraps, as in the release
-- build. The hash of the file is the third-party crate's and stands as a parameter.
pub mod Declared
pub mod Size
pub mod Layout
pub mod Fields
use Prim.Native.String.{String}
use decomps_agent.Prelude.{
  ℕ, ◌+◌, ◌-◌, ◌*◌, ◌/◌, ◌%◌, ◌^◌, bit_and, bit_or, Bool, true, false, ◌||◌, ◌&&◌, List, [], ◌∷◌,
  ltb, leb, ◌==◌, ◌!=◌, if◌then◌else◌, length, get_or, take, drop, not,
}
use decomps_agent.Errors.{
  Result, ok, err, panic, not_ines, prg_too_short, chr_too_short, ◌>>=◌, ◌>>◌, bail_if,
}

-- The three values that the source writes as text.
pub data Mirroring : Type 0 where
  horizontal vertical four_screen : Mirroring

pub record Header : Type 0 where
  pub mapper : ℕ
  pub submapper : ℕ
  pub nes2 : Bool
  pub prg_size : ℕ
  pub chr_size : ℕ
  pub chr_ram : Bool
  pub chr_ram_size : ℕ
  pub prg_ram_size : ℕ
  pub prg_nvram_size : ℕ
  pub mirroring : Mirroring
  pub battery : Bool
  pub trainer : Bool

pub record Rom : Type 0 where
  pub path : String
  pub header : Header
  pub prg : List ℕ
  pub chr : List ℕ
  pub sha256 : String
  pub prg_file_base : ℕ

-- `usize` of the 64-bit release build.
abbrev pub usize_wrap : ℕ → ℕ
usize_wrap n = n % 2 ^ 64

pub nes2_size : ℕ → ℕ → ℕ → ℕ
nes2_size lsb msb_nibble unit =
    if msb_nibble == 0xF
    then usize_wrap (2 ^ (lsb / 4) * (bit_and lsb 3 * 2 + 1))
    else bit_or (msb_nibble * 2 ^ 8) lsb * unit

pub shift_size : ℕ → ℕ
shift_size v = if v == 0 then 0 else 64 * 2 ^ v

-- `b[i]`
abbrev pub byte : List ℕ → ℕ → Result ℕ
byte b i = if ltb i (length b) then ok (get_or b i 0) else err panic

-- `bytes[lo..hi]`
pub slice : List ℕ → ℕ → ℕ → Result (List ℕ)
slice b lo hi =
    if leb lo hi && leb hi (length b) then ok (take (hi - lo) (drop lo b)) else err panic

abbrev pub is_magic : List ℕ → Bool
is_magic (a ∷ b ∷ c ∷ d ∷ []) = a == 0x4E && b == 0x45 && c == 0x53 && d == 0x1A
is_magic _ = false

pub mirroring_of : ℕ → Mirroring
mirroring_of flags =
    if bit_and flags 0x08 != 0
    then four_screen
    else if bit_and flags 0x01 != 0
    then vertical
    else horizontal

-- What the header's form decides.
pub record Sizes : Type 0 where
  pub mapper_high : ℕ
  pub submapper : ℕ
  pub prg_size : ℕ
  pub chr_size : ℕ
  pub chr_ram_size : ℕ
  pub prg_ram_size : ℕ
  pub prg_nvram_size : ℕ

unfoldable pub nes2_sizes : List ℕ → Result Sizes
nes2_sizes b = do
  b8 ← byte b 8
  b4 ← byte b 4
  b9 ← byte b 9
  b5 ← byte b 5
  b10 ← byte b 10
  b11 ← byte b 11
  ok (record {
    mapper_high = bit_and b8 0x0F * 2 ^ 8;
    submapper = b8 / 2 ^ 4;
    prg_size = nes2_size b4 (bit_and b9 0x0F) (16 * 1024);
    chr_size = nes2_size b5 (b9 / 2 ^ 4) (8 * 1024);
    chr_ram_size = shift_size (bit_and b11 0x0F) + shift_size (b11 / 2 ^ 4);
    prg_ram_size = shift_size (bit_and b10 0x0F);
    prg_nvram_size = shift_size (b10 / 2 ^ 4);
  })

unfoldable pub ines_sizes : List ℕ → Bool → Result Sizes
ines_sizes b battery = do
  b4 ← byte b 4
  b5 ← byte b 5
  b8 ← byte b 8
  let chr_size = b5 * 8 * 1024
  let prg_ram_size : ℕ = if b8 == 0 then 8192 else b8 * 8192
  ok (record {
    mapper_high = 0;
    submapper = 0;
    prg_size = b4 * 16 * 1024;
    chr_size = chr_size;
    chr_ram_size = if chr_size == 0 then 8192 else 0;
    prg_ram_size = prg_ram_size;
    prg_nvram_size = if battery then prg_ram_size else 0;
  })

abbrev pub header_of : ℕ → ℕ → Bool → Sizes → Header
header_of b6 b7 nes2 z =
    let chr_ram = z.chr_size == 0 in
    let mapper = bit_or (b6 / 2 ^ 4) (bit_and b7 0xF0) in
    record {
      mapper = if nes2 then bit_or mapper z.mapper_high else mapper;
      submapper = z.submapper;
      nes2 = nes2;
      prg_size = z.prg_size;
      chr_size = z.chr_size;
      chr_ram = chr_ram;
      chr_ram_size = if chr_ram && z.chr_ram_size == 0 then 8192 else z.chr_ram_size;
      prg_ram_size = z.prg_ram_size;
      prg_nvram_size = z.prg_nvram_size;
      mirroring = mirroring_of b6;
      battery = bit_and b6 0x02 != 0;
      trainer = bit_and b6 0x04 != 0;
    }

-- The header of an image whose magic has been checked.
unfoldable pub header_fields : List ℕ → Result Header
header_fields b = do
  b7 ← byte b 7
  b6 ← byte b 6
  let nes2 = bit_and b7 0x0C == 0x08
  sizes ← if nes2 then nes2_sizes b else ines_sizes b (bit_and b6 0x02 != 0)
  ok (header_of b6 b7 nes2 sizes)

pub parse_header : List ℕ → Result Header
parse_header b =
    if ltb (length b) 16
    then err not_ines
    else (do head ← slice b 0 4; bail_if (not (is_magic head)) not_ines; header_fields b)

module _ (sha256 : List ℕ → String) where
  pub parse : List ℕ → String → Result Rom
  parse bytes path = do
    header ← parse_header bytes
    let prg_file_base = 16 + (if header.trainer then 512 else 0)
    let prg_end = usize_wrap (prg_file_base + header.prg_size)
    bail_if (ltb (length bytes) prg_end)
        (prg_too_short header.prg_size (length bytes - prg_file_base))
    prg ← slice bytes prg_file_base prg_end
    let chr_end = usize_wrap (prg_end + header.chr_size)
    bail_if (ltb (length bytes) chr_end) (chr_too_short header.chr_size)
    chr ← slice bytes prg_end chr_end
    ok (record {
      path = path;
      header = header;
      prg = prg;
      chr = chr;
      sha256 = sha256 bytes;
      prg_file_base = prg_file_base;
    })
