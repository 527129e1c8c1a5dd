-- ===== src/Ines/Declared.antt =====
-- ines.rs: what the sixteen bytes of a header declare, as the format documents them, for the parser to
-- be compared with.
use decomps_agent.Prelude.{
  ℕ, ◌+◌, ◌*◌, ◌/◌, ◌^◌, ◌≤◌, ◌<◌, ◌≡◌, refl, inl, inr, arith, bit_and, bit_or, Bool, ◌&&◌, ◌||◌,
  not, List, [], ◌∷◌, ltb, ◌==◌, ◌!=◌, if◌then◌else◌, length, get_or, take, lt→ltb, le→leb,
  Bool-cases,
}
use decomps_agent.Errors.{ok, err, not_ines}
use decomps_agent.Ines.{
  Header, byte, slice, is_magic, mirroring_of, nes2_size, shift_size, nes2_sizes, ines_sizes,
  header_fields, parse_header,
}

abbrev pub byte_of : List ℕ → ℕ → ℕ
byte_of b i = get_or b i 0

unfoldable pub starts_with_magic : List ℕ → Bool
starts_with_magic b =
    byte_of b 0 == 0x4E && byte_of b 1 == 0x45 && byte_of b 2 == 0x53 && byte_of b 3 == 0x1A

unfoldable pub declared_header : List ℕ → Header
declared_header b =
    let nes2 = bit_and (byte_of b 7) 0x0C == 0x08 in
    let battery = bit_and (byte_of b 6) 0x02 != 0 in
    let trainer = bit_and (byte_of b 6) 0x04 != 0 in
    let mapper_low = bit_or (byte_of b 6 / 2 ^ 4) (bit_and (byte_of b 7) 0xF0) in
    let prg_size =
      if nes2
      then nes2_size (byte_of b 4) (bit_and (byte_of b 9) 0x0F) (16 * 1024)
      else byte_of b 4 * 16 * 1024 in
    let chr_size =
      if nes2
      then nes2_size (byte_of b 5) (byte_of b 9 / 2 ^ 4) (8 * 1024)
      else byte_of b 5 * 8 * 1024 in
    let prg_ram_size =
      if nes2
      then shift_size (bit_and (byte_of b 10) 0x0F)
      else if byte_of b 8 == 0
      then 8192
      else byte_of b 8 * 8192 in
    let prg_nvram_size =
      if nes2 then shift_size (byte_of b 10 / 2 ^ 4) else if battery then prg_ram_size else 0 in
    let chr_ram_size =
      if nes2
      then shift_size (bit_and (byte_of b 11) 0x0F) + shift_size (byte_of b 11 / 2 ^ 4)
      else if chr_size == 0
      then 8192
      else 0 in
    let chr_ram = chr_size == 0 in
    record {
      mapper = if nes2 then bit_or mapper_low (bit_and (byte_of b 8) 0x0F * 2 ^ 8) else mapper_low;
      submapper = if nes2 then byte_of b 8 / 2 ^ 4 else 0;
      nes2 = nes2;
      prg_size = prg_size;
      chr_size = chr_size;
      chr_ram = chr_ram;
      chr_ram_size = if chr_ram && chr_ram_size == 0 then 8192 else chr_ram_size;
      prg_ram_size = prg_ram_size;
      prg_nvram_size = prg_nvram_size;
      mirroring = mirroring_of (byte_of b 6);
      battery = battery;
      trainer = trainer;
    }

byte-byte_of : (b : List ℕ) (i : ℕ) → i < length b → byte b i ≡ ok (byte_of b i)
byte-byte_of b i h = rw (lt→ltb i (length b) h) refl

header_fields-declared : (b : List ℕ) → 16 ≤ length b → header_fields b ≡ ok (declared_header b)
unfolding header_fields nes2_sizes ines_sizes declared_header
header_fields-declared b h =
    let at : (i : ℕ) → i < 16 → byte b i ≡ ok (byte_of b i) =
      λ i k. byte-byte_of b i (omega arith) in
    rw (at 7 (omega arith), at 6 (omega arith))
      (elim (Bool-cases (bit_and (byte_of b 7) 0x0C == 0x08)) [
        | inl nes2 ↦
            rw
              (
                nes2,
                at 8 (omega arith),
                at 4 (omega arith),
                at 9 (omega arith),
                at 5 (omega arith),
                at 10 (omega arith),
                at 11 (omega arith),
              )
              refl
        | inr plain ↦ rw (plain, at 4 (omega arith), at 5 (omega arith), at 8 (omega arith)) refl
      ])

magic_of : (b : List ℕ) → 16 ≤ length b → is_magic (take 4 b) ≡ starts_with_magic b
unfolding starts_with_magic
magic_of [] h = absurd (omega arith)
magic_of (x ∷ []) h = absurd (omega arith)
magic_of (x ∷ y ∷ []) h = absurd (omega arith)
magic_of (x ∷ y ∷ z ∷ []) h = absurd (omega arith)
magic_of (x ∷ y ∷ z ∷ w ∷ rest) h = refl

-- The parser of the header reads inside it and gives what it declares, or refuses what is no header.
pub parse_header-declared :
    (b : List ℕ)
    → parse_header b ≡ (
        if ltb (length b) 16 || not (starts_with_magic b)
        then err not_ines
        else ok (declared_header b))
unfolding parse_header slice
parse_header-declared b = elim (Bool-cases (ltb (length b) 16)) [
  | inl short ↦ rw short refl
  | inr long ↦
      let enough : 16 ≤ length b = ground arith in
      rw
        (
          long,
          le→leb 4 (length b) (omega arith),
          magic_of b enough,
          header_fields-declared b enough,
        )
        (elim (Bool-cases (starts_with_magic b)) [
          | inl magic ↦ rw magic refl
          | inr other ↦ rw other refl
        ])
]
