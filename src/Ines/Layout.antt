-- ===== src/Ines/Layout.antt =====
-- ines.rs: what `Rom::parse` cuts out of the file.
use Prim.Native.String.{String}
use decomps_agent.Prelude.{
  ℕ, ◌+◌, ◌-◌, ◌^◌, ◌≤◌, ◌<◌, ◌≡◌, ◌≢◌, refl, sym, subst, ◌∙◌, arith, List, ◌++◌, false, inl, inr,
  Bool-cases, not, ◌||◌, ltb, le→leb, le→ltb_false, if◌then◌else◌, length, take, drop, All, IsByte,
  length-take, length-drop, take-append-drop, drop-drop,
}
use decomps_agent.Errors.{Result, ok, err, panic, not_ines, prg_too_short, chr_too_short}
use decomps_agent.Ines.{Header, Rom, slice, parse, usize_wrap}
use decomps_agent.Ines.Declared.{starts_with_magic, declared_header, parse_header-declared}
use decomps_agent.Ines.Size.{header_sizes-le}

slice_ok :
    (b : List ℕ) (lo hi : ℕ)
    → lo ≤ hi
    → hi ≤ length b
    → slice b lo hi ≡ ok (take (hi - lo) (drop lo b))
unfolding slice
slice_ok b lo hi h k = rw (le→leb lo hi h, le→leb hi (length b) k) refl

-- Where the PRG data begins in the file.
abbrev pub prg_base : Header → ℕ
prg_base h = 16 + (if h.trainer then 512 else 0)

prg_base-le : (h : Header) → prg_base h ≤ 528
prg_base-le h = ground arith

-- The header is what the first sixteen bytes declare. The file is what precedes the PRG data, the PRG
-- data, the CHR data and what follows: what precedes is the header and the trainer that it declares,
-- and the two parts have the declared sizes.
pub record IsLayout (bytes : List ℕ) (rom : Rom) : Type 0 where
  pub header_declared : rom.header ≡ declared_header bytes
  pub front : List ℕ
  pub back : List ℕ
  pub parts : bytes ≡ front ++ (rom.prg ++ (rom.chr ++ back))
  pub base : length front ≡ 16 + (if (declared_header bytes).trainer then 512 else 0)
  pub file_base : rom.prg_file_base ≡ length front
  pub prg_length : length rom.prg ≡ rom.header.prg_size
  pub chr_length : length rom.chr ≡ rom.header.chr_size

-- Three cuts of a list, put together.
three_parts :
    (a b c : ℕ) (xs : List ℕ)
    → xs
      ≡ take a xs ++ (take b (drop a xs) ++ (take c (drop (a + b) xs) ++ drop c (drop (a + b) xs)))
three_parts a b c xs =
    rw
      (
        take-append-drop c (drop (a + b) xs),
        ← drop-drop a b xs,
        take-append-drop b (drop a xs),
        take-append-drop a xs,
      )
      refl

module _ (sha256 : List ℕ → String) where
  -- The ROM that a complete image holds.
  abbrev pub rom_of : List ℕ → String → Rom
  rom_of bytes path =
      let h = declared_header bytes in
      record {
        path = path;
        header = h;
        prg = take h.prg_size (drop (prg_base h) bytes);
        chr = take h.chr_size (drop (prg_base h + h.prg_size) bytes);
        sha256 = sha256 bytes;
        prg_file_base = prg_base h;
      }

  abbrev pub expected : List ℕ → String → Result Rom
  expected bytes path =
      let h = declared_header bytes in
      if ltb (length bytes) 16 || not (starts_with_magic bytes)
      then err not_ines
      else if ltb (length bytes) (prg_base h + h.prg_size)
      then err (prg_too_short h.prg_size (length bytes - prg_base h))
      else if ltb (length bytes) (prg_base h + h.prg_size + h.chr_size)
      then err (chr_too_short h.chr_size)
      else ok (rom_of bytes path)

  -- The part of the parser behind the check of the magic, for sizes that do not wrap.
  parse_sized :
      (bytes : List ℕ) (path : String)
      → (prg_base (declared_header bytes) + (declared_header bytes).prg_size < 2 ^ 64)
      → (declared_header bytes).chr_size + length bytes < 2 ^ 64
      → (ltb (length bytes) 16 || not (starts_with_magic bytes)) ≡ false
      → parse sha256 bytes path ≡ expected bytes path
  unfolding parse
  parse_sized bytes path fits fits' magic =
      let h = declared_header bytes in
      let prg_end = prg_base h + h.prg_size in
      let same : usize_wrap prg_end ≡ prg_end = omega arith in
      rw (parse_header-declared bytes, magic, same)
        (elim (Bool-cases (ltb (length bytes) prg_end)) [
          | inl short ↦ rw short refl
          | inr long ↦
              let same' : usize_wrap (prg_end + h.chr_size) ≡ prg_end + h.chr_size = ground arith in
              rw (long, slice_ok bytes (prg_base h) prg_end (omega arith) (ground arith), same')
                (elim (Bool-cases (ltb (length bytes) (prg_end + h.chr_size))) [
                  | inl short ↦ rw short refl
                  | inr long' ↦
                      rw
                        (
                          long',
                          slice_ok bytes prg_end (prg_end + h.chr_size) (omega arith)
                              (ground arith),
                          cut (prg_base h) h.prg_size,
                          cut prg_end h.chr_size,
                        )
                        refl
                ])
        ])
    where
      cut : (a b : ℕ) → a + b - a ≡ b
      cut a b = omega arith

  -- For every file of bytes below 2^60 the parser does exactly the checks of its messages, on sums
  -- that do not wrap, and cuts the PRG and CHR parts at the declared sizes.
  pub parse_exact :
      (bytes : List ℕ) (path : String)
      → All IsByte bytes
      → length bytes < 2 ^ 60
      → parse sha256 bytes path ≡ expected bytes path
  parse_exact bytes path valid short =
      elim (Bool-cases (ltb (length bytes) 16 || not (starts_with_magic bytes))) [
        | inl bad ↦ unfold parse in rw (parse_header-declared bytes, bad) refl
        | inr magic ↦
            let (p, c) = header_sizes-le bytes valid in
            let base = prg_base-le (declared_header bytes) in
            parse_sized bytes path (omega arith) (omega arith) magic
      ]

  rom_of-IsLayout :
      (bytes : List ℕ) (path : String)
      → prg_base (declared_header bytes)
          + (declared_header bytes).prg_size
          + (declared_header bytes).chr_size
        ≤ length bytes
      → IsLayout bytes (rom_of bytes path)
  rom_of-IsLayout bytes path h =
      let f = declared_header bytes in
      let a = prg_base f in
      record {
        header_declared = refl;
        front = take a bytes;
        back = drop f.chr_size (drop (a + f.prg_size) bytes);
        parts = three_parts a f.prg_size f.chr_size bytes;
        base = omega (arith, length-take a bytes);
        file_base = omega (arith, length-take a bytes);
        prg_length = omega (arith, length-take f.prg_size (drop a bytes), length-drop a bytes);
        chr_length = omega (
          arith,
          length-take f.chr_size (drop (a + f.prg_size) bytes),
          length-drop (a + f.prg_size) bytes,
        );
      }

  expected_ok :
      (bytes : List ℕ) (path : String) (rom : Rom)
      → expected bytes path ≡ ok rom
      → (rom_of bytes path ≡ rom)
        × (prg_base (declared_header bytes)
              + (declared_header bytes).prg_size
              + (declared_header bytes).chr_size
            ≤ length bytes)
  expected_ok bytes path rom e = ground arith

  -- A file with the magic that is long enough for the declared sizes parses.
  pub parse_complete :
      (bytes : List ℕ) (path : String)
      → All IsByte bytes
      → length bytes < 2 ^ 60
      → (ltb (length bytes) 16 || not (starts_with_magic bytes)) ≡ false
      → prg_base (declared_header bytes)
          + (declared_header bytes).prg_size
          + (declared_header bytes).chr_size
        ≤ length bytes
      → parse sha256 bytes path ≡ ok (rom_of bytes path)
  parse_complete bytes path valid short magic fits =
      parse_exact bytes path valid short ∙ complete magic
    where
      complete :
          (ltb (length bytes) 16 || not (starts_with_magic bytes)) ≡ false
          → expected bytes path ≡ ok (rom_of bytes path)
      complete e =
          rw
            (
              e,
              le→ltb_false (prg_base (declared_header bytes) + (declared_header bytes).prg_size)
                  (length bytes) (omega arith),
              le→ltb_false
                  (prg_base (declared_header bytes)
                    + (declared_header bytes).prg_size
                    + (declared_header bytes).chr_size)
                  (length bytes) fits,
            )
            refl

  -- A file below 2^60 bytes that parses has the header that its first sixteen bytes declare, and is cut
  -- without gap or overlap: PRG directly behind the header and the trainer that it declares, CHR
  -- directly behind PRG, each of the size that the header declares.
  pub parse-IsLayout :
      (bytes : List ℕ) (path : String) (rom : Rom)
      → All IsByte bytes
      → length bytes < 2 ^ 60
      → parse sha256 bytes path ≡ ok rom
      → IsLayout bytes rom
  parse-IsLayout bytes path rom valid short e =
      let (same, fits) =
        expected_ok bytes path rom (sym (parse_exact bytes path valid short) ∙ e) in
      subst (λ r. IsLayout bytes r) same (rom_of-IsLayout bytes path fits)

  -- Whatever the header of a file below 2^60 bytes declares, the parser indexes and slices only
  -- inside the file.
  pub parse-ne-panic :
      (bytes : List ℕ) (path : String)
      → All IsByte bytes
      → length bytes < 2 ^ 60
      → parse sha256 bytes path ≢ err panic
  parse-ne-panic bytes path valid short e = no_panic (sym (parse_exact bytes path valid short) ∙ e)
    where
      no_panic : expected bytes path ≡ err panic → ⊥
      no_panic p = ground arith
