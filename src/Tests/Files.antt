-- ===== src/Tests/Files.antt =====
-- ines.rs at a header of one CHR bank and at the smallest images.
use Prim.Native.String.{String}
use decomps_agent.Prelude.{
  ℕ, ◌≡◌, ◌≢◌, refl, arith, List, [], ◌∷◌, ◌++◌, replicate, All, IsByte, length-replicate,
  All-replicate,
}
use decomps_agent.Errors.{ok, err, panic}
use decomps_agent.Ines.{Rom, parse}
use decomps_agent.Ines.Declared.{declared_header, starts_with_magic}
use decomps_agent.Ines.Layout.{rom_of, IsLayout, parse-IsLayout, parse-ne-panic, parse_complete}
use decomps_agent.Ines.Fields.{parse-synth, synth_header}

abbrev no_hash : List ℕ → String
no_hash bytes = "0"

-- Mapper 66 without PRG and CHR, and a byte that no part of the file claims.
abbrev bare : List ℕ
bare = 0x4E ∷ 0x45 ∷ 0x53 ∷ 0x1A ∷ 0 ∷ 0 ∷ 0x20 ∷ 0x40 ∷ 0 ∷ 0 ∷ 0 ∷ 0 ∷ 0 ∷ 0 ∷ 0 ∷ 0 ∷ 7 ∷ []

bare-IsByte : All IsByte bare
bare-IsByte = ground arith

parse-IsLayout_example : IsLayout bare (rom_of no_hash bare "bare.nes")
unfolding starts_with_magic declared_header
parse-IsLayout_example =
    parse-IsLayout no_hash bare "bare.nes" (rom_of no_hash bare "bare.nes") bare-IsByte
      (omega arith)
      (parse_complete no_hash bare "bare.nes" bare-IsByte (omega arith) refl (omega arith))

-- A header that declares 255 PRG banks in front of nothing.
abbrev cut_off : List ℕ
cut_off = 0x4E ∷ 0x45 ∷ 0x53 ∷ 0x1A ∷ 255 ∷ 8 ∷ 4 ∷ 0 ∷ 0 ∷ 0 ∷ 0 ∷ 0 ∷ 0 ∷ 0 ∷ 0 ∷ 0 ∷ []

parse-ne-panic_example : parse no_hash cut_off "cut.nes" ≢ err panic
parse-ne-panic_example = parse-ne-panic no_hash cut_off "cut.nes" (ground arith) (omega arith)

parse_complete_example : parse no_hash bare "bare.nes" ≡ ok (rom_of no_hash bare "bare.nes")
unfolding starts_with_magic declared_header
parse_complete_example =
    parse_complete no_hash bare "bare.nes" bare-IsByte (omega arith) refl (omega arith)

abbrev prg_image : List ℕ
prg_image = replicate 16384 0xEA

abbrev chr_image : List ℕ
chr_image = replicate 8192 0x55

parse-synth_example :
    (rom : Rom) × (parse no_hash (synth_header 3 1 1 ++ (prg_image ++ chr_image)) "synth.nes"
      ≡ ok rom)
    × (rom.header.mapper ≡ 3)
    × (rom.prg ≡ prg_image)
    × (rom.chr ≡ chr_image)
    × (rom.prg_file_base ≡ 16)
parse-synth_example =
    parse-synth no_hash 3 1 1 prg_image chr_image "synth.nes" (omega arith) (omega arith)
      (omega arith) (length-replicate {A = ℕ} 16384 0xEA) (length-replicate {A = ℕ} 8192 0x55)
      (All-replicate IsByte 16384 0xEA (omega arith)) (All-replicate IsByte 8192 0x55 (omega arith))
