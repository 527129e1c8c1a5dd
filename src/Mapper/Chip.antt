-- ===== src/Mapper/Chip.antt =====
-- tools/nesrom/src/mapper/mod.rs: the trait `Mapper` as the five types that implement it, each with
-- its PRG and CHR size, and the methods by dispatch.
use decomps_agent.Prelude.{
  ℕ, zero, suc, ◌+◌, ◌-◌, ◌*◌, ◌/◌, ◌%◌, ◌^◌, ◌≤◌, ◌<◌, ◌≡◌, ◌⊎◌, inl, inr, Bool-cases, arith, max,
  Bool, true, false, ltb, leb, ◌==◌, if◌then◌else◌, List, Option, set,
}
use decomps_agent.Errors.{Result, ok, err, unsupported_mapper}
use decomps_agent.Mapper.State.{BankState, Window, BankSwitch}
use decomps_agent.Mapper.Nrom
use decomps_agent.Mapper.Uxrom
use decomps_agent.Mapper.Cnrom
use decomps_agent.Mapper.Mmc1
use decomps_agent.Mapper.Mmc3
use decomps_agent.Ines.{Rom}

pub data Mapper : Type 0 where
  nrom mmc1 uxrom cnrom mmc3 : ℕ → ℕ → Mapper

unfoldable pub number : Mapper → ℕ
number (nrom prg chr) = 0
number (mmc1 prg chr) = 1
number (uxrom prg chr) = 2
number (cnrom prg chr) = 3
number (mmc3 prg chr) = 4

abbrev pub prg_size : Mapper → ℕ
prg_size (nrom prg chr) = prg
prg_size (mmc1 prg chr) = prg
prg_size (uxrom prg chr) = prg
prg_size (cnrom prg chr) = prg
prg_size (mmc3 prg chr) = prg

abbrev pub prg_bank_size : Mapper → ℕ
prg_bank_size (nrom prg chr) = 16 * 1024
prg_bank_size (mmc1 prg chr) = 16 * 1024
prg_bank_size (uxrom prg chr) = 16 * 1024
prg_bank_size (cnrom prg chr) = 16 * 1024
prg_bank_size (mmc3 prg chr) = 8 * 1024

unfoldable pub reset_state : Mapper → BankState
reset_state (nrom prg chr) = Nrom.reset_state prg
reset_state (mmc1 prg chr) = Mmc1.reset_state prg chr
reset_state (uxrom prg chr) = Uxrom.reset_state prg
reset_state (cnrom prg chr) = Cnrom.reset_state prg
reset_state (mmc3 prg chr) = Mmc3.reset_state prg chr

unfoldable pub on_write : Mapper → ℕ → ℕ → BankState → BankState × Option BankSwitch
on_write (nrom prg chr) = Nrom.on_write
on_write (mmc1 prg chr) = Mmc1.on_write prg chr
on_write (uxrom prg chr) = Uxrom.on_write prg
on_write (cnrom prg chr) = Cnrom.on_write chr
on_write (mmc3 prg chr) = Mmc3.on_write prg chr

unfoldable pub windows : Mapper → List Window
windows (nrom prg chr) = Nrom.fixed_windows prg
windows (mmc1 prg chr) = Mmc1.windows prg
windows (uxrom prg chr) = Uxrom.windows prg
windows (cnrom prg chr) = Nrom.fixed_windows prg
windows (mmc3 prg chr) = Mmc3.windows prg

unfoldable pub is_mapper_reg : Mapper → ℕ → Bool
is_mapper_reg (nrom prg chr) addr = false
is_mapper_reg (mmc1 prg chr) addr = leb 0x8000 addr
is_mapper_reg (uxrom prg chr) addr = leb 0x8000 addr
is_mapper_reg (cnrom prg chr) addr = leb 0x8000 addr
is_mapper_reg (mmc3 prg chr) addr = leb 0x8000 addr

unfoldable pub bank_cpu_base : Mapper → ℕ → ℕ
bank_cpu_base (nrom prg chr) = Nrom.bank_cpu_base
bank_cpu_base (mmc1 prg chr) = Mmc1.bank_cpu_base prg
bank_cpu_base (uxrom prg chr) = Uxrom.bank_cpu_base prg
bank_cpu_base (cnrom prg chr) = Nrom.bank_cpu_base
bank_cpu_base (mmc3 prg chr) = Mmc3.bank_cpu_base prg

-- The methods that the trait provides.
abbrev pub bank_count : Mapper → ℕ
bank_count m = max (prg_size m / prg_bank_size m) 1

-- `for i in 0..n { if slot0 + i < 4 { s.prg8k[slot0 + i] = bank * n + i; } }`, with `left` rounds
-- to go.
unfoldable pub show_bank : ℕ → ℕ → ℕ → ℕ → ℕ → List ℕ → List ℕ
show_bank zero i slot0 bank n prg8k = prg8k
show_bank (suc left) i slot0 bank n prg8k =
    show_bank left (i + 1) slot0 bank n
      (if ltb (slot0 + i) 4 then set prg8k (slot0 + i) (bank * n + i) else prg8k)

unfoldable pub state_for_bank : Mapper → ℕ → ℕ → BankState → BankState
state_for_bank m bank addr st =
    let size = prg_bank_size m in
    let win_start = 0x8000 + (addr - 0x8000) / size * size in
    let slot0 = (win_start - 0x8000) / 0x2000 in
    let n = max (size / 0x2000) 1 in
    if ltb addr 0x8000 then st else record st { prg8k = show_bank n 0 slot0 bank n st.prg8k }

unfoldable pub for_rom : Rom → Result Mapper
for_rom rom =
    let prg = rom.header.prg_size in
    let chr = rom.header.chr_size in
    let n = rom.header.mapper in
    if n == 0
    then ok (nrom prg chr)
    else if n == 1
    then ok (mmc1 prg chr)
    else if n == 2
    then ok (uxrom prg chr)
    else if n == 3
    then ok (cnrom prg chr)
    else if n == 4
    then ok (mmc3 prg chr)
    else err (unsupported_mapper n)

unfoldable pub is_supported : ℕ → Bool
is_supported mapper = leb mapper 4

-- A PRG ROM of whole banks, of 16 KB at least.
abbrev pub WellSized : Mapper → Type 0
WellSized m = (prg_size m % prg_bank_size m ≡ 0) × (16384 ≤ prg_size m) × (prg_size m < 2 ^ 63)

-- The two functions agree: either the header's mapper is not supported and is refused by its
-- number, or it is supported and the chip built has that number and the declared PRG size.
pub for_rom-is_supported :
    (rom : Rom)
    → ((is_supported rom.header.mapper ≡ false)
        × (for_rom rom ≡ err (unsupported_mapper rom.header.mapper)))
      ⊎ ((m : Mapper) × (is_supported rom.header.mapper ≡ true)
          × (for_rom rom ≡ ok m)
          × (number m ≡ rom.header.mapper)
          × (prg_size m ≡ rom.header.prg_size))
unfolding for_rom is_supported number
for_rom-is_supported rom =
    let prg = rom.header.prg_size in
    let chr = rom.header.chr_size in
    let n = rom.header.mapper in
    let m : Mapper =
      if n == 0
      then nrom prg chr
      else if n == 1
      then mmc1 prg chr
      else if n == 2
      then uxrom prg chr
      else if n == 3
      then cnrom prg chr
      else mmc3 prg chr in
    elim (Bool-cases (leb n 4)) [
      | inl in_range ↦ inr (m, in_range, ground arith, ground arith, ground arith)
      | inr above ↦ inl (above, ground arith)
    ]
