-- ===== src/Mapper/State.antt =====
-- tools/nesrom/src/mapper/mod.rs: the bank state, and what the mappers report.
use decomps_agent.Prelude.{
  ℕ, zero, suc, ◌+◌, ◌-◌, ◌/◌, ◌^◌, ◌%◌, Bool, true, false, ◌&&◌, List, [], ◌∷◌, ◌==◌, max,
  replicate,
}

-- The arrays are lists of a fixed length: four 8 KB PRG slots, eight 1 KB CHR slots, 16 registers.
pub record BankState : Type 0 where
  pub prg8k : List ℕ
  pub chr1k : List ℕ
  pub regs : List ℕ
  pub shift : ℕ
  pub shift_n : ℕ
  pub dynamic : Bool

-- `BankState::new`
abbrev pub new : List ℕ → List ℕ → BankState
new prg8k chr1k = record {
  prg8k = prg8k;
  chr1k = chr1k;
  regs = replicate 16 0;
  shift = 0;
  shift_n = 0;
  dynamic = false;
}

pub record RomLoc : Type 0 where
  pub cpu_addr : ℕ
  pub bank : ℕ
  pub offset : ℕ
  pub file_offset : ℕ

pub data Kind : Type 0 where
  fixed switchable : Kind

-- The text field is the rendering of `start` and `last` and is left out.
pub record Window : Type 0 where
  pub start : ℕ
  pub last : ℕ
  pub kind : Kind
  pub default_bank : ℕ
  pub bank_count : ℕ

-- The `description` texts, one constructor for each format with the values put into it.
pub data Description : Type 0 where
  uxrom_select : ℕ → Description
  cnrom_select : ℕ → Description
  mmc1_reset : Description
  mmc1_serial : ℕ → Description
  mmc1_control : ℕ → ℕ → ℕ → Description
  mmc1_chr : ℕ → ℕ → Description
  mmc1_prg : ℕ → ℕ → ℕ → Description
  mmc3_select : ℕ → ℕ → ℕ → Description
  mmc3_data : ℕ → ℕ → Description
  mmc3_mirroring mmc3_ram_protect mmc3_irq_latch mmc3_irq_reload mmc3_irq_disable mmc3_irq_enable :
      Description

pub record BankSwitch : Type 0 where
  pub register : ℕ
  pub value : ℕ
  pub description : Description
  pub changed : Bool

-- `prg_size / prg_bank_size`, at least one.
abbrev pub banks_of : ℕ → ℕ → ℕ
banks_of prg size = max (prg / size) 1

-- Equality of two arrays.
unfoldable pub same_slots : List ℕ → List ℕ → Bool
same_slots [] [] = true
same_slots (x ∷ xs) (y ∷ ys) = x == y && same_slots xs ys
same_slots [] (y ∷ ys) = false
same_slots (x ∷ xs) [] = false

-- `usize` subtraction in the release build.
abbrev pub usize_sub : ℕ → ℕ → ℕ
usize_sub a b = (a + 2 ^ 64 - b) % 2 ^ 64

abbrev pub identity_chr : List ℕ
identity_chr = 0 ∷ 1 ∷ 2 ∷ 3 ∷ 4 ∷ 5 ∷ 6 ∷ 7 ∷ []

-- `[first, first + 1, …]`, `count` of them.
pub units_from : ℕ → ℕ → List ℕ
units_from first zero = []
units_from first (suc count) = first ∷ units_from (first + 1) count
