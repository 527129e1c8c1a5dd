-- ===== src/Reach/Relation.antt =====
-- reach.rs: the flow of control over the ROM as a relation, for the trace to be compared with. What is
-- only known at run time is left open: the value of a store to a mapper register, the registers at the
-- call of a helper, and which of the words that a jump through RAM may find there it does find.
use decomps_agent.Prelude.{
  ℕ, ◌+◌, ◌*◌, ◌%◌, ◌^◌, ◌≡◌, ◌<◌, ◌≤◌, ◌==◌, bit_or, length, get_or, if◌then◌else◌, Bool, true,
  false, not, ◌&&◌, ◌||◌, leb, List, [], ◌∷◌, some,
}
use decomps_agent.Ines.{Rom}
use decomps_agent.Mapper.State.{BankState, RomLoc}
use decomps_agent.Mapper.Chip.{Mapper, on_write, is_mapper_reg}
use decomps_agent.Mapper.Address.{cpu_to_rom, read_u16}
use decomps_agent.Cpu.Insn.{Insn}
use decomps_agent.Cpu.Flow.{
  is_branch, is_jsr, is_jmp_abs, is_jmp_ind, is_store, mem_operand, indexed, target,
}
use decomps_agent.Sim.{Regs, is_imm}
use decomps_agent.Reach.Targets.{insn_at, is_sta, is_lda}
use decomps_agent.Reach.Flow.{loads_indexed}
use decomps_agent.Reach.Replay.{unwrap_or, helper_loop}
use decomps_agent.Reach.Pass.{Start}

-- The bank state behind an instruction.
pub data Effect (m : Mapper) (i : Insn) (st : BankState) : BankState → Type 0 where
  unchanged : Effect m i st st
  written :
      (op value : ℕ)
      → mem_operand i ≡ some op
      → (is_store i && leb 0x8000 op && is_mapper_reg m op) ≡ true
      → Effect m i st (on_write m op value st).0
  written_unknown :
      (op : ℕ)
      → mem_operand i ≡ some op
      → (is_store i && leb 0x8000 op && is_mapper_reg m op) ≡ true
      → Effect m i st (record st { dynamic = true })

-- Whether the instruction behind it may be the next one: behind a branch, a `JSR` and all others but
-- `JMP` in its two forms, `RTS`, `RTI` and `BRK`, by their opcodes.
abbrev pub falls_through : Insn → Bool
falls_through i =
    not i.illegal
    && (is_branch i
        || (i.opcode == 0x20
            || not (
                i.opcode == 0x4C
                || (i.opcode == 0x6C
                    || ((i.opcode == 0x60 || i.opcode == 0x40) || i.opcode == 0x00)))))

-- The entry `k` of two tables, as a word with `plus` added.
abbrev pub IsEntry : List ℕ → ℕ → ℕ → ℕ → ℕ → ℕ → ℕ → Type 0
IsEntry prg lo hi stride plus k tgt =
    (k < 96)
    × (lo + k * stride < length prg)
    × (hi + k * stride < length prg)
    × (tgt
        ≡ (bit_or (get_or prg (hi + k * stride) 0 * 2 ^ 8) (get_or prg (lo + k * stride) 0) + plus)
          % 2 ^ 16)
    × (0x8000 ≤ tgt)

-- An `STA` at an address, without an index.
abbrev pub StoresAt : Insn → ℕ → Type 0
StoresAt i at = ((is_sta i.mnemonic && not (indexed i)) ≡ true) × (mem_operand i ≡ some at)

-- `tgt` is the word, with `plus` added, that two tables hold at the same place: their low and their high
-- bytes lie in the ROM at `lo` and `hi`, one behind the other or apart. The tables have 96 entries at
-- most, and the word is an address of PRG space.
abbrev pub InTables : Rom → Mapper → ℕ → ℕ → BankState → ℕ → ℕ → Type 0
InTables rom m lo hi st plus tgt =
    (ll : RomLoc) × (hl : RomLoc) × (k : ℕ) × (cpu_to_rom m rom lo st ≡ some ll)
    × (cpu_to_rom m rom hi st ≡ some hl)
    × IsEntry rom.prg ll.file_offset hl.file_offset (if hi == (lo + 1) % 2 ^ 16 then 2 else 1) plus
        k tgt

pub data Among (e : Start) : List Start → Type 0 where
  here : (rest : List Start) → Among e (e ∷ rest)
  there : (d : Start) (rest : List Start) → Among e rest → Among e (d ∷ rest)

mutual
  -- An address and a bank state that the flow reaches from the entries.
  pub data Reaches (rom : Rom) (m : Mapper) (entries : List Start) : ℕ → BankState → Type 0 where
    entry : (e : Start) → Among e entries → Reaches rom m entries e.addr e.st
    step :
        (pc pc' : ℕ) (st after st' : BankState) (loc : RomLoc)
        → Reaches rom m entries pc st
        → cpu_to_rom m rom pc st ≡ some loc
        → Effect m (insn_at rom.prg loc.file_offset) st after
        → Goes rom m entries (insn_at rom.prg loc.file_offset) pc after pc' st'
        → Reaches rom m entries pc' st'

  -- An instruction at an address that the flow reaches.
  pub data Shown (rom : Rom) (m : Mapper) (entries : List Start) : Insn → Type 0 where
    shown :
        (pc : ℕ) (st : BankState) (loc : RomLoc)
        → Reaches rom m entries pc st
        → cpu_to_rom m rom pc st ≡ some loc
        → Shown rom m entries (insn_at rom.prg loc.file_offset)

  -- The byte that an `LDA` loads for a store at `at`, both of which the flow reaches.
  pub data Puts (rom : Rom) (m : Mapper) (entries : List Start) : ℕ → ℕ → Type 0 where
    puts :
        (at : ℕ) (load store : Insn) (v : ℕ)
        → Shown rom m entries load
        → Shown rom m entries store
        → (is_lda load.mnemonic && is_imm load.mode) ≡ true
        → load.operand ≡ some v
        → StoresAt store at
        → Puts rom m entries at (v % 256)

  -- The table out of which an `LDA` with an index loads for a store at `at`.
  pub data PutsFrom (rom : Rom) (m : Mapper) (entries : List Start) : ℕ → ℕ → Type 0 where
    puts_from :
        (at : ℕ) (load store : Insn) (table : ℕ)
        → Shown rom m entries load
        → Shown rom m entries store
        → loads_indexed load ≡ true
        → load.operand ≡ some table
        → StoresAt store at
        → PutsFrom rom m entries at table

  -- Where an instruction at `pc` leads, under the bank state `st` behind it. An indirect jump leads where
  -- its pointer in the ROM says, or to the words that reached stores put into its pointer; an `RTS`
  -- leads to the words, plus one, of two tables that reached loads read. No other return leads on.
  pub data Goes (rom : Rom) (m : Mapper) (entries : List Start)
      : Insn → ℕ → BankState → ℕ → BankState → Type 0 where
    next :
        {i : Insn} {pc : ℕ} {st : BankState}
        → falls_through i ≡ true
        → Goes rom m entries i pc st ((pc + i.len) % 2 ^ 16) st
    branch :
        {i : Insn} {pc : ℕ} {st : BankState} (tgt : ℕ)
        → is_branch i ≡ true
        → target i pc ≡ some tgt
        → Goes rom m entries i pc st tgt st
    call :
        {i : Insn} {pc : ℕ} {st : BankState} (tgt : ℕ)
        → is_jsr i ≡ true
        → i.operand ≡ some tgt
        → Goes rom m entries i pc st tgt st
    behind_call :
        {i : Insn} {pc : ℕ} {st : BankState} (tgt : ℕ) (regs : Regs)
        → is_jsr i ≡ true
        → i.operand ≡ some tgt
        → Goes rom m entries i pc st
            ((pc + 3) % 2 ^ 16)
            (record (helper_loop rom m 256 tgt regs st []).0 { dynamic = false })
    jump :
        {i : Insn} {pc : ℕ} {st : BankState} (tgt : ℕ)
        → is_jmp_abs i ≡ true
        → i.operand ≡ some tgt
        → Goes rom m entries i pc st tgt st
    jump_through :
        {i : Insn} {pc : ℕ} {st : BankState} (pl : RomLoc) (tgt : ℕ)
        → is_jmp_ind i ≡ true
        → cpu_to_rom m rom (unwrap_or i.operand 0) st ≡ some pl
        → read_u16 rom.prg pl.file_offset ≡ some tgt
        → Goes rom m entries i pc st tgt st
    stored_word :
        {i : Insn} {pc : ℕ} {st : BankState} (l h : ℕ)
        → is_jmp_ind i ≡ true
        → Puts rom m entries (unwrap_or i.operand 0) l
        → Puts rom m entries ((unwrap_or i.operand 0 + 1) % 2 ^ 16) h
        → Goes rom m entries i pc st (bit_or (h * 2 ^ 8) l) st
    stored_table :
        {i : Insn} {pc : ℕ} {st : BankState} (lo hi tgt : ℕ)
        → is_jmp_ind i ≡ true
        → PutsFrom rom m entries (unwrap_or i.operand 0) lo
        → PutsFrom rom m entries ((unwrap_or i.operand 0 + 1) % 2 ^ 16) hi
        → InTables rom m lo hi st 0 tgt
        → Goes rom m entries i pc st tgt st
    pushed_table :
        {i : Insn} {pc : ℕ} {st : BankState} (high low : Insn) (lo hi tgt : ℕ)
        → (i.opcode == 0x60) ≡ true
        → Shown rom m entries high
        → Shown rom m entries low
        → (loads_indexed high && loads_indexed low) ≡ true
        → high.operand ≡ some hi
        → low.operand ≡ some lo
        → InTables rom m lo hi st 1 tgt
        → Goes rom m entries i pc st tgt st
