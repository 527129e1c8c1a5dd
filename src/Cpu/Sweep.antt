-- ===== src/Cpu/Sweep.antt =====
-- tools/nesrom/src/stats.rs: the linear sweep of `code_plausibility`. The ratio of the two counts, a
-- floating-point number, is left to the caller.
pub mod Cover
use decomps_agent.Prelude.{
  ℕ, zero, suc, ◌+◌, Bool, true, false, not, ◌&&◌, if◌then◌else◌, List, [], ◌∷◌, Option, none, some,
  length, drop,
}
use decomps_agent.Cpu.Table.{
  Mnemonic, lda, sta, ldx, ldy, stx, sty, jsr, rts, jmp, bne, beq, cmp, inc, dec, inx, iny, dex,
  dey, and, ora, adc, sbc, bcc, bcs, bpl, bmi, tax, tay, txa, tya, pha, pla, clc, sec, asl, lsr,
  rol, ror, eor, bit, cpx, cpy, rti, sei, cld, nop, txs,
}
use decomps_agent.Cpu.Insn.{Insn, decode}

-- The mnemonics that the source counts as typical code.
abbrev pub is_common : Mnemonic → Bool
is_common lda = true
is_common sta = true
is_common ldx = true
is_common ldy = true
is_common stx = true
is_common sty = true
is_common jsr = true
is_common rts = true
is_common jmp = true
is_common bne = true
is_common beq = true
is_common cmp = true
is_common inc = true
is_common dec = true
is_common inx = true
is_common iny = true
is_common dex = true
is_common dey = true
is_common and = true
is_common ora = true
is_common adc = true
is_common sbc = true
is_common bcc = true
is_common bcs = true
is_common bpl = true
is_common bmi = true
is_common tax = true
is_common tay = true
is_common txa = true
is_common tya = true
is_common pha = true
is_common pla = true
is_common clc = true
is_common sec = true
is_common asl = true
is_common lsr = true
is_common rol = true
is_common ror = true
is_common eor = true
is_common bit = true
is_common cpx = true
is_common cpy = true
is_common rti = true
is_common sei = true
is_common cld = true
is_common nop = true
is_common txs = true
is_common _ = false

abbrev pub is_good : Insn → Bool
is_good i = not i.illegal && is_common i.mnemonic

pub record Counts : Type 0 where
  pub total : ℕ
  pub good : ℕ

-- The `while` loop; the list is what follows position `i`, and `none` means that the fuel ran out.
pub sweep_loop : ℕ → List ℕ → Counts → Option Counts
sweep_loop zero bytes counts = none
sweep_loop (suc fuel) [] counts = some counts
sweep_loop (suc fuel) (b ∷ rest) counts =
    let i = decode b rest in
    sweep_loop fuel (drop i.len (b ∷ rest)) (record {
      total = counts.total + 1;
      good = if is_good i then counts.good + 1 else counts.good;
    })

-- Each instruction takes a byte at least.
pub sweep : List ℕ → Option Counts
sweep bytes = sweep_loop (length bytes + 1) bytes (record { total = 0; good = 0 })
